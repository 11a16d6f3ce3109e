-- ===== src/Firmware/Control.antt =====
-- EVENT_USB_Device_UnhandledControlRequest of fw/emu.c, with `send_control_header`: a control request of
-- the target host is forwarded to the PC, and the PC's answer is given to the host.
pub mod Framing
use serialusb.Common.{
  ℕ, ◌+◌, ◌/◌, ◌%◌, Bool, true, false, Option, none, some, List, [], ◌∷◌, ◌++◌, if◌then◌else◌, ltb,
  ◌==◌, take, not,
}
use serialusb.Protocol.{max_packet_value_size, e_type_control, e_type_debug}
use serialusb.Firmware.{Firmware}

-- `USB_ControlRequest`: its 8 bytes, and the two fields that the firmware reads.
pub record ControlRequest : Type 0 where
  pub setup : List ℕ
  pub bm_request_type : ℕ
  pub w_length : ℕ

-- bmRequestType & REQDIR_DEVICETOHOST
abbrev pub device_to_host : ControlRequest → Bool
device_to_host r = r.bm_request_type / 128 % 2 == 1

-- What the host gets: the request is left to the stack; the transaction is stalled; an empty status
-- stage; the data of a read; or the end of a write.
pub data Answer : Type 0 where
  unhandled stalled status_only end_of_write : Answer
  reads : List ℕ → Answer

abbrev pub serial_send : List ℕ → Firmware → Firmware
serial_send bytes f = record f { sent = f.sent ++ bytes }

unfoldable pub send_control_header : ControlRequest → Firmware → Firmware
send_control_header r f =
    let len = if device_to_host r then 8 else (8 + r.w_length) % 256 in
    serial_send (e_type_control ∷ len ∷ r.setup) f

-- The end of the handler, once the wait is over.
unfoldable pub conclude : ControlRequest → Firmware → Answer
conclude r f =
    if not f.control_reply
    then status_only
    else (if f.control_stall
        then stalled
        else (if device_to_host r
            then reads (take f.control_reply_len f.control)
            else end_of_write))

-- `written` is what Endpoint_Read_Control_Stream_LE reads, `none` for an error; `wait` is what the
-- serial interrupts do to the state while the handler waits for the reply.
unfoldable pub event_usb_device_unhandled_control_request :
    ControlRequest → Option (List ℕ) → (Firmware → Firmware) → Firmware → Firmware × Answer
unfolding send_control_header conclude
event_usb_device_unhandled_control_request r written wait f =
    if ltb max_packet_value_size r.w_length
    then (serial_send (e_type_debug ∷ 8 ∷ r.setup) f, unhandled)
    else (let f' = record f { control_reply = false; control_stall = false } in
        if device_to_host r
        then (let g = wait (send_control_header r f') in (g, conclude r g))
        else elim written [
          | none ↦ (f', stalled)
          | some bytes ↦
              let g = wait (serial_send (take r.w_length bytes) (send_control_header r f')) in
              (g, conclude r g)
        ])
