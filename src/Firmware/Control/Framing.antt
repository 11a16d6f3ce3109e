-- ===== src/Firmware/Control/Framing.antt =====
-- The packet by which the firmware forwards a control request.
use serialusb.Common.{
  ℕ, ◌+◌, ◌%◌, ◌≤◌, ◌≡◌, refl, ap, false, some, List, ◌∷◌, ◌++◌, arith, if◌then◌else◌, ltb, length,
  take, take-all, append_assoc, length-append, Bool-cases, inl, inr,
}
use serialusb.Protocol.{max_packet_value_size, e_type_control, packet}
use serialusb.Adapter.Framing.{IsPacket}
use serialusb.Firmware.{Firmware}
use serialusb.Firmware.Control.{
  ControlRequest, Answer, device_to_host, send_control_header, conclude,
  event_usb_device_unhandled_control_request,
}

-- The value of the packet: the setup, and the data of a write.
abbrev pub payload : ControlRequest → List ℕ → List ℕ
payload r bytes = if device_to_host r then r.setup else r.setup ++ bytes

-- The handler sends one packet, waits with both flags reset, and answers by the state after the wait.
pub record Forwarded (r : ControlRequest) (bytes : List ℕ) (wait : Firmware → Firmware)
    (f : Firmware) (out : Firmware × Answer) : Type 0 where
  pub waiting : Firmware
  pub whole : List ℕ
  pub valid : IsPacket whole
  pub content : whole ≡ packet e_type_control (length (payload r bytes)) (payload r bytes)
  pub sends : waiting.sent ≡ f.sent ++ whole
  pub no_reply : waiting.control_reply ≡ false
  pub no_stall : waiting.control_stall ≡ false
  pub returns : out ≡ (wait waiting, conclude r (wait waiting))

-- A request of at most 246 bytes of data, which for a write are read without an error, is
-- forwarded to the PC in one packet of its setup and, for a
-- write, of its data, which the adapter's framing takes whole; the handler then waits with the flags
-- of the reply reset, and answers by what they are after the wait.
pub control_request-Forwarded :
    (r : ControlRequest) (bytes : List ℕ) (wait : Firmware → Firmware) (f : Firmware)
    → length r.setup ≡ 8
    → r.w_length ≤ 246
    → length bytes ≡ r.w_length
    → Forwarded r bytes wait f (event_usb_device_unhandled_control_request r (some bytes) wait f)
unfolding event_usb_device_unhandled_control_request conclude
control_request-Forwarded r bytes wait f s small n =
    let fits : ltb max_packet_value_size r.w_length ≡ false = ground arith in
    let f' = record f { control_reply = false; control_stall = false } in
    elim (Bool-cases (device_to_host r)) [
      | inl reading ↦
          rw (fits, reading, send_control_header)
            (record {
              waiting = record f' { sent = f.sent ++ (e_type_control ∷ 8 ∷ r.setup) };
              whole = e_type_control ∷ 8 ∷ r.setup;
              valid = (omega arith, omega arith, omega arith);
              content = rw (reading, s) refl;
              sends = refl;
              no_reply = refl;
              no_stall = refl;
              returns = rw reading refl;
            })
      | inr writing ↦
          let len : (8 + r.w_length) % 256 ≡ 8 + r.w_length = omega arith in
          let all : take r.w_length bytes ≡ bytes = take-all r.w_length bytes (omega arith) in
          let total = length-append r.setup bytes in
          rw (fits, writing, send_control_header, all, len)
            (record {
              waiting = record f' {
                sent = (f.sent ++ (e_type_control ∷ (8 + r.w_length) ∷ r.setup)) ++ bytes;
              };
              whole = e_type_control ∷ (8 + r.w_length) ∷ (r.setup ++ bytes);
              valid = (omega arith, omega arith, omega arith);
              content =
                  rw writing (ap (λ k. e_type_control ∷ k ∷ (r.setup ++ bytes)) (omega arith));
              sends = append_assoc f.sent (e_type_control ∷ (8 + r.w_length) ∷ r.setup) bytes;
              no_reply = refl;
              no_stall = refl;
              returns = rw writing refl;
            })
    ]
