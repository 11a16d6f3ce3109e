-- ===== src/Firmware.antt =====
-- fw/emu.c: the static variables of the firmware, its serial interrupt, and the callbacks of the USB
-- stack (LUFA). What LUFA and the hardware answer is an argument of the function that asks.
pub mod Control
pub mod Output
pub mod Receive
pub mod Lookup
mod Tests
use serialusb.Common.{
  ℕ, zero, suc, ◌+◌, ◌-◌, ◌*◌, ◌/◌, ◌%◌, Bool, true, false, ◌&&◌, ◌||◌, Option, none, some, List,
  [], ◌∷◌, ◌++◌, if◌then◌else◌, ltb, leb, ◌==◌, not, get_or, set, take, drop, length, replicate,
  write_at, inside, ◌>>=◌, ◌>>◌,
}
use serialusb.Common.Bytes.{from_le16}
use serialusb.Protocol.{
  max_descriptors_size, max_descriptors, max_endpoints, max_packet_value_size, e_type_descriptors,
  e_type_index, e_type_endpoints, e_type_reset, e_type_control, e_type_control_stall, e_type_in,
  e_type_out, e_type_debug, DescriptorIndex, EndpointConfig, packet,
}

-- The arrays are the bytes that the C structures occupy; `pdesc` and `pindex` are offsets in theirs.
-- `sent` holds the bytes given to the serial line.
pub record Firmware : Type 0 where
  pub control : List ℕ
  pub input : List ℕ
  pub input_data_len : ℕ
  pub descriptors : List ℕ
  pub desc_index : List ℕ
  pub endpoints : List ℕ
  pub pdesc : ℕ
  pub pindex : ℕ
  pub out_endpoints : List ℕ
  pub selected_out_endpoint : ℕ
  pub out_endpoint_number : ℕ
  pub started : Bool
  pub control_reply : Bool
  pub control_stall : Bool
  pub control_reply_len : ℕ
  pub sent : List ℕ

abbrev pub booted : Firmware
booted = record {
  control = replicate 254 0;
  input = replicate 65 0;
  input_data_len = 0;
  descriptors = replicate 1024 0;
  desc_index = replicate 256 0;
  endpoints = replicate 18 0;
  pdesc = 0;
  pindex = 0;
  out_endpoints = replicate 6 0;
  selected_out_endpoint = 0;
  out_endpoint_number = 0;
  started = false;
  control_reply = false;
  control_stall = false;
  control_reply_len = 0;
  sent = [];
}

abbrev pub ack : ℕ → Firmware → Firmware
ack type f = record f { sent = f.sent ++ (type ∷ 0 ∷ []) }

-- READ_VALUE_INC: the value at an offset of an array. `none` is a write past its end.
abbrev pub store : ℕ → List ℕ → List ℕ → Option (List ℕ)
store at value array =
    if leb (at + length value) (length array) then some (write_at at value array) else none

-- How the interrupt ends: it returns, with the bytes that it left unread; it waits for more bytes; it
-- writes outside an array; or it resets the processor.
pub data Isr : Type 0 where
  returns : Firmware → List ℕ → Isr
  waits : Isr
  faults : Isr
  resets : Isr

abbrev pub finish : Option Firmware → List ℕ → Isr
finish none rest = faults
finish (some f) rest = returns f rest

-- The labels of the interrupt that store the value, for the types up to E_TYPE_IN but the reset.
pub handle : ℕ → ℕ → List ℕ → Firmware → Option Firmware
handle type value_len value f =
    if type == e_type_descriptors
    then (store f.pdesc value f.descriptors >>= λ d.
        some
          (ack e_type_descriptors (record f { descriptors = d; pdesc = f.pdesc + length value })))
    else (if type == e_type_index
        then (store f.pindex value f.desc_index >>= λ d.
            some (ack e_type_index (record f { desc_index = d; pindex = f.pindex + length value })))
        else (if type == e_type_endpoints
            then (store 0 value f.endpoints >>= λ d.
                some
                  (record (ack e_type_endpoints (record f { endpoints = d })) { started = true }))
            else (if type == e_type_control
                then (store 0 value f.control >>= λ d.
                    some (record f {
                      control = d;
                      control_reply_len = value_len;
                      control_reply = true;
                    }))
                else (if type == e_type_control_stall
                    then (store 0 value f.control >>= λ d.
                        some (record f { control = d; control_reply = true; control_stall = true }))
                    else (store 0 value f.input >>= λ d.
                        some (record f { input = d; input_data_len = (value_len + 255) % 256 }))))))

-- USART1_RX_vect: the type and length of the packet, then the line from its value on. The value of a
-- packet of a type past E_TYPE_IN is not read.
pub isr : ℕ → ℕ → List ℕ → Firmware → Isr
unfolding handle
isr packet_type value_len line f =
    if ltb e_type_in packet_type
    then returns f line
    else (if packet_type == e_type_reset
        then resets
        else (if ltb (length line) value_len
            then waits
            else finish (handle packet_type value_len (take value_len line) f)
                (drop value_len line)))

-- The interrupts for the bytes on the line, on fuel. `none` is a fault, a reset or too little fuel.
pub interrupts : ℕ → List ℕ → Firmware → Option Firmware
unfolding isr
interrupts zero line f = none
interrupts (suc fuel) [] f = some f
interrupts (suc fuel) (type ∷ []) f = some f
interrupts (suc fuel) (type ∷ len ∷ line) f = elim (isr type len line f) [
  | returns f' rest ↦ interrupts fuel rest f'
  | waits ↦ some f
  | faults ↦ none
  | resets ↦ none
]

-- Entry `i` of `descIndex`, and of `endpoints`.
pub index_entry : List ℕ → ℕ → DescriptorIndex
index_entry bytes i =
    let word =
      λ (at : ℕ). from_le16 (get_or bytes (8 * i + at) 0) (get_or bytes (8 * i + at + 1) 0) in
    record { offset = word 0; w_value = word 2; w_index = word 4; w_length = word 6 }

pub endpoint_entry : List ℕ → ℕ → EndpointConfig
endpoint_entry bytes i = record {
  number = get_or bytes (3 * i) 0;
  type = get_or bytes (3 * i + 1) 0;
  size = get_or bytes (3 * i + 2) 0;
}

-- The loop of CALLBACK_USB_GetDescriptor over the `n` entries from `i` on: the address and length of
-- the descriptor.
pub find_descriptor : ℕ → ℕ → ℕ → ℕ → Firmware → Option (ℕ × ℕ)
find_descriptor zero i w_value w_index f = none
find_descriptor (suc n) i w_value w_index f =
    let e = index_entry f.desc_index i in
    let later = find_descriptor n (i + 1) w_value w_index f in
    if e.w_value == 0
    then none
    else (if w_value == e.w_value && w_index == e.w_index
        then some (e.offset, e.w_length)
        else later)

pub callback_usb_get_descriptor : ℕ → ℕ → Firmware → Option (ℕ × ℕ)
unfolding find_descriptor
callback_usb_get_descriptor w_value w_index f = find_descriptor max_descriptors 0 w_value w_index f

-- The loop of EVENT_USB_Device_ConfigurationChanged over the `n` endpoints from `i` on. The second
-- result lists the endpoints given to Endpoint_ConfigureEndpoint; `none` is a write past
-- `outEndpoints`.
pub configure : ℕ → ℕ → Firmware → Option (Firmware × List EndpointConfig)
unfolding endpoint_entry
configure zero i f = some (f, [])
configure (suc n) i f =
    let e = endpoint_entry f.endpoints i in
    let is_out = e.number / 128 % 2 == 0 in
    let f' =
      if is_out
      then record f {
        out_endpoints = set f.out_endpoints f.out_endpoint_number i;
        out_endpoint_number = f.out_endpoint_number + 1;
      }
      else f in
    let later = configure n (i + 1) f' in
    if e.number == 0
    then some (f, [])
    else (if is_out && leb max_endpoints f.out_endpoint_number
        then none
        else (later >>= λ (g, es). some (g, if e.type == 3 then e ∷ es else es)))

pub event_usb_device_configuration_changed : Firmware → Option (Firmware × List EndpointConfig)
unfolding configure
event_usb_device_configuration_changed f = configure max_endpoints 0 f

-- SendNextInput: `ready` is Endpoint_IsINReady() of the selected endpoint. The second result is what
-- is written to that endpoint; `none` is a read past `input`.
pub send_next_input : Bool → Firmware → Option (Firmware × Option (ℕ × List ℕ))
send_next_input ready f =
    let endpoint = get_or f.input 0 0 in
    let data_bytes = drop 1 f.input in
    if endpoint == 0 || not ready
    then some (f, none)
    else (if ltb (length data_bytes) f.input_data_len
        then none
        else some (
          ack e_type_in (record f { input = set f.input 0 0 }),
          some (endpoint, take f.input_data_len data_bytes),
        ))
