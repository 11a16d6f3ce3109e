-- ===== src/Firmware/Output.antt =====
-- ReceiveNextOutput of fw/emu.c: the OUT endpoints are asked in turn for the data of the target host,
-- which goes to the PC.
pub mod Turns
use serialusb.Common.{
  ℕ, ◌+◌, ◌%◌, Bool, true, false, Option, none, some, List, [], ◌∷◌, ◌++◌, if◌then◌else◌, ltb, ◌==◌,
  get_or, take,
}
use serialusb.Protocol.{e_type_out, max_payload_size_ep, EndpointConfig}
use serialusb.Firmware.{Firmware, endpoint_entry}

-- What the endpoint holds: Endpoint_IsOUTReceived(), Endpoint_IsReadWriteAllowed(), and the outcome of
-- Endpoint_Read_Stream_LE: whether there was no error, the bytes read, and their number.
pub record OutState : Type 0 where
  pub received : Bool
  pub allowed : Bool
  pub no_error : Bool
  pub bytes : List ℕ
  pub processed : ℕ

-- The number of bytes that are passed on.
unfoldable pub out_length : EndpointConfig → OutState → ℕ
out_length e o = if o.allowed then (if o.no_error then e.size else o.processed) else 0

-- The endpoint whose turn it is.
abbrev pub selected : Firmware → EndpointConfig
selected f = endpoint_entry f.endpoints (get_or f.out_endpoints f.selected_out_endpoint 0)

-- The turn passes to the next endpoint, and after the last to the first.
unfoldable pub advance : Firmware → Firmware
advance f = record f {
  selected_out_endpoint =
      if f.selected_out_endpoint + 1 == f.out_endpoint_number
      then 0
      else f.selected_out_endpoint + 1;
}

-- What the endpoint holds is read into the 64 bytes of `packet.value.data`; `none` is a write past them.
unfoldable pub receive_next_output : (EndpointConfig → OutState) → Firmware → Option Firmware
unfolding out_length advance
receive_next_output ask f =
    if ltb 0 f.out_endpoint_number
    then (let e = selected f in
        let o = ask e in
        let n = out_length e o in
        let g = advance f in
        if o.received
        then (if ltb max_payload_size_ep n
            then none
            else some (
                if n == 0 then g else record g {
                  sent = g.sent ++ (e_type_out ∷ (n + 1) % 256 ∷ e.number ∷ take n o.bytes);
                }))
        else some g)
    else some f
