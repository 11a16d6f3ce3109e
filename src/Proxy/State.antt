-- ===== src/Proxy/State.antt =====
-- The static variables of sw/proxy.c, the endpoint tables, and the requests that the proxy makes of
-- the adapter (sw/adapter.c), of the USB device (gusb.c) and of the timers (gtimer.c). What these
-- return is an arbitrary function `answer` of the requests made so far.
use serialusb.Common.{
  ℕ, ◌+◌, ◌-◌, ◌*◌, ◌/◌, ◌%◌, Bool, false, Option, none, some, List, [], ◌∷◌, ◌++◌, if◌then◌else◌,
  ltb, get_elem?, set, replicate, ◌>>=◌,
}
use serialusb.Common.Int.{ℤ, minus_one}
use serialusb.Protocol.{DescriptorIndex, EndpointConfig}

-- USB_ENDPOINT_NUMBER_MASK
abbrev pub endpoint_max_number : ℕ
endpoint_max_number = 15

-- A call of a lower layer: `adapter_send`, `gusb_poll`, `gusb_write` (with the bytes from its buffer
-- on, and its count), `gtimer_close`; and those of `proxy_start`: `set_prio`, `adapter_open` with the
-- port, `gtimer_start` with the microseconds, `gusb_register` and `gusb_close`.
pub data Request : Type 0 where
  send : ℕ → List ℕ → Request
  poll : ℕ → Request
  write : ℕ → List ℕ → ℕ → Request
  close_timer : ℤ → Request
  set_priority : Request
  open_adapter : List ℕ → Request
  start_timer : ℕ → Request
  register_usb : Request
  close_usb : Request

-- An entry of `inPackets`: the length, and the `s_endpointPacket`.
pub record InPacket : Type 0 where
  pub size : ℕ
  pub endpoint : ℕ
  pub payload : List ℕ

-- `log` holds the requests, oldest first. The two endpoint tables are `uint8_t [2][15]`, row by row.
pub record Proxy : Type 0 where
  pub in_pending : ℕ
  pub in_packets : List InPacket
  pub in_ep_fifo : List ℕ
  pub nb_in_ep_fifo : ℕ
  pub serial_to_usb : List ℕ
  pub usb_to_serial : List ℕ
  pub done : Bool
  pub desc_index_sent : Bool
  pub endpoints_sent : Bool
  pub desc : List ℕ
  pub desc_index : List DescriptorIndex
  pub endpoints : List EndpointConfig
  pub init_timer : ℤ
  pub log : List Request

-- The values before `main`. The tables `desc`, `descIndex` and `endpoints` hold what stands below
-- the pointers `pDesc`, `pDescIndex` and `pEndpoints`.
abbrev pub initial : Proxy
initial = record {
  in_pending = 0;
  in_packets = replicate 15 (record { size = 0; endpoint = 0; payload = replicate 64 0 });
  in_ep_fifo = replicate 6 0;
  nb_in_ep_fifo = 0;
  serial_to_usb = replicate 30 0;
  usb_to_serial = replicate 30 0;
  done = false;
  desc_index_sent = false;
  endpoints_sent = false;
  desc = [];
  desc_index = [];
  endpoints = [];
  init_timer = minus_one;
  log = [];
}

-- ENDPOINT_ADDR_TO_INDEX, stored in a `uint8_t`.
abbrev pub addr_to_index : ℕ → ℕ
addr_to_index endpoint = (endpoint % 16 + 255) % 256

-- The place of S2U_ENDPOINT and U2S_ENDPOINT in the 30 bytes of a table: row `endpoint >> 7`, column
-- `(endpoint & 15) - 1`. Column -1 of row 1 is the last byte of row 0.
unfoldable pub cell : ℕ → Option ℕ
cell endpoint =
    let place = endpoint / 128 * 15 + endpoint % 16 in
    if ltb 0 place then (if ltb place 31 then some (place - 1) else none) else none

abbrev pub read_table : List ℕ → ℕ → Option ℕ
read_table table endpoint = cell endpoint >>= λ i. get_elem? table i

abbrev pub write_table : List ℕ → ℕ → ℕ → Option (List ℕ)
write_table table endpoint v = cell endpoint >>= λ i. some (set table i v)

-- Make a request: it is logged, and answered.
abbrev pub request : (List Request → Request → ℤ) → Request → Proxy → Proxy × ℤ
request answer r p = (record p { log = p.log ++ (r ∷ []) }, answer p.log r)
