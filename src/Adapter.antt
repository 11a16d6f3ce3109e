-- ===== src/Adapter.antt =====
-- sw/adapter.c: the table of adapters, the reassembly of packets from the bytes of the serial line,
-- the sending of packets, and the opening of an adapter. The serial line is the interface `Serial`.
pub mod Line
pub mod Framing
pub mod Recv
pub mod Stream
pub mod Send
pub mod Failure
pub mod Open
mod Tests
use serialusb.Common.{
  ℕ, zero, suc, ◌+◌, ◌-◌, ◌%◌, ◌^◌, Bool, true, false, ◌&&◌, Option, none, some, List, [], ◌∷◌,
  if◌then◌else◌, ltb, leb, ◌==◌, get_or, set, take, drop, replicate, write_at,
}
use serialusb.Common.Int.{ℤ, pos, negsuc, minus_one, is_neg, to_nat}
use serialusb.Protocol.{usart_baudrate, max_packet_size, header_size, max_packet_value_size, packet}
use Line.{Serial}

abbrev pub max_adapters : ℕ
max_adapters = 7

-- An entry of `adapters`: `packet` is the 256 bytes of the `s_packet`, `serial` is -1 if free, and
-- `fp_packet_cb` is NULL before the entry is first used.
pub record Adapter (Cb : Type 0) : Type 0 where
  pub packet : List ℕ
  pub bread : ℕ
  pub serial : ℤ
  pub fp_packet_cb : Option Cb

abbrev pub Table : Type 0 → Type 0
Table Cb = List (Adapter Cb)

-- uint32_t a + b and a - b
abbrev pub add32 : ℕ → ℕ → ℕ
add32 a b = (a + b) % 2 ^ 32

abbrev pub sub32 : ℕ → ℕ → ℕ
sub32 a b = (a + 2 ^ 32 - b) % 2 ^ 32

-- The length of the next packet of `adapter_send`.
abbrev pub chunk : ℕ → ℕ
chunk count = if ltb count max_packet_value_size then count else max_packet_value_size

abbrev pub free_adapter : {Cb : Type 0} → Adapter Cb
free_adapter = record {
  packet = replicate 256 0;
  bread = 0;
  serial = minus_one;
  fp_packet_cb = none;
}

pub adapter_init : (Cb : Type 0) → Table Cb
adapter_init Cb = replicate 7 free_adapter

module _ {Cb : Type 0} where
  abbrev pub entry : Table Cb → ℕ → Adapter Cb
  entry t i = get_or t i free_adapter

  pub adapter_check : Table Cb → ℤ → ℤ
  adapter_check t (negsuc _) = minus_one
  adapter_check t (pos i) =
      if leb max_adapters i
      then minus_one
      else (if is_neg (entry t i).serial then minus_one else pos 0)

  -- How many bytes of the packet are still missing.
  pub remaining : Adapter Cb → ℕ
  remaining a =
      if ltb a.bread header_size
      then sub32 header_size a.bread
      else sub32 (get_or a.packet 1 0) (sub32 a.bread header_size)

  -- The first free entry, from entry `i` on.
  pub find_free : ℕ → Table Cb → Option ℕ
  find_free i [] = none
  find_free i (a ∷ t) = let later = find_free (i + 1) t in if is_neg a.serial then some i else later

module _ (port : Serial) {Cb : Type 0} (call : Cb → ℕ → List ℕ → port.W → port.W × ℤ) where
  open port use {W, write, set_read_size}

  -- The packet is complete: it goes to the callback, and the next read is for a header.
  -- `none` is a call through NULL.
  pub deliver : Adapter Cb → ℕ → W → Option (Adapter Cb × W × ℤ)
  deliver a i w = elim a.fp_packet_cb [
    | none ↦ none
    | some cb ↦
        let (w', ret) = call cb i a.packet w in
        some (record a { bread = 0 }, (set_read_size a.serial header_size w').0, ret)
  ]

  -- The fragment is in the packet: deliver it if it is complete, or ask for the rest.
  pub resume : Adapter Cb → ℕ → W → Option (Adapter Cb × W × ℤ)
  resume a i w =
      if remaining a == 0
      then deliver a i w
      else some (a, (set_read_size a.serial (remaining a) w).0, pos 0)

  -- `adapter_recv` past its guards: `n` bytes of `buf` have been read.
  pub recv_bytes : Adapter Cb → ℕ → List ℕ → ℕ → W → Option (Adapter Cb × W × ℤ)
  unfolding resume deliver remaining
  recv_bytes a i buf n w =
      if leb (add32 a.bread n) max_packet_size
      then resume
          (record a { packet = write_at a.bread (take n buf) a.packet; bread = add32 a.bread n }) i
          w
      else some (a, w, minus_one)

  pub put_back : Table Cb → ℕ → Option (Adapter Cb × W × ℤ) → Option (Table Cb × W × ℤ)
  put_back t i none = none
  put_back t i (some (a, w, ret)) = some (set t i a, w, ret)

  pub adapter_recv : Table Cb → ℤ → List ℕ → ℤ → W → Option (Table Cb × W × ℤ)
  unfolding put_back adapter_check
  adapter_recv t adapter buf status w =
      if is_neg (adapter_check t adapter)
      then some (t, w, minus_one)
      else (if is_neg status
          then some (t, w, minus_one)
          else put_back t (to_nat adapter)
              (recv_bytes (entry t (to_nat adapter)) (to_nat adapter) buf (to_nat status) w))

module _ (port : Serial) where
  open port use {W, write}

  -- The `do … while (count > 0)` of `adapter_send`, on fuel: `none` means that it ran out.
  pub send_loop : ℕ → ℤ → ℕ → List ℕ → ℕ → W → Option (W × ℤ)
  send_loop zero serial type bytes count w = none
  send_loop (suc fuel) serial type bytes count w =
      let len = chunk count in
      let (w', ret) = write serial (packet type len (take len bytes)) w in
      let again = send_loop fuel serial type (drop len bytes) (count - len) w' in
      if is_neg ret
      then some (w', minus_one)
      else (if ltb 0 (count - len) then again else some (w', pos 0))

module _ (port : Serial) {Cb : Type 0} where
  open port use {W, open_port, close_port, register}

  -- `data` is `none` for NULL.
  pub adapter_send : Table Cb → ℤ → ℕ → Option (List ℕ) → ℕ → W → Option (W × ℤ)
  unfolding send_loop adapter_check
  adapter_send t adapter type bytes count w =
      if is_neg (adapter_check t adapter) then some (w, minus_one) else elim bytes [
        | none ↦
            if count == 0
            then send_loop port (count + 1) (entry t (to_nat adapter)).serial type [] count w
            else some (w, minus_one)
        | some bs ↦ send_loop port (count + 1) (entry t (to_nat adapter)).serial type bs count w
      ]

  pub install : Table Cb → ℤ → Cb → Option ℕ → W → Table Cb × W × ℤ
  install t serial cb none w = (t, (close_port serial w).0, minus_one)
  install t serial cb (some i) w =
      let t' = set t i (record (entry t i) { serial = serial; fp_packet_cb = some cb }) in
      let (w', ret) = register serial i w in (t', w', if is_neg ret then minus_one else pos i)

  pub adapter_open : Table Cb → List ℕ → Cb → W → Table Cb × W × ℤ
  unfolding install find_free
  adapter_open t path cb w =
      let (w', serial) = open_port path usart_baudrate w in
      if is_neg serial then (t, w', minus_one) else install t serial cb (find_free 0 t) w'
