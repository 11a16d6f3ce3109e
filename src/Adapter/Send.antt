-- ===== src/Adapter/Send.antt =====
-- `adapter_send`: which packets it writes for the bytes that it is given.
use serialusb.Common.{
  All, ℕ, zero, suc, ◌+◌, ◌-◌, ◌/◌, ◌≤◌, ◌<◌, ◌≡◌, refl, ◌∙◌, ap, Option, some, List, [], ◌∷◌, ◌++◌,
  map, arith, ltb, true, false, length, take, drop, concat, append_assoc, append-nil, length-take,
  length-drop, take-append-drop, take-all,
}
use serialusb.Common.Int.{ℤ, pos, is_neg}
use serialusb.Protocol.{max_packet_value_size, packet}
use serialusb.Adapter.{Table, entry, max_adapters, chunk, send_loop, adapter_send}
use serialusb.Adapter.Stream.{adapter_check-open}
use native.Mathlib.Decide.{dec_le}
use serialusb.Adapter.Line.{Serial}

-- The packets for a list of values.
abbrev pub packets : ℕ → List (List ℕ) → List (List ℕ)
packets type = map λ v. packet type (length v) v

-- The values hold the bytes, in order; each has at most 254, and no value but the first can be empty.
pub record IsSplit (bytes : List ℕ) (vs : List (List ℕ)) : Type 0 where
  pub whole : concat vs ≡ bytes
  pub short : All (λ v. length v ≤ max_packet_value_size) vs
  pub count : length vs ≡ 1 + (length bytes - 1) / max_packet_value_size

module _ (type : ℕ) (bytes : List ℕ) where
  -- One chunk takes everything,
  chunk-last : length bytes ≤ max_packet_value_size → chunk (length bytes) ≡ length bytes
  chunk-last h = ground arith

  -- or a full packet.
  chunk-full : max_packet_value_size < length bytes → chunk (length bytes) ≡ max_packet_value_size
  chunk-full h = ground arith

  nothing_left : ltb 0 (length bytes - length bytes) ≡ false
  nothing_left = ground arith

  something_left :
      max_packet_value_size < length bytes → ltb 0 (length bytes - max_packet_value_size) ≡ true
  something_left h = ground arith

  IsSplit-last : length bytes ≤ max_packet_value_size → IsSplit bytes (bytes ∷ [])
  IsSplit-last h = record { whole = append-nil bytes; short = (h, tt); count = omega arith }

  IsSplit-cons :
      (vs : List (List ℕ))
      → max_packet_value_size < length bytes
      → IsSplit (drop max_packet_value_size bytes) vs
      → IsSplit bytes (take max_packet_value_size bytes ∷ vs)
  IsSplit-cons vs h v = record {
    whole =
        ap (λ r. take max_packet_value_size bytes ++ r) v.whole
        ∙ take-append-drop max_packet_value_size bytes;
    short = (omega (arith, length-take max_packet_value_size bytes), v.short);
    count = omega (arith, v.count, length-drop max_packet_value_size bytes);
  }

module _ (port : Serial) (s : ℤ) where
  open port use {W, sent, IsOpen}

  -- All bytes are written, as packets, and the port is left open.
  pub record Sent (type : ℕ) (bytes : List ℕ) (w : W) (out : Option (W × ℤ)) : Type 0 where
    pub world : W
    pub values : List (List ℕ)
    pub returns : out ≡ some (world, pos 0)
    pub split : IsSplit bytes values
    pub writes : sent s world ≡ sent s w ++ packets type values
    pub still_open : IsOpen s world

  Sent-last :
      (type : ℕ) (bytes : List ℕ) (w : W)
      → length bytes ≤ max_packet_value_size
      → IsOpen s w
      → Sent type bytes w (some ((port.write s (packet type (length bytes) bytes) w).0, pos 0))
  Sent-last type bytes w h o = record {
    world = (port.write s (packet type (length bytes) bytes) w).0;
    values = bytes ∷ [];
    returns = refl;
    split = IsSplit-last type bytes h;
    writes = port.sent-write s _ w o;
    still_open = port.write-IsOpen s _ w o;
  }

  Sent-cons :
      (type : ℕ) (bytes : List ℕ) (w : W) {out : Option (W × ℤ)}
      → max_packet_value_size < length bytes
      → IsOpen s w
      → let p = packet type max_packet_value_size (take max_packet_value_size bytes) in
        Sent type (drop max_packet_value_size bytes) (port.write s p w).0 out
        → Sent type bytes w out
  Sent-cons type bytes w h o d = record {
    world = d.world;
    values = take max_packet_value_size bytes ∷ d.values;
    returns = d.returns;
    split = IsSplit-cons type bytes d.values h d.split;
    writes =
        let e : length (take max_packet_value_size bytes) ≡ max_packet_value_size =
          omega (arith, length-take max_packet_value_size bytes) in
        rw (d.writes, e, port.sent-write s _ w o)
          (append_assoc (sent s w) (_ ∷ []) (packets type d.values));
    still_open = d.still_open;
  }

  -- With enough fuel the loop sends everything.
  pub send_loop-Sent :
      (fuel type : ℕ) (bytes : List ℕ) (n : ℕ) (w : W)
      → length bytes ≡ n
      → n < fuel
      → ((bs : List ℕ) (v : W) → is_neg (port.write s bs v).1 ≡ false)
      → IsOpen s w
      → Sent type bytes w (send_loop port fuel s type bytes n w)
  unfolding send_loop
  send_loop-Sent zero type bytes n w e h reliable o = absurd (omega arith)
  send_loop-Sent (suc fuel) type bytes n w e h reliable o =
      elim (dec_le (length bytes) max_packet_value_size) [
        | yes last ↦
            rw
              (
                ← e,
                chunk-last type bytes last,
                reliable _ w,
                nothing_left type bytes,
                take-all (length bytes) bytes (omega arith),
              )
              (Sent-last type bytes w last o)
        | no more ↦
            let more' : max_packet_value_size < length bytes = omega arith in
            rw (← e, chunk-full type bytes more', reliable _ w, something_left type bytes more')
              (Sent-cons type bytes w more' o (
                send_loop-Sent fuel type _ _ _ (length-drop max_packet_value_size bytes)
                  (omega arith) reliable (port.write-IsOpen s _ w o)))
      ]

-- On an adapter that is open `adapter_send` returns 0 if no write fails, and then has written its
-- bytes as a sequence of packets of its type: the values joined are the bytes, each has at most 254
-- of them, and there are as few packets as that allows, but always one.
pub adapter_send-Sent :
    (port : Serial) {Cb : Type 0} (t : Table Cb) (i type : ℕ) (bytes : List ℕ) (w : port.W)
    → i < max_adapters
    → is_neg (entry t i).serial ≡ false
    → ((bs : List ℕ) (v : port.W) → is_neg (port.write (entry t i).serial bs v).1 ≡ false)
    → port.IsOpen (entry t i).serial w
    → Sent port
        (entry t i).serial
        type
        bytes
        w
        (adapter_send port t (pos i) type (some bytes) (length bytes) w)
unfolding adapter_send
adapter_send-Sent port t i type bytes w h e reliable o = rw (adapter_check-open t i h e) (
    send_loop-Sent port (entry t i).serial (length bytes + 1) type bytes (length bytes) w refl
      (omega arith) reliable o)
