-- ===== src/Adapter/Failure.antt =====
-- `adapter_send` where writes may fail: which packets are handed to the serial layer, and what their
-- writes return.
use serialusb.Common.{
  All, ℕ, zero, suc, ◌+◌, ◌-◌, ◌≤◌, ◌<◌, ◌≡◌, refl, ◌∙◌, ap, inl, inr, ◌⊎◌, Option, some, List, [],
  ◌∷◌, ◌++◌, arith, Bool-cases, ltb, false, true, Bool, subst, length, take, drop, concat,
  append_assoc, append-nil, length-take, length-drop, take-append-drop, drop-all,
}
use serialusb.Common.Int.{ℤ, pos, minus_one, is_neg}
use serialusb.Protocol.{max_packet_value_size, packet}
use serialusb.Adapter.{Table, entry, max_adapters, chunk, send_loop, adapter_send}
use serialusb.Adapter.Line.{Serial}
use serialusb.Adapter.Send.{packets}
use serialusb.Adapter.Stream.{adapter_check-open}

module _ (port : Serial) (s : ℤ) where
  open port use {W, sent, IsOpen}

  -- Packets with the values are written one after the other: all writes succeed, and the result is 0; or
  -- all but the last one, and the result is -1.
  pub data Writing (type : ℕ) : W → List (List ℕ) → W → ℤ → Type 0 where
    over : (w : W) → Writing type w [] w (pos 0)
    failed :
        (w : W) (v : List ℕ)
        → is_neg (port.write s (packet type (length v) v) w).1 ≡ true
        → Writing type w (v ∷ []) (port.write s (packet type (length v) v) w).0 minus_one
    wrote :
        (w : W) (v : List ℕ) (vs : List (List ℕ)) (world : W) (ret : ℤ)
        → is_neg (port.write s (packet type (length v) v) w).1 ≡ false
        → Writing type (port.write s (packet type (length v) v) w).0 vs world ret
        → Writing type w (v ∷ vs) world ret

  -- What has been written when the call returns: packets whose values are the first bytes, in order.
  -- Without an error nothing is left over.
  pub record Wrote (type : ℕ) (bytes : List ℕ) (w : W) (out : Option (W × ℤ)) : Type 0 where
    pub world : W
    pub ret : ℤ
    pub values : List (List ℕ)
    pub left : List ℕ
    pub returns : out ≡ some (world, ret)
    pub result : (ret ≡ pos 0) × (left ≡ []) ⊎ (ret ≡ minus_one)
    pub whole : concat values ++ left ≡ bytes
    pub short : All (λ v. length v ≤ max_packet_value_size) values
    pub writes : sent s world ≡ sent s w ++ packets type values
    pub run : Writing type w values world ret

  module _ (type : ℕ) (bytes : List ℕ) (w : W) (o : IsOpen s w) where
    -- The first chunk, the serial layer once it is written, and what is left to send.
    abbrev first : List ℕ
    first = take (chunk (length bytes)) bytes

    abbrev after : W
    after = (port.write s (packet type (chunk (length bytes)) first) w).0

    abbrev others : List ℕ
    others = drop (chunk (length bytes)) bytes

    length-first : length first ≡ chunk (length bytes)
    length-first = ground (arith, length-take (chunk (length bytes)) bytes)

    length-others : length others ≡ length bytes - chunk (length bytes)
    length-others = length-drop (chunk (length bytes)) bytes

    sent-after : sent s after ≡ sent s w ++ packets type (first ∷ [])
    sent-after = rw (length-first, port.sent-write s _ w o)

    one_packet :
        (r : ℤ)
        → ((r ≡ pos 0) × (others ≡ []) ⊎ (r ≡ minus_one))
        → Writing type w (first ∷ []) after r
        → Wrote type bytes w (some (after, r))
    one_packet r res run = record {
      world = after;
      ret = r;
      values = first ∷ [];
      left = others;
      returns = refl;
      result = res;
      whole = rw (append-nil first) (take-append-drop (chunk (length bytes)) bytes);
      short = (ground (arith, length-first), tt);
      writes = sent-after;
      run = run;
    }

    -- The write of the first chunk, as a packet of its length.
    abbrev FirstWrite : Bool → Type 0
    FirstWrite b = is_neg (port.write s (packet type (chunk (length bytes)) first) w).1 ≡ b

    first_failed : FirstWrite true → Writing type w (first ∷ []) after minus_one
    first_failed e =
        subst (λ n. Writing type w (first ∷ []) (port.write s (packet type n first) w).0 minus_one)
          length-first (failed w first (rw length-first e))

    first_wrote :
        (vs : List (List ℕ)) (world : W) (ret : ℤ)
        → FirstWrite false
        → Writing type after vs world ret
        → Writing type w (first ∷ vs) world ret
    first_wrote vs world ret e more =
        wrote w first vs world ret (rw length-first e) (rw length-first more)

    more_packets :
        {out : Option (W × ℤ)}
        → FirstWrite false
        → Wrote type others after out
        → Wrote type bytes w out
    more_packets fine d = record {
      world = d.world;
      ret = d.ret;
      values = first ∷ d.values;
      left = d.left;
      returns = d.returns;
      result = d.result;
      whole =
          append_assoc first (concat d.values) d.left
          ∙ ap (λ r. first ++ r) d.whole
          ∙ take-append-drop (chunk (length bytes)) bytes;
      short = (ground (arith, length-first), d.short);
      writes =
          d.writes
          ∙ rw sent-after
              (append_assoc (sent s w) (packets type (first ∷ [])) (packets type d.values));
      run = first_wrote d.values d.world d.ret fine d.run;
    }

  send_loop-Wrote :
      (fuel type : ℕ) (bytes : List ℕ) (n : ℕ) (w : W)
      → length bytes ≡ n
      → n < fuel
      → IsOpen s w
      → Wrote type bytes w (send_loop port fuel s type bytes n w)
  unfolding send_loop
  send_loop-Wrote zero type bytes n w e h o = absurd (omega arith)
  send_loop-Wrote (suc fuel) type bytes n w e h o =
      let p = packet type (chunk (length bytes)) (take (chunk (length bytes)) bytes) in
      rw (← e) (elim (Bool-cases (is_neg (port.write s p w).1)) [
        | inl bad ↦
            rw bad
              (one_packet type bytes w o minus_one (inr refl) (first_failed type bytes w o bad))
        | inr fine ↦ rw fine (elim (Bool-cases (ltb 0 (length bytes - chunk (length bytes)))) [
          | inl more ↦ rw more (
              more_packets type bytes w o fine (
                send_loop-Wrote fuel type _ _ _ (length-others type bytes w o) (ground arith)
                  (port.write-IsOpen s _ w o)))
          | inr last ↦ rw last (
              one_packet type bytes w o (pos 0)
                (inl (refl, drop-all (chunk (length bytes)) bytes (ground arith)))
                (first_wrote type bytes w o [] _ _ fine (over _)))
        ])
      ])

-- Whatever the writes return, `adapter_send` on an open adapter returns. It hands packets of its type,
-- with the first of its bytes in order, to the serial layer one by one until a write fails: then it
-- returns -1, and no packet is written after the failed one. If none fails it returns 0, and the packets
-- hold all of the bytes.
pub adapter_send-Wrote :
    (port : Serial) {Cb : Type 0} (t : Table Cb) (i type : ℕ) (bytes : List ℕ) (w : port.W)
    → i < max_adapters
    → is_neg (entry t i).serial ≡ false
    → port.IsOpen (entry t i).serial w
    → Wrote port
        (entry t i).serial
        type
        bytes
        w
        (adapter_send port t (pos i) type (some bytes) (length bytes) w)
unfolding adapter_send
adapter_send-Wrote port t i type bytes w h e o = rw (adapter_check-open t i h e) (
    send_loop-Wrote port (entry t i).serial (length bytes + 1) type bytes (length bytes) w refl
      (omega arith) o)
