-- ===== src/Proxy/Fifo/Sending.antt =====
-- `send_next_in_packet`, by whether a packet is pending and one is queued.
use serialusb.Common.{
  ℕ, zero, suc, ◌-◌, ◌<◌, ◌≡◌, ◌≢◌, refl, sym, ap, ap₂, ◌∙◌, inl, inr, List, [], ◌∷◌, ◌++◌, map,
  arith, get_elem?, take, drop, Option, some, Bool-cases, ltb, ◌==◌, true, false,
  get_elem?-eq-get_or,
}
use serialusb.Common.Int.{ℤ, pos, minus_one, is_neg}
use serialusb.Protocol.{e_type_in}
use serialusb.Proxy.State.{Proxy, Request, send, addr_to_index}
use serialusb.Proxy.Fifo.{shifted, send_first, send_next_in_packet}
use serialusb.Proxy.Fifo.Queue.{
  no_packet, queued, value_of, values, HasNumber, IsQueue, take-first, take-moved, length-moved,
}

take-zero {ℓ} : {A : Type ℓ} (n : ℕ) (xs : List A) → n ≡ 0 → take n xs ≡ []
take-zero zero xs e = refl
take-zero (suc n) xs e = absurd (omega arith)

module _ (answer : List Request → Request → ℤ) where
  -- The front of the queue has been sent and is pending, and the rest is queued.
  pub record Sent (p : Proxy) (endpoint : ℕ) (v : List ℕ) (state : Proxy) : Type 0 where
    pub front : queued p ≡ endpoint ∷ queued state
    pub front_value : values p ≡ v ∷ values state
    pub pending : state.in_pending ≡ endpoint
    pub logged : state.log ≡ p.log ++ (send e_type_in v ∷ [])
    pub valid : IsQueue state

  -- All outcomes: nothing is to be sent, the front is sent, or sending it fails.
  pub data Next (p : Proxy) (out : Option (Proxy × ℤ)) : Type 0 where
    busy : p.in_pending ≢ 0 → out ≡ some (p, pos 0) → Next p out
    idle : p.in_pending ≡ 0 → queued p ≡ [] → out ≡ some (p, pos 0) → Next p out
    sent :
        (endpoint : ℕ) (v : List ℕ) (state : Proxy)
        → p.in_pending ≡ 0
        → out ≡ some (state, pos 0)
        → is_neg (answer p.log (send e_type_in v)) ≡ false
        → Sent p endpoint v state
        → Next p out
    failed :
        (endpoint : ℕ) (v : List ℕ) (rest : List (List ℕ))
        → p.in_pending ≡ 0
        → values p ≡ v ∷ rest
        → is_neg (answer p.log (send e_type_in v)) ≡ true
        → out ≡ some (record p { log = p.log ++ (send e_type_in v ∷ []) }, minus_one)
        → Next p out

  module _ (p : Proxy) (v : IsQueue p) (free : p.in_pending ≡ 0)
      (filled : 0 < p.nb_in_ep_fifo) where
    first :
        (x : ℕ) × (get_elem? p.in_ep_fifo 0 ≡ some x)
        × (queued p ≡ x ∷ take (p.nb_in_ep_fifo - 1) (drop 1 p.in_ep_fifo))
    first = take-first p.in_ep_fifo p.nb_in_ep_fifo filled (omega (arith, v))

    Sent-shifted :
        (x : ℕ) (bytes : List ℕ)
        → queued p ≡ x ∷ take (p.nb_in_ep_fifo - 1) (drop 1 p.in_ep_fifo)
        → bytes ≡ value_of p.in_packets x
        → Sent p x bytes (shifted x (record p { log = p.log ++ (send e_type_in bytes ∷ []) }))
    Sent-shifted x bytes e b =
        let moved = take-moved p.in_ep_fifo (p.nb_in_ep_fifo - 1) (omega (arith, v)) in
        record {
          front = e ∙ ap (λ r. x ∷ r) (sym moved);
          front_value =
              ap (map (value_of p.in_packets)) e
              ∙ ap₂ ◌∷◌ (sym b) (ap (map (value_of p.in_packets)) (sym moved));
          pending = refl;
          logged = refl;
          valid = record {
            packets = v.packets;
            fifo = length-moved p.in_ep_fifo (p.nb_in_ep_fifo - 1) (omega (arith, v)) ∙ v.fifo;
            count = omega (arith, v);
            numbers = rw moved (rw e at v.numbers).1;
            payloads = v.payloads;
          };
        }

    front_number :
        (x : ℕ) → queued p ≡ x ∷ take (p.nb_in_ep_fifo - 1) (drop 1 p.in_ep_fifo) → HasNumber x
    front_number x e = (rw e at v.numbers).0

    send_first-Next : Next p (send_first answer p)
    unfolding send_first
    send_first-Next =
        let (x, at_front, e) = first in
        let i = addr_to_index x in
        let n = front_number x e in
        let bytes = value_of p.in_packets x in
        let found = get_elem?-eq-get_or p.in_packets i no_packet (omega (arith, v)) in
        rw (at_front, found)
          (elim (Bool-cases (is_neg (answer p.log (send e_type_in bytes)))) [
            | inl bad ↦ rw bad (failed x bytes _ free (ap (map (value_of p.in_packets)) e) bad refl)
            | inr good ↦ rw good (sent x bytes _ free refl good (Sent-shifted x bytes e refl))
          ])

  -- Every outcome of `send_next_in_packet` on a valid queue: a packet is pending or the queue is empty, and nothing
  -- changes; or the packet at the front is sent and becomes the pending one, and the others stay
  -- queued in order; or sending it fails, and the queue stays as it was.
  pub send_next_in_packet-Next : (p : Proxy) → IsQueue p → Next p (send_next_in_packet answer p)
  unfolding send_next_in_packet
  send_next_in_packet-Next p v = elim (Bool-cases (p.in_pending == 0)) [
    | inl free ↦ rw free (elim (Bool-cases (ltb 0 p.nb_in_ep_fifo)) [
      | inl filled ↦ rw filled (send_first-Next p v (ground arith) (ground arith))
      | inr empty ↦
          rw empty
            (idle (ground arith) (take-zero p.nb_in_ep_fifo p.in_ep_fifo (ground arith)) refl)
    ])
    | inr taken ↦ rw taken (busy (ground arith) refl)
  ]
