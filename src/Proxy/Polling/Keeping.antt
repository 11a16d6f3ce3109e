-- ===== src/Proxy/Polling/Keeping.antt =====
-- What the calls of the IN path keep: the table of endpoints, and the endpoints that are queued or
-- pending.
use serialusb.Common.{
  ℕ, ◌+◌, ◌%◌, ◌≤◌, ◌<◌, ◌≡◌, ◌≢◌, refl, sym, ap, ◌∙◌, inl, inr, ◌⊎◌, Bool, true, false, some, List,
  [], ◌∷◌, ◌++◌, if◌then◌else◌, ◌==◌, ==_iff, ltb, arith, Bool-cases, length, subst, All,
}
use serialusb.Common.Int.{ℤ, pos, minus_one, is_minus_one}
use serialusb.Protocol.{max_endpoints, max_payload_size_ep}
use serialusb.Proxy.State.{Proxy, Request, poll, read_table}
use serialusb.Proxy.Fifo.{send_next_in_packet, queue_in_packet}
use serialusb.Proxy.Fifo.Queue.{queued, HasNumber, IsFresh, IsQueue}
use serialusb.Proxy.Fifo.Order.{queue_in_packet-Queued}
use serialusb.Proxy.Fifo.Sending.{busy, idle, sent, failed, send_next_in_packet-Next}
use serialusb.Proxy.Callbacks.{in_data}
use serialusb.Proxy.Dispatch.{acknowledged}
use serialusb.Proxy.Polling.Table.{
  same_result, option_first, option_second, pos-minus_one, table-after, queue_in_packet-KeepsTable,
  send_next_in_packet-KeepsTable,
}
use serialusb.Proxy.Polling.Tally.{tally, tally-append}

abbrev pub pending_of : Proxy → List ℕ
pending_of p = if p.in_pending == 0 then [] else p.in_pending ∷ []

-- A call that succeeds keeps the queue valid, the table and, in some order, the endpoints that are
-- queued or pending, or some of them.
pub record KeepsQueue (p q : Proxy) (more : List ℕ) : Type 0 where
  pub valid : IsQueue q
  pub same_table : q.usb_to_serial ≡ p.usb_to_serial
  pub moved :
      (f : ℕ → Bool)
      → tally f (queued q) + tally f (pending_of q)
        ≡ tally f (queued p) + tally f (pending_of p) + tally f more

nonzero : (x : ℕ) → HasNumber x → (x == 0) ≡ false
nonzero x h = elim (Bool-cases (x == 0)) [
  | inr e ↦ e
  | inl e ↦ absurd (h (ap (λ n. n % 16) ((==_iff x 0).0 e)))
]

one_more :
    (g : ℕ → Bool) (x : ℕ) (xs : List ℕ) → tally g xs + tally g (x ∷ []) ≡ tally g (x ∷ xs) + 0 + 0
one_more g x xs = elim (Bool-cases (g x)) [
  | inl e ↦ rw e (omega arith)
  | inr e ↦ rw e (omega arith)
]

module _ (answer : List Request → Request → ℤ) where
  same-KeepsQueue : (p q : Proxy) → IsQueue p → p ≡ q → KeepsQueue p q []
  same-KeepsQueue p q v e =
      subst (λ (x : Proxy). KeepsQueue p x []) e
        (record { valid = v; same_table = refl; moved = λ f. omega arith })

  -- Sending the front moves it from the queue to the pending packet.
  send_next_in_packet-KeepsQueue :
      (p q : Proxy) → IsQueue p → send_next_in_packet answer p ≡ some (q, pos 0) → KeepsQueue p q []
  send_next_in_packet-KeepsQueue p q v e =
      let m = send_next_in_packet answer p in
      elim (send_next_in_packet-Next answer p v) [
        | busy ne f ↦ same-KeepsQueue p q v (same_result m p q _ _ f e).0
        | idle z n f ↦ same-KeepsQueue p q v (same_result m p q _ _ f e).0
        | sent x bytes s z f good r ↦
            let numbered : All HasNumber (x ∷ queued s) = subst (All HasNumber) r.front v.numbers in
            let given : (x == 0) ≡ false = nonzero x numbered.0 in
            let free : (p.in_pending == 0) ≡ true = (==_iff p.in_pending 0).1 z in
            subst (λ (y : Proxy). KeepsQueue p y []) (same_result m s q _ _ f e).0
              (record {
                valid = r.valid;
                same_table = table-after p s (pos 0) m (send_next_in_packet-KeepsTable answer p) f;
                moved = λ g. rw (r.front, free, r.pending, given) (one_more g x (queued s));
              })
        | failed x bytes rest z f bad g ↦
            absurd (let bad' = pos-minus_one (same_result m q _ (pos 0) minus_one e g).1 in cc)
      ]

  send_next_in_packet-cases :
      (p : Proxy)
      → IsQueue p
      → ((q : Proxy) × (send_next_in_packet answer p ≡ some (q, pos 0)))
        ⊎ ((q : Proxy) × (send_next_in_packet answer p ≡ some (q, minus_one)))
  send_next_in_packet-cases p v = elim (send_next_in_packet-Next answer p v) [
    | busy ne f ↦ inl (p, f)
    | idle z n f ↦ inl (p, f)
    | sent x bytes s z f good r ↦ inl (s, f)
    | failed x bytes rest z f bad g ↦ inr (_, g)
  ]

  -- Data that is taken joins the endpoints that are queued or pending.
  pub in_data-KeepsQueue :
      (p q : Proxy) (endpoint : ℕ) (buf : List ℕ) (serial : ℕ)
      → IsQueue p
      → HasNumber endpoint
      → length buf ≤ max_payload_size_ep
      → p.nb_in_ep_fifo ≢ max_endpoints
      → IsFresh endpoint (queued p)
      → read_table p.usb_to_serial endpoint ≡ some serial
      → in_data answer endpoint buf (pos (length buf)) p ≡ some (q, pos 0)
      → KeepsQueue p q (endpoint ∷ [])
  unfolding in_data
  in_data-KeepsQueue p q endpoint buf serial v number fits room fresh mapped e =
      let k = queue_in_packet-Queued p endpoint buf v number fits room serial fresh mapped in
      let small : ltb max_payload_size_ep (length buf) ≡ false = ground arith in
      let run = rw (small, k.returns) at e in
      elim (send_next_in_packet-cases k.state k.valid) [
        | inr (s, f) ↦
            let run' = rw f at run in
            absurd (let bad = pos-minus_one (sym (option_second run')) in cc)
        | inl (s, f) ↦
            let same : s ≡ q = option_first (rw f at run) in
            let kept =
              send_next_in_packet-KeepsQueue k.state q k.valid
                (f ∙ ap (λ (x : Proxy). some (x, pos 0)) same) in
            let table =
              table-after p k.state (pos 0) (queue_in_packet endpoint buf (length buf) p)
                (queue_in_packet-KeepsTable endpoint buf (length buf) p) k.returns in
            record {
              valid = kept.valid;
              same_table = kept.same_table ∙ table;
              moved = λ g.
                  let pending : tally g (pending_of k.state) ≡ tally g (pending_of p) =
                    ap (λ n. tally g (if n == 0 then [] else n ∷ [])) k.same_pending in
                  let order : tally g (queued k.state)
                      ≡ tally g (queued p) + tally g (endpoint ∷ []) =
                    ap (tally g) k.order ∙ tally-append g (queued p) (endpoint ∷ []) in
                  omega (arith, kept.moved g, pending, order);
            }
      ]

  -- The packet that the firmware has taken is neither queued nor pending any more.
  pub record Takes (p q : Proxy) : Type 0 where
    pub valid : IsQueue q
    pub same_table : q.usb_to_serial ≡ p.usb_to_serial
    pub moved :
        (f : ℕ → Bool)
        → tally f (p.in_pending ∷ []) + tally f (queued q) + tally f (pending_of q)
          ≡ tally f (queued p) + tally f (pending_of p)

  pub acknowledged-Takes :
      (p q : Proxy)
      → IsQueue p
      → 0 < p.in_pending
      → acknowledged answer p ≡ some (q, pos 0)
      → Takes p q
  unfolding acknowledged
  acknowledged-Takes p q v h e =
      let pending : ltb 0 p.in_pending ≡ true = ground arith in
      let given : (p.in_pending == 0) ≡ false = ground arith in
      let released : Proxy = record p { log = p.log ++ (poll p.in_pending ∷ []); in_pending = 0 } in
      let valid : IsQueue released = record {
        packets = v.packets;
        fifo = v.fifo;
        count = v.count;
        numbers = v.numbers;
        payloads = v.payloads;
      } in
      elim (Bool-cases (is_minus_one (answer p.log (poll p.in_pending)))) [
        | inl lost ↦
            let run = rw (pending, lost) at e in
            let zero_ret = option_second run in
            let bad : is_minus_one (pos 0) ≡ true = ap is_minus_one (sym zero_ret) ∙ lost in
            absurd cc
        | inr polled ↦
            let run : send_next_in_packet answer released ≡ some (q, pos 0) =
              rw (pending, polled) at e in
            let kept = send_next_in_packet-KeepsQueue released q valid run in
            record {
              valid = kept.valid;
              same_table = kept.same_table;
              moved = λ g. rw given (omega (arith, kept.moved g));
            }
      ]

  -- With no packet pending an acknowledgement changes nothing.
  pub acknowledged-idle :
      (p q : Proxy) → p.in_pending ≡ 0 → acknowledged answer p ≡ some (q, pos 0) → p ≡ q
  unfolding acknowledged
  acknowledged-idle p q z e =
      let idle_now : ltb 0 p.in_pending ≡ false = ground arith in option_first (rw idle_now at e)
