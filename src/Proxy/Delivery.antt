-- ===== src/Proxy/Delivery.antt =====
-- The IN data path of sw/proxy.c as a whole: `usb_read_callback` takes data from the device, and the
-- acknowledgement of the firmware (`process_packet`, E_TYPE_IN) sends the next packet.
use serialusb.Common.{
  ℕ, ◌≤◌, ◌≡◌, ◌≢◌, refl, sym, ap, ◌∙◌, inl, inr, ◌⊎◌, List, [], ◌∷◌, ◌++◌, arith, length,
  append_assoc, append-nil, Option, some, Bool-cases, ltb, ◌==◌, true, false, if◌then◌else◌,
}
use serialusb.Common.Int.{ℤ, pos, negsuc, minus_one, is_neg, is_minus_one}
use serialusb.Protocol.{max_endpoints, max_payload_size_ep, e_type_in}
use serialusb.Proxy.State.{
  Proxy, Request, send, poll, write, close_timer, set_priority, open_adapter, start_timer,
  register_usb, close_usb, read_table,
}
use serialusb.Proxy.Fifo.{send_next_in_packet}
use serialusb.Proxy.Fifo.Queue.{queued, values, HasNumber, IsFresh, IsQueue}
use serialusb.Proxy.Fifo.Order.{queue_in_packet-Queued}
use serialusb.Proxy.Fifo.Sending.{Next, busy, idle, sent, failed, send_next_in_packet-Next}
use serialusb.Proxy.Callbacks.{in_data}
use serialusb.Proxy.Dispatch.{acknowledged}

-- The IN packets among the requests, oldest first.
abbrev pub sent_values : List Request → List (List ℕ)
sent_values [] = []
sent_values (send type v ∷ rs) = if type == e_type_in then v ∷ sent_values rs else sent_values rs
sent_values (poll e ∷ rs) = sent_values rs
sent_values (write e v n ∷ rs) = sent_values rs
sent_values (close_timer t ∷ rs) = sent_values rs
sent_values (set_priority ∷ rs) = sent_values rs
sent_values (open_adapter port ∷ rs) = sent_values rs
sent_values (start_timer usec ∷ rs) = sent_values rs
sent_values (register_usb ∷ rs) = sent_values rs
sent_values (close_usb ∷ rs) = sent_values rs

-- What has been sent, then what is still queued.
abbrev pub line : Proxy → List (List ℕ)
line p = sent_values p.log ++ values p

sent_values-append :
    (rs qs : List Request) → sent_values (rs ++ qs) ≡ sent_values rs ++ sent_values qs
sent_values-append [] qs = refl
sent_values-append (send type v ∷ rs) qs = elim (Bool-cases (type == e_type_in)) [
  | inl e ↦ rw e (ap (λ r. v ∷ r) (sent_values-append rs qs))
  | inr e ↦ rw e (sent_values-append rs qs)
]
sent_values-append (poll e ∷ rs) qs = sent_values-append rs qs
sent_values-append (write e v n ∷ rs) qs = sent_values-append rs qs
sent_values-append (close_timer t ∷ rs) qs = sent_values-append rs qs
sent_values-append (set_priority ∷ rs) qs = sent_values-append rs qs
sent_values-append (open_adapter port ∷ rs) qs = sent_values-append rs qs
sent_values-append (start_timer usec ∷ rs) qs = sent_values-append rs qs
sent_values-append (register_usb ∷ rs) qs = sent_values-append rs qs
sent_values-append (close_usb ∷ rs) qs = sent_values-append rs qs

abbrev pub Kept : Proxy → List (List ℕ) → Proxy → Type 0
Kept p more state = (line state ≡ line p ++ more) × IsQueue state

is_minus_one-neg : (ret : ℤ) → is_minus_one ret ≡ true → is_neg ret ≡ true
is_minus_one-neg (pos n) e = cc
is_minus_one-neg (negsuc n) e = refl

module _ (answer : List Request → Request → ℤ) where
  -- Some request has failed.
  abbrev pub Refused : Type 0
  Refused = (log : List Request) × (r : Request) × (is_neg (answer log r) ≡ true)

  -- The call succeeds, and the line is extended; or it fails, since a request has failed.
  pub data Extended (p : Proxy) (more : List (List ℕ)) (out : Option (Proxy × ℤ)) : Type 0 where
    extended : (state : Proxy) → out ≡ some (state, pos 0) → Kept p more state → Extended p more out
    broken :
        (state : Proxy) (ret : ℤ)
        → out ≡ some (state, ret)
        → is_neg ret ≡ true
        → Refused
        → Extended p more out

  -- An attempt to send moves at most the boundary between sent and queued, unless it fails.
  sending-Extended :
      (p : Proxy)
      → IsQueue p
      → Next answer p (send_next_in_packet answer p)
      → ((state : Proxy) × (send_next_in_packet answer p ≡ some (state, pos 0))
          × (line state ≡ line p)
          × IsQueue state)
        ⊎ (((state : Proxy) × (send_next_in_packet answer p ≡ some (state, minus_one))) × Refused)
  sending-Extended p v (busy _ e) = inl (p, e, refl, v)
  sending-Extended p v (idle _ _ e) = inl (p, e, refl, v)
  sending-Extended p v (sent endpoint bytes q _ e _ s) = inl (
    q,
    e,
    rw (s.logged, s.front_value, sent_values-append)
        (append_assoc (sent_values p.log) (bytes ∷ []) (values q)),
    s.valid,
  )
  sending-Extended p v (failed endpoint bytes rest _ _ bad e) =
      inr ((_, e), (p.log, send e_type_in bytes, bad))

  module _ (p : Proxy) (v : IsQueue p) where
    -- In a valid queue with room, data of at most 64 bytes of an endpoint that has a number, a serial
    -- endpoint and no packet in the queue joins the end of the line of packets, behind its serial
    -- endpoint, and the queue stays valid; `in_data` fails only if a request has failed.
    pub in_data-Extended :
        (endpoint : ℕ) (buf : List ℕ) (serial : ℕ)
        → HasNumber endpoint
        → length buf ≤ max_payload_size_ep
        → p.nb_in_ep_fifo ≢ max_endpoints
        → IsFresh endpoint (queued p)
        → read_table p.usb_to_serial endpoint ≡ some serial
        → Extended p ((serial ∷ buf) ∷ []) (in_data answer endpoint buf (pos (length buf)) p)
    unfolding in_data
    in_data-Extended endpoint buf serial number fits room fresh mapped =
        let q = queue_in_packet-Queued p endpoint buf v number fits room serial fresh mapped in
        let small : ltb max_payload_size_ep (length buf) ≡ false = ground arith in
        let joins : line q.state ≡ line p ++ ((serial ∷ buf) ∷ []) =
          rw (q.same_log, q.appends)
            (sym (append_assoc (sent_values p.log) (values p) ((serial ∷ buf) ∷ []))) in
        rw (small, q.returns)
          (elim (sending-Extended q.state q.valid
            (send_next_in_packet-Next answer q.state q.valid)) [
              | inl (s, e, l, w) ↦ rw e (extended s refl (l ∙ joins, w))
              | inr ((s, e), r) ↦ rw e (broken _ minus_one refl refl r)
            ])

    -- The pending packet has been taken by the firmware, and its endpoint is polled again.
    abbrev released : Proxy
    released = record p { log = p.log ++ (poll p.in_pending ∷ []); in_pending = 0 }

    released-line : line released ≡ line p
    released-line = rw (sent_values-append, append-nil (sent_values p.log))

    released-IsQueue : IsQueue released
    released-IsQueue = record {
      packets = v.packets;
      fifo = v.fifo;
      count = v.count;
      numbers = v.numbers;
      payloads = v.payloads;
    }

    -- In a valid queue, an acknowledgement of the firmware leaves the line of packets as it is, those
    -- sent before those queued: none is lost, doubled or overtaken. It fails only if a request has
    -- failed.
    pub acknowledged-Extended : Extended p [] (acknowledged answer p)
    unfolding acknowledged
    acknowledged-Extended = elim (Bool-cases (ltb 0 p.in_pending)) [
      | inr none_pending ↦ rw none_pending (extended p refl (sym (append-nil (line p)), v))
      | inl pending ↦ elim (Bool-cases (is_minus_one (answer p.log (poll p.in_pending)))) [
        | inl lost ↦
            let bad = is_minus_one-neg (answer p.log (poll p.in_pending)) lost in
            rw (pending, lost) (broken _ _ refl bad (p.log, poll p.in_pending, bad))
        | inr polled ↦
            rw (pending, polled)
              (elim (sending-Extended released released-IsQueue
                (send_next_in_packet-Next answer released released-IsQueue)) [
                  | inl (s, e, l, x) ↦
                      rw e (extended s refl (l ∙ released-line ∙ sym (append-nil (line p)), x))
                  | inr ((s, e), r) ↦ rw e (broken s minus_one refl refl r)
                ])
      ]
    ]
