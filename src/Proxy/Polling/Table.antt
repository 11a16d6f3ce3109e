-- ===== src/Proxy/Polling/Table.antt =====
-- The table of endpoints after the calls of the IN path.
use serialusb.Common.{
  ℕ, ◌≡◌, refl, sym, ap, ◌∙◌, inl, inr, true, false, Option, some, none, List, ◌==◌, ltb,
  Bool-cases, Option-cases, get_elem?, leb,
}
use serialusb.Common.Int.{ℤ, pos, minus_one, is_neg}
use serialusb.Protocol.{max_endpoints, max_payload_size_ep, e_type_in}
use serialusb.Proxy.State.{Proxy, Request, send, read_table, addr_to_index}
use serialusb.Proxy.Fifo.{packet_value, send_first, send_next_in_packet, queue_in_packet}

-- Two results of one call.
pub same_result :
    {X : Type 0} (m : Option (X × ℤ)) (a b : X) (r s : ℤ)
    → m ≡ some (a, r)
    → m ≡ some (b, s)
    → (a ≡ b) × (r ≡ s)
same_result {X} m a b r s e f =
    let same : ◌≡◌ {A = X × ℤ} (a, r) (b, s) = cc in
    (ap (λ (x : X × ℤ). x.0) same, ap (λ (x : X × ℤ). x.1) same)

pub option_first :
    {X : Type 0} {a b : X} {r s : ℤ} → ◌≡◌ {A = Option (X × ℤ)} (some (a, r)) (some (b, s)) → a ≡ b
option_first {X} {a} {b} {r} {s} e = (same_result (some (a, r)) a b r s refl e).0

pub option_second :
    {X : Type 0} {a b : X} {r s : ℤ} → ◌≡◌ {A = Option (X × ℤ)} (some (a, r)) (some (b, s)) → r ≡ s
option_second {X} {a} {b} {r} {s} e = (same_result (some (a, r)) a b r s refl e).1

pub pos-minus_one : {n : ℕ} → pos n ≡ minus_one → true ≡ false
pos-minus_one e = cc

-- The table of endpoints after a call, if it returns.
pub data KeepsTable (p : Proxy) : Option (Proxy × ℤ) → Type 0 where
  no_table : {out : Option (Proxy × ℤ)} → out ≡ none → KeepsTable p out
  same_table :
      {out : Option (Proxy × ℤ)} (q : Proxy) (r : ℤ)
      → out ≡ some (q, r)
      → q.usb_to_serial ≡ p.usb_to_serial
      → KeepsTable p out

pub table-after :
    (p q : Proxy) (r : ℤ) (m : Option (Proxy × ℤ))
    → KeepsTable p m
    → m ≡ some (q, r)
    → q.usb_to_serial ≡ p.usb_to_serial
table-after p q r m (no_table e) f = let bad = sym e ∙ f in absurd cc
table-after p q r m (same_table a b e t) f =
    ap (λ (x : Proxy). x.usb_to_serial) (same_result m q a r b f e).0 ∙ t

pub queue_in_packet-KeepsTable :
    (endpoint : ℕ) (buf : List ℕ) (n : ℕ) (p : Proxy)
    → KeepsTable p (queue_in_packet endpoint buf n p)
unfolding queue_in_packet
queue_in_packet-KeepsTable endpoint buf n p = elim (Bool-cases (p.nb_in_ep_fifo == max_endpoints)) [
  | inl full ↦ rw full (same_table p minus_one refl refl)
  | inr room ↦ rw room (elim (Option-cases (get_elem? p.in_packets (addr_to_index endpoint))) [
    | inl e ↦ rw e (no_table refl)
    | inr (k, e) ↦ rw e (elim (Option-cases (read_table p.usb_to_serial endpoint)) [
      | inl f ↦ rw f (no_table refl)
      | inr (serial, f) ↦ rw f (elim (Bool-cases (leb n max_payload_size_ep)) [
        | inl fits ↦ rw fits (same_table _ (pos 0) refl refl)
        | inr long ↦ rw long (no_table refl)
      ])
    ])
  ])
]

module _ (answer : List Request → Request → ℤ) where
  pub send_next_in_packet-KeepsTable : (p : Proxy) → KeepsTable p (send_next_in_packet answer p)
  unfolding send_next_in_packet send_first
  send_next_in_packet-KeepsTable p = elim (Bool-cases (p.in_pending == 0)) [
    | inr waits ↦ rw waits (same_table p (pos 0) refl refl)
    | inl free ↦ rw free (elim (Bool-cases (ltb 0 p.nb_in_ep_fifo)) [
      | inr empty ↦ rw empty (same_table p (pos 0) refl refl)
      | inl filled ↦ rw filled (elim (Option-cases (get_elem? p.in_ep_fifo 0)) [
        | inl e ↦ rw (send_first, e) (no_table refl)
        | inr (x, e) ↦
            rw (send_first, e)
              (elim (Option-cases (get_elem? p.in_packets (addr_to_index x))) [
                | inl f ↦ rw f (no_table refl)
                | inr (k, f) ↦
                    rw f
                      (elim (Bool-cases (is_neg (answer p.log (send e_type_in (packet_value k))))) [
                        | inl bad ↦ rw bad (same_table _ minus_one refl refl)
                        | inr good ↦ rw good (same_table _ (pos 0) refl refl)
                      ])
              ])
      ])
    ])
  ]
