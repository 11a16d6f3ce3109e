-- ===== src/Proxy/Run/Steps.antt =====
-- The parts of `proxy_start`: the runs of its loop, and what the sending of the descriptors requests.
use serialusb.Common.{
  ℕ, zero, suc, ◌+◌, ◌≤◌, ◌≡◌, refl, sym, ap, inl, inr, Bool, true, false, some, List, [], ◌∷◌,
  ◌++◌, if◌then◌else◌, Bool-cases, arith, ltb, leb, ◌||◌, length,
}
use serialusb.Common.Int.{ℤ, pos, minus_one, is_neg}
use serialusb.Protocol.{e_type_descriptors, max_descriptors, max_descriptors_size}
use serialusb.Proxy.State.{Proxy, Request, send}
use serialusb.Proxy.Descriptors.{
  DeviceDescriptors, entries, add_descriptor, add_all, send_descriptors,
}
use serialusb.Gasync.Usb.{Descriptor}
use serialusb.Proxy.Run.{Events, run_loop}

-- The loop, from a state to the one in which it ends: the number of calls of `gpoll`.
pub data Runs (events : Events) : ℕ → Proxy → Proxy → Type 0 where
  ended : (p : Proxy) → p.done ≡ true → Runs events 0 p p
  turn :
      (n : ℕ) (p q r : Proxy)
      → p.done ≡ false
      → events.gpoll p ≡ some q
      → Runs events n q r
      → Runs events (suc n) p r

module _ (events : Events) where
  pub run_loop-Runs :
      (answer : List Request → Request → ℤ) (fuel n : ℕ) (p q : Proxy)
      → n ≤ fuel
      → Runs events n p q
      → run_loop answer events fuel p ≡ some q
  unfolding run_loop
  run_loop-Runs answer zero n p q h (ended _ e) = rw e refl
  run_loop-Runs answer (suc fuel) n p q h (ended _ e) = rw e refl
  run_loop-Runs answer zero n p q h (turn m _ s _ e f rest) = absurd (omega arith)
  run_loop-Runs answer (suc fuel) n p q h (turn m _ s _ e f rest) =
      rw (f, e) (run_loop-Runs answer fuel m s q (omega arith) rest)

-- The table of descriptors is filled before any request.
add_all-log : (ds : List Descriptor) (p : Proxy) → (add_all ds p).0.log ≡ p.log
unfolding add_all add_descriptor
add_all-log [] p = refl
add_all-log (d ∷ ds) p =
    elim (Bool-cases (
      ltb max_descriptors_size (length p.desc + length d.bytes)
      || leb max_descriptors (length p.desc_index))) [
        | inl full ↦ rw (add_all, full) refl
        | inr room ↦ rw (add_all, room) (add_all-log ds _)
      ]

module _ (answer : List Request → Request → ℤ) where
  pub data Sent (d : DeviceDescriptors) (p : Proxy) : Proxy × ℤ → Type 0 where
    no_room :
        {out : Proxy × ℤ} (q : Proxy)
        → out ≡ (q, minus_one)
        → q.log ≡ p.log
        → is_neg (add_all (entries d) p).1 ≡ true
        → Sent d p out
    requested :
        {out : Proxy × ℤ} (q : Proxy) (bytes : List ℕ) (b : Bool)
        → out ≡ (q, if b then minus_one else pos 0)
        → q.log ≡ p.log ++ (send e_type_descriptors bytes ∷ [])
        → is_neg (answer p.log (send e_type_descriptors bytes)) ≡ b
        → Sent d p out

  pub send_descriptors-Sent :
      (d : DeviceDescriptors) (p : Proxy) → Sent d p (send_descriptors answer d p)
  unfolding send_descriptors
  send_descriptors-Sent d p =
      let same = add_all-log (entries d) p in
      elim (Bool-cases (is_neg (add_all (entries d) p).1)) [
        | inl bad ↦ rw bad (no_room _ refl same bad)
        | inr good ↦ rw good (
            requested _ (add_all (entries d) p).0.desc _ refl
              (ap (λ l. l ++ (send e_type_descriptors (add_all (entries d) p).0.desc ∷ [])) same)
              (ap (λ l. is_neg (answer l (send e_type_descriptors (add_all (entries d) p).0.desc)))
                (sym same)))
      ]
