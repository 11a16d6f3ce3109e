-- ===== src/Proxy/Run/Outcome.antt =====
-- The outcomes of `proxy_start`.
use serialusb.Common.{ℕ, ◌≡◌, true, false, Option, some, List, [], ◌∷◌, ◌++◌, take}
use serialusb.Common.Int.{ℤ, pos, minus_one, is_neg}
use serialusb.Protocol.{e_type_reset, e_type_descriptors}
use serialusb.Proxy.State.{
  Proxy, Request, send, close_timer, set_priority, open_adapter, start_timer, register_usb,
  close_usb,
}
use serialusb.Proxy.Descriptors.{DeviceDescriptors, entries, add_all}
use serialusb.Proxy.Run.{Events}
use serialusb.Proxy.Run.Steps.{Runs}

-- The requests of `proxy_start` before its loop, in order, and after it.
abbrev pub opening : List ℕ → List ℕ → List Request
opening port bytes =
    set_priority
    ∷ open_adapter port
    ∷ send e_type_descriptors bytes
    ∷ start_timer 1000000
    ∷ register_usb
    ∷ start_timer 10000
    ∷ []

abbrev pub closing : ℤ → Proxy → Proxy
closing timer m = record m {
  log = ((m.log ++ (close_timer timer ∷ [])) ++ (send e_type_reset [] ∷ [])) ++ (close_usb ∷ []);
}

module _ (answer : List Request → Request → ℤ) (events : Events) where
  -- The requests, made one after the other, all succeed.
  abbrev pub AllAnswered : List Request → List Request → Type 0
  AllAnswered log [] = Unit {0}
  AllAnswered log (r ∷ rs) = (is_neg (answer log r) ≡ false) × AllAnswered (log ++ (r ∷ [])) rs

  -- The requests succeed up to the last one, which fails.
  abbrev pub LastRefused : List Request → List Request → Type 0
  LastRefused log [] = ⊥
  LastRefused log (r ∷ []) = is_neg (answer log r) ≡ true
  LastRefused log (r ∷ rs) = (is_neg (answer log r) ≡ false) × LastRefused (log ++ (r ∷ [])) rs

  -- How `proxy_start` returns: -1 after the first of the requests before the loop that fails, or if
  -- there is no room for the descriptors; or after the loop and what follows it, 0 if the first timer
  -- is closed by then, or else -1, and the timer is closed.
  pub data Outcome (d : DeviceDescriptors) (p : Proxy) (port : List ℕ) (out : Option (Proxy × ℤ))
      : Type 0 where
    refused :
        (q : Proxy) (k : ℕ) (bytes : List ℕ)
        → out ≡ some (q, minus_one)
        → q.log ≡ p.log ++ take k (opening port bytes)
        → LastRefused p.log (take k (opening port bytes))
        → Outcome d p port out
    no_space :
        (q r : Proxy)
        → out ≡ some (q, minus_one)
        → q.log ≡ p.log ++ take 2 (opening port [])
        → AllAnswered p.log (take 2 (opening port []))
        → r.desc ≡ p.desc
        → r.desc_index ≡ p.desc_index
        → is_neg (add_all (entries d) r).1 ≡ true
        → Outcome d p port out
    finished :
        (n : ℕ) (b m s : Proxy) (timer : ℤ) (bytes : List ℕ)
        → out ≡ some (s, pos 0)
        → b.log ≡ p.log ++ opening port bytes
        → AllAnswered p.log (opening port bytes)
        → is_neg b.init_timer ≡ false
        → Runs events n b m
        → events.gusb_close (closing timer m) ≡ some s
        → is_neg s.init_timer ≡ true
        → Outcome d p port out
    expired :
        (n : ℕ) (b m s : Proxy) (timer : ℤ) (bytes : List ℕ)
        → out ≡ some (record s { log = s.log ++ (close_timer s.init_timer ∷ []) }, minus_one)
        → b.log ≡ p.log ++ opening port bytes
        → AllAnswered p.log (opening port bytes)
        → Runs events n b m
        → events.gusb_close (closing timer m) ≡ some s
        → is_neg s.init_timer ≡ false
        → Outcome d p port out
