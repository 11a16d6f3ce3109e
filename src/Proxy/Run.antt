-- ===== src/Proxy/Run.antt =====
-- `proxy_start` of sw/proxy.c: what it opens, its main loop, and what it closes. The variables `usb`
-- and `adapter` are not kept: there is one of each, so that the requests do not name it.
pub mod Steps
pub mod Outcome
mod Tests
use serialusb.Common.{
  ℕ, zero, suc, Bool, true, false, Option, none, some, List, [], ◌∷◌, ◌++◌, if◌then◌else◌, ◌>>=◌,
}
use serialusb.Common.Int.{ℤ, pos, minus_one, is_neg}
use serialusb.Protocol.{e_type_reset}
use serialusb.Proxy.State.{
  Proxy, Request, send, close_timer, set_priority, open_adapter, start_timer, register_usb,
  close_usb, request,
}
use serialusb.Proxy.Descriptors.{DeviceDescriptors, send_descriptors}

-- What calls back: one call of `gpoll`, and the events that `gusb_close` handles. Both may go wrong.
pub record Events : Type 0 where
  pub gpoll : Proxy → Option Proxy
  pub gusb_close : Proxy → Option Proxy

module _ (answer : List Request → Request → ℤ) (events : Events) where
  -- A call whose failure makes `proxy_start` return -1.
  abbrev pub attempt : Request → Proxy → (ℤ → Proxy → Option (Proxy × ℤ)) → Option (Proxy × ℤ)
  attempt r p then_do =
      let (q, ret) = request answer r p in if is_neg ret then some (q, minus_one) else then_do ret q

  -- `while (!done) gpoll();`, on fuel.
  unfoldable pub run_loop : ℕ → Proxy → Option Proxy
  run_loop zero p = if p.done then some p else none
  run_loop (suc fuel) p =
      let again = events.gpoll p >>= λ q. run_loop fuel q in if p.done then some p else again

  -- What follows the loop.
  unfoldable pub shut_down : ℤ → Proxy → Option (Proxy × ℤ)
  shut_down timer p =
      let q = (request answer (close_timer timer) p).0 in
      let r = (request answer (send e_type_reset []) q).0 in
      events.gusb_close (request answer close_usb r).0 >>= λ s.
      if is_neg s.init_timer
      then some (s, pos 0)
      else some ((request answer (close_timer s.init_timer) s).0, minus_one)

  -- From the start of `init_timer` on.
  unfoldable pub start_timers : ℕ → Proxy → Option (Proxy × ℤ)
  unfolding run_loop shut_down
  start_timers fuel p =
      let (q, timer) = request answer (start_timer 1000000) p in
      let r = record q { init_timer = timer } in
      if is_neg timer
      then some (r, minus_one)
      else attempt register_usb r (λ _ s.
        attempt (start_timer 10000) s
          (λ read_timer t. run_loop fuel t >>= λ m. shut_down read_timer m))

  unfoldable pub proxy_start : ℕ → List ℕ → DeviceDescriptors → Proxy → Option (Proxy × ℤ)
  unfolding start_timers send_descriptors
  proxy_start fuel port descriptors p = attempt set_priority p (λ _ q.
      attempt (open_adapter port) q (λ _ r.
        (let (s, ret) = send_descriptors answer descriptors r in
          if is_neg ret then some (s, minus_one) else start_timers fuel s)))
