-- ===== src/Proxy/Polling.antt =====
-- The reads of the IN endpoints and the queue of IN packets of sw/proxy.c as one system of steps:
-- reads that end, and acknowledgements of the firmware, after which an endpoint is read again.
pub mod Tally
pub mod Table
pub mod Keeping
pub mod Reachable
mod Tests
use serialusb.Common.{
  ℕ, ◌<◌, ◌≤◌, ◌≡◌, Option, some, List, [], ◌∷◌, ◌++◌, if◌then◌else◌, ◌==◌, length,
}
use serialusb.Common.Int.{ℤ, pos, negsuc}
use serialusb.Protocol.{max_payload_size_ep}
use serialusb.Proxy.State.{Proxy, Request}
use serialusb.Proxy.Callbacks.{in_data}
use serialusb.Proxy.Dispatch.{acknowledged}

-- The endpoints whose reads have been submitted and have not ended, and the proxy.
pub record Reading : Type 0 where
  pub outstanding : List ℕ
  pub proxy : Proxy

-- The end of a read, with data, or without data and not read again; and an acknowledgement, after
-- which the pending endpoint is read again. Only calls that succeed are steps: a failure ends the proxy.
pub data Step (answer : List Request → Request → ℤ) : Reading → Reading → Type 0 where
  data_read :
      (before after : List ℕ) (endpoint : ℕ) (buf : List ℕ) (p q : Proxy)
      → length buf ≤ max_payload_size_ep
      → in_data answer endpoint buf (pos (length buf)) p ≡ some (q, pos 0)
      → Step answer
          (record { outstanding = before ++ (endpoint ∷ after); proxy = p })
          (record { outstanding = before ++ after; proxy = q })
  read_ended :
      (before after : List ℕ) (endpoint n : ℕ) (buf : List ℕ) (p q : Proxy)
      → in_data answer endpoint buf (negsuc n) p ≡ some (q, pos 0)
      → Step answer
          (record { outstanding = before ++ (endpoint ∷ after); proxy = p })
          (record { outstanding = before ++ after; proxy = q })
  taken :
      (outstanding : List ℕ) (p q : Proxy)
      → 0 < p.in_pending
      → acknowledged answer p ≡ some (q, pos 0)
      → Step answer
          (record { outstanding = outstanding; proxy = p })
          (record { outstanding = p.in_pending ∷ outstanding; proxy = q })
  taken_idle :
      (outstanding : List ℕ) (p q : Proxy)
      → p.in_pending ≡ 0
      → acknowledged answer p ≡ some (q, pos 0)
      → Step answer
          (record { outstanding = outstanding; proxy = p })
          (record { outstanding = outstanding; proxy = q })

-- Any number of steps.
pub data Steps (answer : List Request → Request → ℤ) : Reading → Reading → Type 0 where
  stay : (r : Reading) → Steps answer r r
  step : (r s t : Reading) → Steps answer r s → Step answer s t → Steps answer r t
