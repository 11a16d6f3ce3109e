-- ===== src/Proxy/Fifo/Queue.antt =====
-- What the queue of IN packets holds, and the list operations that it is made of.
use serialusb.Common.{
  ℕ, zero, suc, ◌%◌, ◌≤◌, ◌<◌, ◌≡◌, ◌≢◌, refl, sym, ap, ap₂, List, [], ◌∷◌, ◌++◌, map, arith,
  length, get_or, get_elem?, drop, length-drop, some, ◌-◌, set, take, write_at, take-append,
  length-take, get_or-set_ne, All,
}
use serialusb.Common.Bytes.{length-write_at}
use serialusb.Protocol.{max_endpoints, max_payload_size_ep}
use serialusb.Proxy.State.{Proxy, InPacket, addr_to_index}
use serialusb.Proxy.Fifo.{packet_value}

abbrev pub no_packet : InPacket
no_packet = record { size = 0; endpoint = 0; payload = [] }

-- The queued endpoints, oldest first, and the bytes that are to be sent for each.
abbrev pub queued : Proxy → List ℕ
queued p = take p.nb_in_ep_fifo p.in_ep_fifo

abbrev pub value_of : List InPacket → ℕ → List ℕ
value_of ks endpoint = packet_value (get_or ks (addr_to_index endpoint) no_packet)

abbrev pub values : Proxy → List (List ℕ)
values p = map (value_of p.in_packets) (queued p)

abbrev pub HasNumber : ℕ → Type 0
HasNumber endpoint = endpoint % 16 ≢ 0

-- The packet of the endpoint is not queued.
abbrev pub IsFresh : ℕ → List ℕ → Type 0
IsFresh endpoint = All λ e. addr_to_index e ≢ addr_to_index endpoint

pub record IsQueue (p : Proxy) : Type 0 where
  pub packets : length p.in_packets ≡ 15
  pub fifo : length p.in_ep_fifo ≡ max_endpoints
  pub count : p.nb_in_ep_fifo ≤ max_endpoints
  pub numbers : All HasNumber (queued p)
  pub payloads : All (λ k. length k.payload ≡ max_payload_size_ep) p.in_packets

module _ {ℓ} {A : Type ℓ} where
  pub take-set :
      (xs : List A) (n : ℕ) (v : A)
      → n < length xs
      → take (suc n) (set xs n v) ≡ take n xs ++ (v ∷ [])
  take-set [] n v h = absurd (omega arith)
  take-set (x ∷ xs) zero v h = refl
  take-set (x ∷ xs) (suc n) v h = ap (λ r. x ∷ r) (take-set xs n v (omega arith))

  -- The first element, and the others of the first `n`.
  pub take-first :
      (xs : List A) (n : ℕ)
      → 0 < n
      → n ≤ length xs
      → (x : A) × (get_elem? xs 0 ≡ some x) × (take n xs ≡ x ∷ take (n - 1) (drop 1 xs))
  take-first [] n h k = absurd (omega arith)
  take-first (x ∷ xs) zero h k = absurd (omega arith)
  take-first (x ∷ xs) (suc n) h k = (x, refl, ap (λ m. x ∷ take m xs) (omega arith))

  -- `memmove(xs, xs + 1, n)` brings the others to the front.
  pub take-moved :
      (xs : List A) (n : ℕ)
      → n < length xs
      → take n (write_at 0 (take n (drop 1 xs)) xs) ≡ take n (drop 1 xs)
  take-moved xs n h =
      take-append (take n (drop 1 xs)) _ n
        (omega (arith, length-take n (drop 1 xs), length-drop 1 xs))

  pub length-moved :
      (xs : List A) (n : ℕ)
      → n < length xs
      → length (write_at 0 (take n (drop 1 xs)) xs) ≡ length xs
  length-moved xs n h =
      length-write_at 0 (take n (drop 1 xs)) xs
        (omega (arith, length-take n (drop 1 xs), length-drop 1 xs))

pub map-append_one {ℓ κ} :
    {A : Type ℓ} {B : Type κ} (f : A → B) (xs : List A) (x : A)
    → map f (xs ++ (x ∷ [])) ≡ map f xs ++ (f x ∷ [])
map-append_one f [] x = refl
map-append_one f (y ∷ xs) x = ap (λ r. f y ∷ r) (map-append_one f xs x)

-- Storing a fresh endpoint's packet changes no queued one.
pub values-set :
    (ks : List InPacket) (k : InPacket) (endpoint : ℕ) (q : List ℕ)
    → IsFresh endpoint q
    → map (value_of (set ks (addr_to_index endpoint) k)) q ≡ map (value_of ks) q
values-set ks k endpoint [] h = refl
values-set ks k endpoint (e ∷ q) h =
    ap₂ ◌∷◌
      (ap packet_value (
        get_or-set_ne ks (addr_to_index endpoint) (addr_to_index e) k no_packet
          (λ eq. h.0 (sym eq))))
      (values-set ks k endpoint q h.1)
