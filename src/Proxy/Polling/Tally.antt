-- ===== src/Proxy/Polling/Tally.antt =====
-- How many elements of a list pass a test: what does not depend on their order.
use serialusb.Common.{
  ℕ, suc, ◌+◌, ◌≤◌, ◌≡◌, ◌≢◌, refl, ap, inl, inr, Bool, true, false, List, [], ◌∷◌, ◌++◌,
  if◌then◌else◌, ◌==◌, arith, Bool-cases, length,
}
use serialusb.Proxy.State.{addr_to_index}
use serialusb.Proxy.Fifo.Queue.{IsFresh}

abbrev pub tally : (ℕ → Bool) → List ℕ → ℕ
tally f [] = 0
tally f (x ∷ xs) = if f x then suc (tally f xs) else tally f xs

pub tally-append : (f : ℕ → Bool) (xs ys : List ℕ) → tally f (xs ++ ys) ≡ tally f xs + tally f ys
tally-append f [] ys = omega arith
tally-append f (x ∷ xs) ys = elim (Bool-cases (f x)) [
  | inl e ↦ rw e (omega (arith, tally-append f xs ys))
  | inr e ↦ rw e (tally-append f xs ys)
]

-- An element in the middle counts as one in front.
pub tally-middle :
    (f : ℕ → Bool) (xs ys : List ℕ) (x : ℕ) → tally f (xs ++ (x ∷ ys)) ≡ tally f (x ∷ (xs ++ ys))
tally-middle f [] ys x = refl
tally-middle f (z ∷ xs) ys x = elim (Bool-cases (f z)) [
  | inl e ↦ elim (Bool-cases (f x)) [
    | inl g ↦ rw (e, tally-middle f xs ys x, g) refl
    | inr g ↦ rw (e, tally-middle f xs ys x, g) refl
  ]
  | inr e ↦ elim (Bool-cases (f x)) [
    | inl g ↦ rw (e, tally-middle f xs ys x, g) refl
    | inr g ↦ rw (e, tally-middle f xs ys x, g) refl
  ]
]

pub tally-length : (xs : List ℕ) → tally (λ x. true) xs ≡ length xs
tally-length [] = refl
tally-length (x ∷ xs) = ap suc (tally-length xs)

-- A test that no element passes.
pub tally-none : (f : ℕ → Bool) (x : ℕ) (xs : List ℕ) → tally f (x ∷ xs) ≤ 0 → f x ≡ false
tally-none f x xs h = elim (Bool-cases (f x)) [
  | inl e ↦ let bad = rw e at h in absurd (omega arith)
  | inr e ↦ e
]

abbrev pub has_index : ℕ → ℕ → Bool
has_index k e = addr_to_index e == k

pub tally-IsFresh :
    (endpoint : ℕ) (xs : List ℕ)
    → tally (has_index (addr_to_index endpoint)) xs ≤ 0
    → IsFresh endpoint xs
tally-IsFresh endpoint [] h = tt
tally-IsFresh endpoint (x ∷ xs) h =
    let other = tally-none (has_index (addr_to_index endpoint)) x xs h in
    let differs : addr_to_index x ≢ addr_to_index endpoint = λ e. absurd (ground arith) in
    (differs, tally-IsFresh endpoint xs (rw other at h))

pub tally-yes :
    (f : ℕ → Bool) (x : ℕ) (xs : List ℕ) → f x ≡ true → tally f (x ∷ xs) ≡ suc (tally f xs)
tally-yes f x xs e = rw e refl

pub tally-fewer : (f : ℕ → Bool) (x : ℕ) (xs : List ℕ) → tally f xs ≤ tally f (x ∷ xs)
tally-fewer f x xs = elim (Bool-cases (f x)) [
  | inl e ↦ rw e (omega arith)
  | inr e ↦ rw e (omega arith)
]

pub tally-one :
    (f : ℕ → Bool) (x : ℕ) (xs : List ℕ) → tally f (x ∷ xs) ≡ tally f (x ∷ []) + tally f xs
tally-one f x xs = elim (Bool-cases (f x)) [
  | inl e ↦ rw e (omega arith)
  | inr e ↦ rw e (omega arith)
]
