-- ===== src/Common/Bytes.antt =====
-- Buffers of bytes: what a copy leaves, and the two bytes of a little-endian 16-bit number.
use serialusb.Common.{
  sym, ap, ◌∙◌, append_assoc, ℕ, zero, suc, ◌+◌, ◌*◌, ◌/◌, ◌%◌, ◌≤◌, ◌<◌, ◌≡◌, refl, List, [], ◌∷◌,
  ◌++◌, arith, length, take, drop, write_at, get_or, length-append, length-take, length-drop,
  take-append,
}

module _ {ℓ} {A : Type ℓ} (i : ℕ) (bs xs : List A) (fits : i + length bs ≤ length xs) where
  pub length-write_at : length (write_at i bs xs) ≡ length xs
  length-write_at = omega (
    arith,
    length-append (take i xs ++ bs) (drop (i + length bs) xs),
    length-append (take i xs) bs,
    length-take i xs,
    length-drop (i + length bs) xs,
  )

  -- The buffer up to the end of the copy is what it held before the copy, then the copy.
  pub take-write_at : take (i + length bs) (write_at i bs xs) ≡ take i xs ++ bs
  take-write_at =
      take-append (take i xs ++ bs) (drop (i + length bs) xs) (i + length bs)
        (omega (arith, length-append (take i xs) bs, length-take i xs))

drop-nil {ℓ} : {A : Type ℓ} (n : ℕ) → drop {A = A} n [] ≡ []
drop-nil zero = refl
drop-nil (suc n) = refl

module _ {ℓ} {A : Type ℓ} where
  drop-append_more : (xs ys : List A) (n k : ℕ) → n ≡ length xs + k → drop n (xs ++ ys) ≡ drop k ys
  drop-append_more [] ys n k e = ap (λ m. drop m ys) (omega arith)
  drop-append_more (x ∷ xs) ys zero k e = absurd (omega arith)
  drop-append_more (x ∷ xs) ys (suc n) k e = drop-append_more xs ys n k (omega arith)

  drop-drop : (xs : List A) (n k m : ℕ) → m ≡ n + k → drop k (drop n xs) ≡ drop m xs
  drop-drop xs zero k m e = ap (λ j. drop j xs) (omega arith)
  drop-drop [] (suc n) k m e = drop-nil k ∙ sym (drop-nil m)
  drop-drop (x ∷ xs) (suc n) k zero e = absurd (omega arith)
  drop-drop (x ∷ xs) (suc n) k (suc m) e = drop-drop xs n k m (omega arith)

  -- Two copies, the second behind the first, are one copy.
  pub write_at-write_at :
      (i j : ℕ) (a b xs : List A)
      → j ≡ i + length a
      → i + length a ≤ length xs
      → write_at j b (write_at i a xs) ≡ write_at i (a ++ b) xs
  write_at-write_at i j a b xs e fits =
      let head = take i xs ++ a in
      let n : length head ≡ j = omega (arith, length-append (take i xs) a, length-take i xs) in
      rw (
        take-append head (drop (i + length a) xs) j n,
        drop-append_more head (drop (i + length a) xs) (j + length b) (length b) (omega arith),
        drop-drop xs (i + length a) (length b) (i + length (a ++ b))
            (omega (arith, length-append a b)),
        append_assoc (take i xs) a b,
      )

-- An element before the cut is that of the cut list.
pub get_or-take {ℓ} :
    {A : Type ℓ} (xs : List A) (n i : ℕ) (d : A) → i < n → get_or (take n xs) i d ≡ get_or xs i d
get_or-take xs zero i d h = absurd (omega arith)
get_or-take [] (suc n) i d h = refl
get_or-take (x ∷ xs) (suc n) zero d h = refl
get_or-take (x ∷ xs) (suc n) (suc i) d h = get_or-take xs n i d (omega arith)

-- The bytes of a `uint16_t`, in the order in which both processors store them.
abbrev pub le16 : ℕ → List ℕ
le16 n = n % 256 ∷ n / 256 % 256 ∷ []

abbrev pub from_le16 : ℕ → ℕ → ℕ
from_le16 lo hi = lo + 256 * hi

pub from_le16-le16 : (n : ℕ) → n < 65536 → from_le16 (n % 256) (n / 256 % 256) ≡ n
from_le16-le16 n h = omega arith
