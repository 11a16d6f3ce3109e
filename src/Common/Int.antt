-- ===== src/Common/Int.antt =====
-- The C `int`s that the functions return or take: signed, and never near the ends of their range.
use serialusb.Common.{ℕ, zero, suc, Bool, true, false, ◌==◌}

-- `negsuc n` is -(n + 1).
pub data ℤ : Type 0 where
  pos : ℕ → ℤ
  negsuc : ℕ → ℤ

-- The value -1 of a failed call.
abbrev pub minus_one : ℤ
minus_one = negsuc 0

-- n < 0
abbrev pub is_neg : ℤ → Bool
is_neg (pos n) = false
is_neg (negsuc n) = true

abbrev pub to_nat : ℤ → ℕ
to_nat (pos n) = n
to_nat (negsuc n) = 0

-- n == -1
abbrev pub is_minus_one : ℤ → Bool
is_minus_one (pos n) = false
is_minus_one (negsuc n) = n == 0

-- n != 0
abbrev pub is_nonzero : ℤ → Bool
is_nonzero (pos zero) = false
is_nonzero _ = true

-- n + 1
abbrev pub increment : ℤ → ℤ
increment (pos n) = pos (suc n)
increment (negsuc zero) = pos 0
increment (negsuc (suc n)) = negsuc n

-- n - 1
abbrev pub decrement : ℤ → ℤ
decrement (pos zero) = minus_one
decrement (pos (suc n)) = pos n
decrement (negsuc n) = negsuc (suc n)
