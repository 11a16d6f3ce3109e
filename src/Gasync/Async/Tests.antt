-- ===== src/Gasync/Async/Tests.antt =====
-- A table with one device, and files whose reads give one byte, at once or after some idle rounds.
use serialusb.Common.{
  arith, ℕ, ◌≤◌, ◌<◌, ◌≡◌, ◌-◌, ◌==◌, ◌||◌, if◌then◌else◌, none, false, inl, inr, Bool-cases, refl,
  List, [], ◌∷◌, some, true, length, replicate, All-replicate,
}
use serialusb.Common.Int.{pos, is_neg, to_nat}
use serialusb.Gasync.Async.{Device, Files, no_device, read_loop, async_set_read_size}
use serialusb.Gasync.Async.Reading.{
  IsDevices, Ended, round_end, round_gives, async_set_read_size-IsDevices, read_loop-Ended,
}

abbrev files : Files ℕ
files = record {
  W = ℕ;
  open_file = λ path w. (w, pos 5);
  close_file = λ fd w. w;
  allocate = λ w. (w, true);
  read = λ fd n w. (w, some (7 ∷ []));
  write = λ fd bs w. (w, pos (length bs));
  select = λ fd w. (w, pos 1, true);
  register = λ fd i w. (w, pos 0);
  call = λ cb user bs status w. (w, pos 0);
  call_close = λ cb user w. (w, pos 1);
}

abbrev devices : List (Device ℕ)
devices = record no_device { fd = pos 5 } ∷ replicate 255 no_device

devices-IsDevices : IsDevices devices
devices-IsDevices = record {
  size = refl;
  fits = (
    omega arith,
    All-replicate (λ (d : Device ℕ). d.read_count ≤ d.read_size) 255 no_device (omega arith),
  );
}

async_set_read_size-IsDevices_example : IsDevices (async_set_read_size files devices (pos 0) 2 0).0
async_set_read_size-IsDevices_example =
    async_set_read_size-IsDevices files devices (pos 0) 2 0 devices-IsDevices

-- The state is the number of idle rounds that are still to come: in these, `select` reports the
-- descriptor, but the read fails.
abbrev slow : Files ℕ
slow = record files { read = λ fd n w. if w == 0 then (w, some (7 ∷ [])) else (w - 1, none) }

slow-within : (n w : ℕ) (bs : List ℕ) → 0 < n → (slow.read (pos 5) n w).1 ≡ some bs → length bs ≤ n
slow-within n w bs h e = elim (Bool-cases (w == 0)) [
  | inl now ↦
      let one : some (7 ∷ []) ≡ some bs = rw now at e in
      let same : (7 ∷ []) ≡ bs = cc in rw (← same) (omega arith)
  | inr later ↦ let bad = rw later at e in absurd cc
]

slow-waits : (n w : ℕ) → 0 < n → round_end slow (pos 5) n w ≤ w
slow-waits n w h = elim (Bool-cases (w == 0)) [
  | inl now ↦ rw now (omega arith)
  | inr later ↦ rw later (omega arith)
]

slow-uses :
    (n w : ℕ)
    → 0 < n
    → (is_neg (pos 1) || (to_nat (pos 1) == 0)) ≡ false
    → round_gives slow (pos 5) n w ≡ false
    → round_end slow (pos 5) n w < w
slow-uses n w h r e = elim (Bool-cases (w == 0)) [
  | inl now ↦ let bad = rw now at e in absurd cc
  | inr later ↦ rw later (ground arith)
]

read_loop-Ended_example : Ended slow 3 (read_loop slow 6 (pos 5) 3 [] 2)
read_loop-Ended_example =
    read_loop-Ended slow (pos 5) (λ w. w) slow-within slow-waits slow-uses 6 3 [] 2 (omega arith)
      (omega arith)
