-- ===== src/Gasync/Timer.antt =====
-- timer/linux/gtimer.c of sw/lib/gasync: the table of timers. The calls of the system and of gpoll are
-- an interface.
pub mod Slots
use serialusb.Common.{
  ℕ, zero, suc, ◌+◌, ◌*◌, ◌/◌, ◌-◌, Bool, true, false, Option, none, some, List, [], ◌∷◌,
  if◌then◌else◌, leb, ◌==◌, not, get_or, set, replicate, ◌>>=◌,
}
use serialusb.Common.Int.{ℤ, pos, negsuc, minus_one, is_neg, is_minus_one, is_nonzero, to_nat}

abbrev pub max_timers : ℕ
max_timers = 32

-- An entry of `timers`; the callbacks are NULL before the first use.
pub record Timer (Cb : Type 0) : Type 0 where
  pub fd : ℤ
  pub user : ℤ
  pub fp_read : Option Cb
  pub fp_close : Option Cb

-- `timerfd_create`, `timerfd_settime` with the period in seconds and nanoseconds, `close`, `read` (its
-- result), the registration function, `gpoll_remove_fd`, and the call of a callback.
pub record System (Cb : Type 0) : Type 1 where
  pub W : Type 0
  pub timerfd_create : W → W × ℤ
  pub timerfd_settime : ℤ → ℕ → ℕ → W → W × ℤ
  pub close : ℤ → W → W
  pub read : ℤ → W → W × ℤ
  pub register : ℤ → ℕ → W → W × ℤ
  pub remove_fd : ℤ → W → W
  pub call : Cb → ℤ → W → W × ℤ

abbrev pub free_timer : {Cb : Type 0} → Timer Cb
free_timer = record { fd = minus_one; user = pos 0; fp_read = none; fp_close = none }

-- The entry after `memset`.
abbrev pub cleared_timer : {Cb : Type 0} → Timer Cb
cleared_timer = record { fd = pos 0; user = pos 0; fp_read = none; fp_close = none }

pub gtimer_init : (Cb : Type 0) → List (Timer Cb)
gtimer_init Cb = replicate 32 free_timer

module _ {Cb : Type 0} where
  abbrev pub timer_at : List (Timer Cb) → ℕ → Timer Cb
  timer_at t i = get_or t i free_timer

  -- CHECK_TIMER: whether the timer is valid.
  pub check_timer : List (Timer Cb) → ℤ → Bool
  check_timer t (negsuc n) = false
  check_timer t (pos i) = if leb max_timers i then false else not (is_neg (timer_at t i).fd)

  -- The first free entry from `i` on; `none` is the result -1.
  pub get_slot : ℕ → List (Timer Cb) → Option ℕ
  get_slot i [] = none
  get_slot i (x ∷ t) = let later = get_slot (i + 1) t in if is_minus_one x.fd then some i else later

module _ {Cb : Type 0} (sys : System Cb) where
  open sys use {W}

  -- `none` is a call through NULL.
  pub close_callback : List (Timer Cb) → ℕ → W → Option (W × ℤ)
  unfolding check_timer
  close_callback t i w =
      if check_timer t (pos i)
      then ((timer_at t i).fp_close >>= λ cb. some (sys.call cb (timer_at t i).user w))
      else some (w, minus_one)

  pub read_callback : List (Timer Cb) → ℕ → W → Option (W × ℤ)
  unfolding check_timer
  read_callback t i w =
      if check_timer t (pos i)
      then (let (w', res) = sys.read (timer_at t i).fd w in
          elim res [
            | negsuc n ↦ some (w', minus_one)
            | pos n ↦
                if n == 8
                then ((timer_at t i).fp_read >>= λ cb. some (sys.call cb (timer_at t i).user w'))
                else some (w', minus_one)
          ])
      else some (w, minus_one)

  -- The descriptor is there: it is set, registered, and entered in the slot.
  pub start_in : ℕ → ℤ → ℤ → ℕ → Cb → Cb → List (Timer Cb) → W → List (Timer Cb) × W × ℤ
  start_in slot tfd user usec fp_read fp_close t w =
      let (w1, ret) =
        sys.timerfd_settime tfd (usec / 1000000) ((usec - usec / 1000000 * 1000000) * 1000) w in
      let (w2, ret') = sys.register tfd slot w1 in
      if is_nonzero ret
      then (t, sys.close tfd w1, minus_one)
      else (if is_neg ret' then (t, sys.close tfd w2, minus_one) else (
        set t slot
            (record { fd = tfd; user = user; fp_read = some fp_read; fp_close = some fp_close }),
        w2,
        pos slot,
      ))

  pub gtimer_start : ℤ → ℕ → Cb → Cb → List (Timer Cb) → W → List (Timer Cb) × W × ℤ
  unfolding get_slot start_in
  gtimer_start user usec fp_read fp_close t w = elim (get_slot 0 t) [
    | none ↦ (t, w, minus_one)
    | some slot ↦
        let (w', tfd) = sys.timerfd_create w in
        if is_neg tfd then (t, w', minus_one) else start_in slot tfd user usec fp_read fp_close t w'
  ]

  pub gtimer_close : List (Timer Cb) → ℤ → W → List (Timer Cb) × W × ℤ
  unfolding check_timer
  gtimer_close t timer w =
      let fd = (timer_at t (to_nat timer)).fd in
      if check_timer t timer
      then (set t (to_nat timer) cleared_timer, sys.close fd (sys.remove_fd fd w), pos 1)
      else (t, w, minus_one)
