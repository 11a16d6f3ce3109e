-- ===== src/Gasync/Timer/Slots.antt =====
-- Which slots the timers take and leave.
use serialusb.Common.{
  ℕ, zero, suc, ◌+◌, ◌-◌, ◌*◌, ◌/◌, ◌<◌, ◌≡◌, refl, true, false, inl, inr, none, some, List, [],
  ◌∷◌, not, arith, Bool-cases, Option-cases, length, set, leb,
}
use serialusb.Common.Int.{ℤ, pos, negsuc, minus_one, is_neg, is_minus_one, is_nonzero, to_nat}
use serialusb.Gasync.Timer.{
  Timer, System, max_timers, cleared_timer, timer_at, check_timer, get_slot, start_in, gtimer_start,
  gtimer_close,
}

get_slot-some :
    {Cb : Type 0} (t : List (Timer Cb)) (k i : ℕ)
    → get_slot k t ≡ some i
    → (j : ℕ) × (i ≡ k + j) × (j < length t) × (is_minus_one (timer_at t j).fd ≡ true)
unfolding get_slot
get_slot-some [] k i e = cc
get_slot-some (x ∷ t) k i e = elim (Bool-cases (is_minus_one x.fd)) [
  | inl free ↦ (0, ground arith, omega arith, free)
  | inr taken ↦
      let (j, p, q, r) = get_slot-some t (k + 1) i (ground arith) in
      (suc j, omega arith, omega arith, r)
]

get_slot-none :
    {Cb : Type 0} (t : List (Timer Cb)) (k j : ℕ)
    → get_slot k t ≡ none
    → j < length t
    → is_minus_one (timer_at t j).fd ≡ false
unfolding get_slot
get_slot-none [] k j e h = absurd (omega arith)
get_slot-none (x ∷ t) k zero e h = ground arith
get_slot-none (x ∷ t) k (suc j) e h = get_slot-none t (k + 1) j (ground arith) (omega arith)

module _ {Cb : Type 0} (sys : System Cb) where
  -- The three calls of the system, each after the one before it: the descriptor, its period in seconds
  -- and nanoseconds, and its registration for a slot.
  abbrev pub created : sys.W → sys.W × ℤ
  created w = sys.timerfd_create w

  abbrev pub scheduled : ℕ → sys.W → sys.W × ℤ
  scheduled usec w =
      sys.timerfd_settime (created w).1 (usec / 1000000) ((usec - usec / 1000000 * 1000000) * 1000)
        (created w).0

  abbrev pub registered : ℕ → ℕ → sys.W → sys.W × ℤ
  registered slot usec w = sys.register (created w).1 slot (scheduled usec w).0

  pub data Started (user : ℤ) (usec : ℕ) (fp_read fp_close : Cb) (t : List (Timer Cb)) (w : sys.W)
      : List (Timer Cb) × sys.W × ℤ → Type 0 where
    full :
        {out : List (Timer Cb) × sys.W × ℤ}
        → out ≡ (t, w, minus_one)
        → ((j : ℕ) → j < length t → is_minus_one (timer_at t j).fd ≡ false)
        → Started user usec fp_read fp_close t w out
    not_created :
        {out : List (Timer Cb) × sys.W × ℤ}
        → out ≡ (t, (created w).0, minus_one)
        → is_neg (created w).1 ≡ true
        → Started user usec fp_read fp_close t w out
    not_scheduled :
        {out : List (Timer Cb) × sys.W × ℤ}
        → out ≡ (t, sys.close (created w).1 (scheduled usec w).0, minus_one)
        → is_neg (created w).1 ≡ false
        → is_nonzero (scheduled usec w).1 ≡ true
        → Started user usec fp_read fp_close t w out
    not_registered :
        {out : List (Timer Cb) × sys.W × ℤ} (slot : ℕ)
        → out ≡ (t, sys.close (created w).1 (registered slot usec w).0, minus_one)
        → is_neg (created w).1 ≡ false
        → is_nonzero (scheduled usec w).1 ≡ false
        → is_neg (registered slot usec w).1 ≡ true
        → Started user usec fp_read fp_close t w out
    entered :
        {out : List (Timer Cb) × sys.W × ℤ} (slot : ℕ)
        → out ≡ (
          set t slot (record {
            fd = (created w).1;
            user = user;
            fp_read = some fp_read;
            fp_close = some fp_close;
          }),
          (registered slot usec w).0,
          pos slot,
        )
        → slot < length t
        → is_minus_one (timer_at t slot).fd ≡ true
        → is_neg (created w).1 ≡ false
        → is_nonzero (scheduled usec w).1 ≡ false
        → is_neg (registered slot usec w).1 ≡ false
        → Started user usec fp_read fp_close t w out

  start_in-Started :
      (slot : ℕ) (user : ℤ) (usec : ℕ) (fp_read fp_close : Cb) (t : List (Timer Cb)) (w : sys.W)
      → slot < length t
      → is_minus_one (timer_at t slot).fd ≡ true
      → is_neg (created w).1 ≡ false
      → Started user usec fp_read fp_close t w
          (start_in sys slot (created w).1 user usec fp_read fp_close t (created w).0)
  unfolding start_in
  start_in-Started slot user usec fp_read fp_close t w h free good =
      elim (Bool-cases (is_nonzero (scheduled usec w).1)) [
        | inl bad ↦ rw bad (not_scheduled refl good bad)
        | inr set_up ↦ rw set_up (elim (Bool-cases (is_neg (registered slot usec w).1)) [
          | inl bad ↦ rw bad (not_registered slot refl good set_up bad)
          | inr watched ↦ rw watched (entered slot refl h free good set_up watched)
        ])
      ]

  -- Every outcome of `gtimer_start`. With no free slot nothing is called. If the timer's descriptor is
  -- not created, nothing is entered; if its period is not set or it is not registered, it is closed
  -- again and nothing is entered; the result is -1 in these cases. If all three calls succeed, the
  -- descriptor and the callbacks are entered in a slot that was free, for which it has been registered,
  -- and the result is the slot.
  pub gtimer_start-Started :
      (user : ℤ) (usec : ℕ) (fp_read fp_close : Cb) (t : List (Timer Cb)) (w : sys.W)
      → Started user usec fp_read fp_close t w (gtimer_start sys user usec fp_read fp_close t w)
  unfolding gtimer_start
  gtimer_start-Started user usec fp_read fp_close t w = elim (Option-cases (get_slot 0 t)) [
    | inl none_free ↦
        rw (none_free, gtimer_start) (full refl (λ j h. get_slot-none t 0 j none_free h))
    | inr (slot, e) ↦
        let (j, p, q, r) = get_slot-some t 0 slot e in
        let same : slot ≡ j = omega arith in
        rw (e, gtimer_start, same)
          (elim (Bool-cases (is_neg (created w).1)) [
            | inl bad ↦ rw bad (not_created refl bad)
            | inr good ↦ rw good (start_in-Started j user usec fp_read fp_close t w q r good)
          ])
  ]

  set-get_slot :
      (t : List (Timer Cb)) (k i : ℕ)
      → is_minus_one (timer_at t i).fd ≡ false
      → get_slot k (set t i cleared_timer) ≡ get_slot k t
  unfolding get_slot
  set-get_slot [] k i h = refl
  set-get_slot (x ∷ t) k zero h = rw h refl
  set-get_slot (x ∷ t) k (suc i) h = elim (Bool-cases (is_minus_one x.fd)) [
    | inl free ↦ rw free refl
    | inr taken ↦ rw taken (set-get_slot t (k + 1) i h)
  ]

  valid_taken : (fd : ℤ) → not (is_neg fd) ≡ true → is_minus_one fd ≡ false
  valid_taken (pos n) e = refl
  valid_taken (negsuc n) e = absurd cc

  check_timer-taken :
      (t : List (Timer Cb)) (timer : ℤ)
      → check_timer t timer ≡ true
      → is_minus_one (timer_at t (to_nat timer)).fd ≡ false
  unfolding check_timer
  check_timer-taken t (negsuc n) e = absurd cc
  check_timer-taken t (pos i) e = elim (Bool-cases (leb max_timers i)) [
    | inl bad ↦ let f = rw bad at e in absurd cc
    | inr good ↦ valid_taken (timer_at t i).fd (rw good at e)
  ]

  -- Closing a timer, valid or not, leaves the search for a free slot as it was: the slot of a closed
  -- timer is never found again.
  pub gtimer_close-get_slot :
      (t : List (Timer Cb)) (timer : ℤ) (w : sys.W)
      → get_slot 0 (gtimer_close sys t timer w).0 ≡ get_slot 0 t
  unfolding gtimer_close
  gtimer_close-get_slot t timer w = elim (Bool-cases (check_timer t timer)) [
    | inl valid ↦ rw valid (set-get_slot t 0 (to_nat timer) (check_timer-taken t timer valid))
    | inr invalid ↦ rw invalid refl
  ]
