-- ===== src/Gasync/Async/Reading.antt =====
-- The reads of a device: the size of their buffer, and the rounds of the loop of
-- `async_read_timeout`.
use serialusb.Common.{
  ℕ, zero, suc, ◌-◌, ◌≤◌, ◌<◌, ◌≡◌, ◌≢◌, refl, ◌∙◌, true, false, ◌||◌, inl, inr, Option, some, List,
  ◌++◌, arith, Bool-cases, Option-cases, none, Bool, ◌&&◌, ◌+◌, if◌then◌else◌, ltb, ◌==◌, length,
  length-append, length-set, All, All-set, set, leb,
}
use serialusb.Common.Int.{ℤ, pos, negsuc, is_neg, to_nat}
use serialusb.Gasync.Async.{
  Device, Files, device_at, async_max_devices, async_check_device, read_loop, async_set_read_size,
}

-- What is read at once fits the buffer that is allocated for it.
pub record IsDevices {Cb : Type 0} (t : List (Device Cb)) : Type 0 where
  pub size : length t ≡ async_max_devices
  pub fits : All (λ d. d.read_count ≤ d.read_size) t

module _ {Cb : Type 0} (sys : Files Cb) where
  check-in_table :
      (t : List (Device Cb)) (device : ℤ)
      → async_check_device t device ≡ true
      → to_nat device < async_max_devices
  unfolding async_check_device
  check-in_table t (negsuc n) e = absurd cc
  check-in_table t (pos i) e = elim (Bool-cases (leb async_max_devices i)) [
    | inl bad ↦ let f = rw bad at e in absurd cc
    | inr good ↦ ground arith
  ]

  set-IsDevices :
      (t : List (Device Cb)) (i : ℕ) (d : Device Cb)
      → IsDevices t
      → d.read_count ≤ d.read_size
      → IsDevices (set t i d)
  set-IsDevices t i d v h = record {
    size = length-set t i d ∙ v.size;
    fits = All-set (λ (x : Device Cb). x.read_count ≤ x.read_size) t i d v.fits h;
  }

  -- Whatever the size asked for and the memory found, what is read at once fits the buffer that is
  -- allocated for it.
  pub async_set_read_size-IsDevices :
      (t : List (Device Cb)) (device : ℤ) (n : ℕ) (w : sys.W)
      → IsDevices t
      → IsDevices (async_set_read_size sys t device n w).0
  unfolding async_set_read_size
  async_set_read_size-IsDevices t device n w v =
      let d = device_at t (to_nat device) in
      elim (Bool-cases (async_check_device t device)) [
        | inr invalid ↦ rw invalid v
        | inl valid ↦ rw valid (elim (Bool-cases (ltb d.read_size n)) [
          | inr small ↦ rw small (set-IsDevices t (to_nat device) _ v (ground arith))
          | inl large ↦ rw large (elim (Bool-cases (sys.allocate w).1) [
            | inl found ↦ rw found (set-IsDevices t (to_nat device) _ v (omega arith))
            | inr full ↦ rw full v
          ])
        ])
      ]

  -- A read that ends, with at most as many bytes as asked for, behind those read before.
  pub record Ended (count : ℕ) (out : Option (sys.W × List ℕ)) : Type 0 where
    pub world : sys.W
    pub bytes : List ℕ
    pub returns : out ≡ some (world, bytes)
    pub bound : length bytes ≤ count

  -- Whether a read gives at least one byte.
  abbrev pub gives : Option (List ℕ) → Bool
  gives none = false
  gives (some bs) = ltb 0 (length bs)

  -- The state of the system after a round of the loop in which `select` has reported something, and
  -- whether a byte has come.
  abbrev pub round_end : ℤ → ℕ → sys.W → sys.W
  round_end fd n w =
      let (w1, status, is_set) = sys.select fd w in if is_set then (sys.read fd n w1).0 else w1

  abbrev pub round_gives : ℤ → ℕ → sys.W → Bool
  round_gives fd n w =
      let (w1, status, is_set) = sys.select fd w in is_set && gives (sys.read fd n w1).1

  module _ (fd : ℤ) (idle : sys.W → ℕ)
      (within : (n : ℕ) (w : sys.W) (bs : List ℕ)
        → 0 < n
        → (sys.read fd n w).1 ≡ some bs
        → length bs ≤ n)
      (waits : (n : ℕ) (w : sys.W) → 0 < n → idle (round_end fd n w) ≤ idle w)
      (uses : (n : ℕ) (w : sys.W)
        → 0 < n
        → (is_neg (sys.select fd w).1 || (to_nat (sys.select fd w).1 == 0)) ≡ false
        → round_gives fd n w ≡ false
        → idle (round_end fd n w) < idle w) where
    -- If a read gives at most the bytes asked for, and the device is idle for a bounded number of
    -- rounds, those in which `select` reports something but no byte is read, then the loop of
    -- `async_read_timeout` ends within as many rounds as bytes are missing, idle rounds are to come,
    -- and one, with at most the bytes asked for. A read may fail or give nothing.
    pub read_loop-Ended :
        (fuel count : ℕ) (got : List ℕ) (w : sys.W)
        → length got ≤ count
        → count - length got + idle w < fuel
        → Ended count (read_loop sys fuel fd count got w)
    unfolding read_loop
    read_loop-Ended zero count got w h f = absurd (omega arith)
    read_loop-Ended (suc fuel) count got w h f = elim (Bool-cases (length got == count)) [
      | inl done ↦ rw done (record { world = w; bytes = got; returns = refl; bound = h })
      | inr more ↦
          let ne : length got ≢ count = ground arith in
          let n = count - length got in
          let w1 = (sys.select fd w).0 in
          let missing : 0 < n = omega arith in
          let less = waits n w missing in
          elim (Bool-cases (is_neg (sys.select fd w).1 || (to_nat (sys.select fd w).1 == 0))) [
            | inl timed_out ↦
                rw (more, timed_out) (record { world = w1; bytes = got; returns = refl; bound = h })
            | inr ready ↦
                rw (more, ready)
                  (elim (Bool-cases (sys.select fd w).2) [
                    | inr unset ↦
                        let used = uses n w missing ready (rw unset refl) in
                        rw unset
                          (read_loop-Ended fuel count got _ h (omega (arith, rw unset at used)))
                    | inl is_set ↦ rw is_set (elim (Option-cases (sys.read fd n w1).1) [
                      | inl failed ↦
                          let used = uses n w missing ready (rw (is_set, failed) refl) in
                          rw failed
                            (read_loop-Ended fuel count got _ h (omega (arith, rw is_set at used)))
                      | inr (bs, e) ↦
                          let fits = within n w1 bs missing e in
                          let total = length-append got bs in
                          rw e (elim (Bool-cases (ltb 0 (length bs))) [
                            | inl some_byte ↦
                                let less' = rw is_set at less in
                                read_loop-Ended fuel count (got ++ bs) _ (omega arith)
                                  (ground arith)
                            | inr no_byte ↦
                                let used = uses n w missing ready (rw (is_set, e) no_byte) in
                                let used' = rw is_set at used in
                                read_loop-Ended fuel count (got ++ bs) _ (omega arith)
                                  (ground arith)
                          ])
                    ])
                  ])
          ]
    ]
