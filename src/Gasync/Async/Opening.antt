-- ===== src/Gasync/Async/Opening.antt =====
-- `async_open_path` and `async_close`: the entry of the table that an opened file takes and leaves.
use serialusb.Common.{
  ℕ, zero, suc, ◌+◌, ◌<◌, ◌≡◌, refl, sym, ap, inl, inr, some, List, [], ◌∷◌, arith, Bool-cases,
  Option-cases, true, false, length, set, get_or-set_self, All, leb,
}
use serialusb.Common.Int.{ℤ, pos, minus_one, is_minus_one}
use serialusb.Gasync.Async.{
  Device, Files, no_device, device_at, async_max_devices, async_check_device, free_device,
  is_opened, add_device, async_open_path, async_close,
}

-- An entry without a descriptor is a cleared one.
abbrev pub IsCleared : {Cb : Type 0} → Device Cb → Type 0
IsCleared d = is_minus_one d.fd ≡ true → d ≡ no_device

-- Every entry without a descriptor is a cleared one.
pub record IsClean {Cb : Type 0} (t : List (Device Cb)) : Type 0 where
  pub size : length t ≡ async_max_devices
  pub clean : All IsCleared t

module _ {Cb : Type 0} where
  -- The search finds an entry without a descriptor.
  free_device-some :
      (t : List (Device Cb)) (k i : ℕ)
      → All IsCleared t
      → free_device k t ≡ some i
      → (j : ℕ) × (i ≡ k + j) × (j < length t) × (device_at t j ≡ no_device)
  unfolding free_device
  free_device-some [] k i c e = cc
  free_device-some (d ∷ t) k i c e = elim (Bool-cases (is_minus_one d.fd)) [
    | inl free ↦ (0, ground arith, omega arith, c.0 free)
    | inr taken ↦
        let (j, p, q, r) = free_device-some t (k + 1) i c.1 (ground arith) in
        (suc j, omega arith, omega arith, r)
  ]

  -- Writing back what an entry held undoes a write to it.
  set-set-restore :
      (t : List (Device Cb)) (i : ℕ) (d e : Device Cb) → device_at t i ≡ e → set (set t i d) i e ≡ t
  set-set-restore [] i d e h = refl
  set-set-restore (x ∷ t) zero d e h = ap (λ y. y ∷ t) (sym h)
  set-set-restore (x ∷ t) (suc i) d e h = ap (λ u. x ∷ u) (set-set-restore t i d e h)

module _ {Cb : Type 0} (sys : Files Cb) (t : List (Device Cb)) (v : IsClean t) where
  -- Closing the device of a filled entry gives back the table and the descriptor.
  pub async_close-set :
      (i : ℕ) (d : Device Cb) (w : sys.W)
      → i < length t
      → device_at t i ≡ no_device
      → is_minus_one d.fd ≡ false
      → async_close sys (set t i d) (pos i) w ≡ (t, sys.close_file d.fd w, pos 0)
  unfolding async_close async_check_device
  async_close-set i d w h clear filled =
      let in_table : leb 256 i ≡ false = ground (arith, v.size) in
      let found = get_or-set_self t i d no_device h in
      rw (in_table, found, filled, set-set-restore t i d no_device clear) refl

  -- The outcomes of opening `path`: the file does not open, and the table stays; the file is closed
  -- again, and the table stays; or one cleared entry is filled with the path and the descriptor, and
  -- its index is the result.
  pub data OpenedPath (path : List ℕ) (w : sys.W) : List (Device Cb) × sys.W × ℤ → Type 0 where
    refused :
        {out : List (Device Cb) × sys.W × ℤ}
        → out ≡ (t, (sys.open_file path w).0, minus_one)
        → OpenedPath path w out
    closed :
        {out : List (Device Cb) × sys.W × ℤ} (w' : sys.W)
        → out ≡ (t, sys.close_file (sys.open_file path w).1 w', minus_one)
        → OpenedPath path w out
    filled :
        {out : List (Device Cb) × sys.W × ℤ} (i : ℕ) (w' : sys.W)
        → i < length t
        → device_at t i ≡ no_device
        → is_minus_one (sys.open_file path w).1 ≡ false
        → out ≡ (
          set t i (record no_device { path = some path; fd = (sys.open_file path w).1 }),
          w',
          pos i,
        )
        → OpenedPath path w out

  pub async_open_path-OpenedPath :
      (path : List ℕ) (w : sys.W) → OpenedPath path w (async_open_path sys (some path) t w)
  unfolding async_open_path add_device
  async_open_path-OpenedPath path w =
      let fd = (sys.open_file path w).1 in
      let w1 = (sys.open_file path w).0 in
      elim (Bool-cases (is_minus_one fd)) [
        | inl bad ↦ rw bad (refused refl)
        | inr good ↦ rw good (elim (Bool-cases (is_opened path t)) [
          | inl twice ↦ rw twice (closed w1 refl)
          | inr new ↦ rw new (elim (Option-cases (free_device 0 t)) [
            | inl full ↦ rw full (closed w1 refl)
            | inr (i, e) ↦
                let (j, p, h, clear) = free_device-some t 0 i v.clean e in
                let same : i ≡ j = omega arith in
                rw (e, same)
                  (elim (Bool-cases (sys.allocate w1).1) [
                    | inr short ↦ rw short (closed (sys.allocate w1).0 refl)
                    | inl found ↦ rw (found, clear) (filled j (sys.allocate w1).0 h clear good refl)
                  ])
          ])
        ])
      ]
