-- ===== src/Gasync/Usb/Opening/Claiming.antt =====
-- `add_device`, `claim_device` and `gusb_close`: what the opening of one USB device leaves in the
-- tables, whichever step fails.
use serialusb.Common.{
  ℕ, zero, suc, ◌+◌, ◌<◌, ◌≡◌, refl, sym, ◌∙◌, ap, inl, inr, true, false, Option, some, List, [],
  ◌∷◌, arith, Bool-cases, Option-cases, leb, length, set, if◌then◌else◌, ◌>>=◌, get_or-set_self,
  length-set, All,
}
use serialusb.Common.Int.{ℤ, pos, minus_one, is_neg, is_nonzero}
use serialusb.Gasync.Usb.{
  Usb, UsbDevice, usb_device_at, no_usb_device, usbasync_max_devices, is_some,
}
use serialusb.Gasync.Usb.Events.{cancel_transfers, cancel_each}
use serialusb.Gasync.Usb.Probe.Frame.{frame, Keeps, nothing, keeps}
use serialusb.Gasync.Usb.Reading.{get_descriptors}
use serialusb.Gasync.Usb.Reading.Keeping.{get_descriptors-Keeps}
use serialusb.Gasync.Usb.Opening.{
  Bus, with_device, is_usb_opened, free_usb_device, add_device, prepare, claim_device, gusb_close,
  open_one,
}

-- An entry without a handle is a cleared one.
abbrev pub IsUnused : {Cb : Type 0} → UsbDevice Cb → Type 0
IsUnused d = is_some d.devh ≡ false → d ≡ no_usb_device

pub record IsTidy {Cb : Type 0} (u : Usb Cb) : Type 0 where
  pub size : length u.devices ≡ usbasync_max_devices
  pub unused : All IsUnused u.devices

module _ {Cb : Type 0} where
  free_usb_device-some :
      (t : List (UsbDevice Cb)) (k i : ℕ)
      → All IsUnused t
      → free_usb_device k t ≡ some i
      → (j : ℕ) × (i ≡ k + j) × (j < length t) × (usb_device_at t j ≡ no_usb_device)
  unfolding free_usb_device
  free_usb_device-some [] k i c e = cc
  free_usb_device-some (d ∷ t) k i c e = elim (Bool-cases (is_some d.devh)) [
    | inr free ↦ (0, ground arith, omega arith, c.0 free)
    | inl taken ↦
        let (j, p, q, r) = free_usb_device-some t (k + 1) i c.1 (ground arith) in
        (suc j, omega arith, omega arith, r)
  ]

  -- Writes to an entry, the last of which is what it held.
  set-set-set-restore :
      (t : List (UsbDevice Cb)) (i : ℕ) (d e x : UsbDevice Cb)
      → usb_device_at t i ≡ x
      → set (set (set t i d) i e) i x ≡ t
  set-set-set-restore [] i d e x h = refl
  set-set-set-restore (y ∷ t) zero d e x h = ap (λ z. z ∷ t) (sym h)
  set-set-set-restore (y ∷ t) (suc i) d e x h = ap (λ z. y ∷ z) (set-set-set-restore t i d e x h)

  set-set : (t : List (UsbDevice Cb)) (i : ℕ) (d e : UsbDevice Cb) → set (set t i d) i e ≡ set t i e
  set-set [] i d e = refl
  set-set (y ∷ t) zero d e = refl
  set-set (y ∷ t) (suc i) d e = ap (λ z. y ∷ z) (set-set t i d e)

  set-set-restore :
      (t : List (UsbDevice Cb)) (i : ℕ) (d x : UsbDevice Cb)
      → usb_device_at t i ≡ x
      → set (set t i d) i x ≡ t
  set-set-restore [] i d x h = refl
  set-set-restore (y ∷ t) zero d x h = ap (λ z. z ∷ t) (sym h)
  set-set-restore (y ∷ t) (suc i) d x h = ap (λ z. y ∷ z) (set-set-restore t i d x h)

module _ {Cb : Type 0} (bus : Bus Cb) (u : Usb Cb) (v : IsTidy u) (path : List ℕ) where
  abbrev named : UsbDevice Cb
  named = record no_usb_device { path = some path }

  -- A cleared entry gets the path, or the tables stay.
  data Named : Usb Cb × bus.libusb.W × ℤ → Type 0 where
    not_named :
        {out : Usb Cb × bus.libusb.W × ℤ} (w : bus.libusb.W) → out ≡ (u, w, minus_one) → Named out
    is_named :
        {out : Usb Cb × bus.libusb.W × ℤ} (i : ℕ) (w : bus.libusb.W)
        → i < length u.devices
        → usb_device_at u.devices i ≡ no_usb_device
        → out ≡ (with_device i named u, w, pos i)
        → Named out

  add_device-Named : (w : bus.libusb.W) → Named (add_device bus path u w)
  unfolding add_device
  add_device-Named w = elim (Bool-cases (is_usb_opened path u.devices)) [
    | inl twice ↦ rw twice (not_named w refl)
    | inr new ↦ rw new (elim (Option-cases (free_usb_device 0 u.devices)) [
      | inl full ↦ rw full (not_named w refl)
      | inr (i, e) ↦
          let (j, p, h, clear) = free_usb_device-some u.devices 0 i v.unused e in
          let same : i ≡ j = omega arith in
          rw (e, same)
            (elim (Bool-cases (bus.libusb.allocate w).1) [
              | inr short ↦ rw short (not_named (bus.libusb.allocate w).0 refl)
              | inl found ↦ rw (found, clear) (is_named j (bus.libusb.allocate w).0 h clear refl)
            ])
    ])
  ]

  data Closed : Option (Usb Cb × bus.libusb.W × ℤ) → Type 0 where
    is_closed :
        {out : Option (Usb Cb × bus.libusb.W × ℤ)} (w : bus.libusb.W)
        → out ≡ some (u, w, pos 1)
        → Closed out

  -- A device with no pending transfer is closed, and its entry is as before.
  gusb_close-Closed :
      (fuel i : ℕ) (d : UsbDevice Cb) (w : bus.libusb.W)
      → i < length u.devices
      → usb_device_at u.devices i ≡ no_usb_device
      → d.pending_transfers ≡ pos 0
      → Closed (gusb_close bus (suc fuel) (pos i) (with_device i d u) w)
  unfolding gusb_close cancel_transfers serialusb.Gasync.Usb.Events.drain
  gusb_close-Closed fuel i d w h clear idle =
      let in_table : leb 256 i ≡ false = ground (arith, v.size) in
      let here = get_or-set_self u.devices i d no_usb_device h in
      elim (Bool-cases (is_some d.devh)) [
        | inr closed ↦
            rw (in_table, here, closed, set-set-restore u.devices i d no_usb_device clear)
              (is_closed w refl)
        | inl opened ↦
            let closing : UsbDevice Cb = record d { closing = true } in
            let len : i < length (set u.devices i d) = omega (arith, length-set u.devices i d) in
            let there = get_or-set_self (set u.devices i d) i closing no_usb_device len in
            let idle_there =
              ap (λ (x : UsbDevice Cb). is_nonzero x.pending_transfers) there
              ∙ ap is_nonzero idle in
            let back = set-set-set-restore u.devices i d closing no_usb_device clear in
            rw (in_table, here, opened, idle_there, back) (is_closed _ refl)
      ]

  -- What claiming leaves of the entry that was named.
  data Claimed : Option (UsbDevice Cb × bus.libusb.W × ℤ) → Type 0 where
    claim_failed :
        {out : Option (UsbDevice Cb × bus.libusb.W × ℤ)} (d : UsbDevice Cb) (w : bus.libusb.W)
        → out ≡ some (d, w, minus_one)
        → d.pending_transfers ≡ pos 0
        → Claimed out
    claim_done :
        {out : Option (UsbDevice Cb × bus.libusb.W × ℤ)} (h : ℕ) (d : UsbDevice Cb)
        (w : bus.libusb.W)
        → out ≡ some (d, w, pos 0)
        → frame d ≡ frame (record named { devh = some h })
        → Claimed out

  -- The reading of the descriptors of a device that has the path returns.
  abbrev pub Reads : ℕ → Type 0
  Reads fuel =
      (h : ℕ) (w : bus.libusb.W)
      → (x : UsbDevice Cb × bus.libusb.W × ℤ) × (get_descriptors bus.libusb fuel
            (record named { devh = some h }) w
          ≡ some x)

  read-Claimed :
      (h : ℕ) (m : Option (UsbDevice Cb × bus.libusb.W × ℤ))
      → (x : UsbDevice Cb × bus.libusb.W × ℤ) × (m ≡ some x)
      → Keeps (λ x. x.0) (record named { devh = some h }) m
      → Claimed (m >>= λ (d, w, ret). some (d, w, if is_neg ret then minus_one else pos 0))
  read-Claimed h m (x, got) (nothing e) = absurd (let bad = sym e ∙ got in cc)
  read-Claimed h m got (keeps x e same) = rw e (elim (Bool-cases (is_neg x.2)) [
    | inl bad ↦
        rw bad (claim_failed x.0 x.1 refl (ap (λ (d : UsbDevice Cb). d.pending_transfers) same))
    | inr good ↦ rw good (claim_done h x.0 x.1 refl same)
  ])

  claim_device-Claimed :
      (fuel dev : ℕ) (w : bus.libusb.W) → Reads fuel → Claimed (claim_device bus fuel named dev w)
  unfolding claim_device
  claim_device-Claimed fuel dev w reads = elim (Option-cases (bus.open_handle dev w).1) [
    | inl e ↦ rw (claim_device, e) (claim_failed named (bus.open_handle dev w).0 refl refl)
    | inr (h, e) ↦
        let opened : UsbDevice Cb = record named { devh = some h } in
        let w1 = (bus.open_handle dev w).0 in
        rw (claim_device, e)
          (elim (Bool-cases (prepare bus opened w1).1) [
            | inr bad ↦ rw bad (claim_failed opened (prepare bus opened w1).0 refl refl)
            | inl good ↦ rw good (
                read-Claimed h _ (reads h (prepare bus opened w1).0)
                  (get_descriptors-Keeps bus.libusb fuel opened (prepare bus opened w1).0))
          ])
  ]

  -- The outcomes of opening a device: the result is -1 and the tables are as before; or one cleared entry has the path, an opened handle, the descriptors and
  -- the endpoints, no callback and no pending transfer, and its index is the result.
  pub data OpenedOne : Option (Usb Cb × bus.libusb.W × ℤ) → Type 0 where
    not_opened :
        {out : Option (Usb Cb × bus.libusb.W × ℤ)} (w : bus.libusb.W)
        → out ≡ some (u, w, minus_one)
        → OpenedOne out
    is_opened :
        {out : Option (Usb Cb × bus.libusb.W × ℤ)} (i h : ℕ) (d : UsbDevice Cb) (w : bus.libusb.W)
        → i < length u.devices
        → usb_device_at u.devices i ≡ no_usb_device
        → frame d ≡ frame (record no_usb_device { path = some path; devh = some h })
        → out ≡ some (with_device i d u, w, pos i)
        → OpenedOne out

  pub open_one-OpenedOne :
      (fuel dev : ℕ) (w : bus.libusb.W)
      → Reads (suc fuel)
      → OpenedOne (open_one bus (suc fuel) path dev u w)
  unfolding open_one
  open_one-OpenedOne fuel dev w reads = elim (add_device-Named w) [
    | not_named w1 e ↦ rw e (not_opened w1 refl)
    | is_named i w1 h clear e ↦
        let here = get_or-set_self u.devices i named no_usb_device h in
        rw (e, here)
          (elim (claim_device-Claimed (suc fuel) dev w1 reads) [
            | claim_failed d w2 f idle ↦
                let twice = set-set u.devices i named d in
                rw (f, twice)
                  (elim (gusb_close-Closed fuel i d w2 h clear idle) [
                    | is_closed w3 g ↦ rw g (not_opened w3 refl)
                  ])
            | claim_done handle d w2 f same ↦
                let twice = set-set u.devices i named d in
                rw (f, twice) (is_opened i handle d w2 h clear same refl)
          ])
  ]
