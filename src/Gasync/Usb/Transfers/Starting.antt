-- ===== src/Gasync/Usb/Transfers/Starting.antt =====
-- `submit_transfer` and `gusb_poll`: which transfer starts, and what the tables are if none does.
use serialusb.Common.{
  zero, suc, ℕ, ◌<◌, ◌≡◌, refl, sym, ap, inl, inr, Bool, true, false, ◌||◌, some, List, [], ◌∷◌,
  ◌++◌, ◌==◌, ==_iff, Bool-cases, Option-cases, replicate, subst, not,
}
use serialusb.Common.Int.{ℤ, pos, negsuc, minus_one, increment, decrement, is_nonzero, to_nat}
use serialusb.Gasync.Usb.{
  Usb, UsbDevice, Transfer, usb_device_at, usbasync_max_devices, usbasync_check_device, is_some,
  get_endpoint, endpoint_of, type_interrupt,
}
use serialusb.Gasync.Usb.Calls.{Libusb}
use serialusb.Gasync.Usb.Transfers.{
  is_listed, unlisted, with_pending, filled_transfer, alloc_both, submit_transfer, gusb_poll,
}
use serialusb.Gasync.Usb.Transfers.Pending.{IsUsb, added-IsUsb}

decrement-increment : (n : ℤ) → decrement (increment n) ≡ n
decrement-increment (pos n) = refl
decrement-increment (negsuc zero) = refl
decrement-increment (negsuc (suc n)) = refl

-- Counting a transfer and discounting it changes nothing.
with_pending-undone :
    {Cb : Type 0} (t : List (UsbDevice Cb)) (i : ℕ)
    → with_pending decrement i (with_pending increment i t) ≡ t
with_pending-undone [] i = refl
with_pending-undone (x ∷ t) zero =
    ap (λ p. record x { pending_transfers = p } ∷ t) (decrement-increment x.pending_transfers)
with_pending-undone (x ∷ t) (suc i) = ap (λ ys. x ∷ ys) (with_pending-undone t i)

-- The last entry is found by its address, and removing it gives the table before it.
is_listed-append : (ts : List Transfer) (t : Transfer) → is_listed t.address (ts ++ (t ∷ [])) ≡ true
unfolding is_listed
is_listed-append [] t = rw ((==_iff t.address t.address).1 refl) refl
is_listed-append (x ∷ ts) t = elim (Bool-cases (x.address == t.address)) [
  | inl e ↦ rw e refl
  | inr e ↦ rw (e, is_listed-append ts t) refl
]

unlisted-append :
    (ts : List Transfer) (t : Transfer)
    → is_listed t.address ts ≡ false
    → unlisted t.address (ts ++ (t ∷ [])) ≡ ts
unfolding is_listed unlisted
unlisted-append [] t h = rw ((==_iff t.address t.address).1 refl) refl
unlisted-append (x ∷ ts) t h = elim (Bool-cases (x.address == t.address)) [
  | inl e ↦ let bad = rw e at h in absurd cc
  | inr e ↦
      let new : is_listed t.address ts ≡ false = rw e at h in
      rw e (ap (λ ys. x ∷ ys) (unlisted-append ts t new))
]

-- The tables with one more pending transfer.
abbrev pub added : {Cb : Type 0} → Transfer → Usb Cb → Usb Cb
added t u = record {
  devices = with_pending increment t.user_data u.devices;
  transfers = u.transfers ++ (t ∷ []);
}

is_nonzero-false : (n : ℤ) → is_nonzero n ≡ false → n ≡ pos 0
is_nonzero-false (pos zero) h = refl
is_nonzero-false (pos (suc n)) h = cc
is_nonzero-false (negsuc n) h = cc

module _ {Cb : Type 0} (sys : Libusb Cb) where
  -- Either the result is -1 and the tables are as before, or it is 0 and they have the transfer.
  pub data Submitted (t : Transfer) (u : Usb Cb) : Usb Cb × sys.W × ℤ → Type 0 where
    refused : {out : Usb Cb × sys.W × ℤ} → out.0 ≡ u → out.2 ≡ minus_one → Submitted t u out
    started : {out : Usb Cb × sys.W × ℤ} → out.0 ≡ added t u → out.2 ≡ pos 0 → Submitted t u out

  pub submit_transfer-Submitted :
      (t : Transfer) (u : Usb Cb) (w : sys.W)
      → is_listed t.address u.transfers ≡ false
      → Submitted t u (submit_transfer sys t u w)
  unfolding submit_transfer serialusb.Gasync.Usb.Transfers.add_transfer
      serialusb.Gasync.Usb.Transfers.remove_transfer
  submit_transfer-Submitted t u w new =
      let w' = (sys.allocate w).0 in
      rw new (elim (Bool-cases (sys.allocate w).1) [
        | inr full ↦ rw full (refused refl refl)
        | inl found ↦ rw found (elim (Bool-cases (is_nonzero (sys.submit t w').1)) [
          | inr good ↦ rw good (started refl (is_nonzero-false (sys.submit t w').1 good))
          | inl bad ↦
              rw
                (
                  bad,
                  is_listed-append u.transfers t,
                  unlisted-append u.transfers t new,
                  with_pending-undone u.devices t.user_data,
                )
                (refused refl refl)
        ])
      ])

  -- A transfer that is not submitted keeps the counts, and one that is submitted is counted.
  pub Submitted-IsUsb :
      {t : Transfer} {u : Usb Cb} {out : Usb Cb × sys.W × ℤ}
      → Submitted t u out
      → IsUsb u
      → t.user_data < usbasync_max_devices
      → IsUsb out.0
  Submitted-IsUsb {t} {u} (refused e r) v h = subst IsUsb (sym e) v
  Submitted-IsUsb {t} {u} (started e r) v h = subst IsUsb (sym e) (added-IsUsb u t v h)

  -- The outcomes of starting a read: refused, with the tables as before, or an interrupt transfer of
  -- an IN endpoint of an opened device with a read callback, into a buffer of the size of the
  -- endpoint.
  pub data Polled (device : ℤ) (endpoint : ℕ) (u : Usb Cb) : Usb Cb × sys.W × ℤ → Type 0 where
    poll_refused :
        {out : Usb Cb × sys.W × ℤ} → out.0 ≡ u → out.2 ≡ minus_one → Polled device endpoint u out
    poll_started :
        {out : Usb Cb × sys.W × ℤ} (a : ℕ)
        → usbasync_check_device u.devices device ≡ true
        → is_some (get_endpoint (usb_device_at u.devices (to_nat device)) endpoint 1 0) ≡ true
        → is_some (usb_device_at u.devices (to_nat device)).fp_read ≡ true
        → (endpoint_of (usb_device_at u.devices (to_nat device)) endpoint).type ≡ type_interrupt
        → out.0
          ≡ added
              (filled_transfer a
                (to_nat device)
                endpoint
                type_interrupt
                0
                (replicate (endpoint_of (usb_device_at u.devices (to_nat device)) endpoint).size 0))
              u
        → out.2 ≡ pos 0
        → Polled device endpoint u out

  -- A test of three conditions that are all met.
  all_met :
      (a b c : Bool) → (not a || not b || not c) ≡ false → (a ≡ true) × (b ≡ true) × (c ≡ true)
  all_met true true true h = (refl, refl, refl)
  all_met true true false h = cc
  all_met true false c h = cc
  all_met false b c h = cc

  Submitted-Polled :
      (device : ℤ) (endpoint a : ℕ) (u : Usb Cb) (out : Usb Cb × sys.W × ℤ)
      → usbasync_check_device u.devices device ≡ true
      → is_some (get_endpoint (usb_device_at u.devices (to_nat device)) endpoint 1 0) ≡ true
      → is_some (usb_device_at u.devices (to_nat device)).fp_read ≡ true
      → (endpoint_of (usb_device_at u.devices (to_nat device)) endpoint).type ≡ type_interrupt
      → Submitted
          (filled_transfer a
            (to_nat device)
            endpoint
            type_interrupt
            0
            (replicate (endpoint_of (usb_device_at u.devices (to_nat device)) endpoint).size 0))
          u
          out
      → Polled device endpoint u out
  Submitted-Polled device endpoint a u out c e r y (refused f g) = poll_refused f g
  Submitted-Polled device endpoint a u out c e r y (started f g) = poll_started a c e r y f g

  module _ (u : Usb Cb)
      (fresh : (w : sys.W) (a : ℕ)
        → (sys.alloc_transfer w).1 ≡ some a
        → is_listed a u.transfers ≡ false) where
    pub fresh_both :
        (w : sys.W) (a : ℕ) → (alloc_both sys w).1 ≡ some a → is_listed a u.transfers ≡ false
    fresh_both w a h = elim (Bool-cases (sys.allocate w).1) [
      | inl found ↦ fresh (sys.allocate w).0 a (rw found at h)
      | inr full ↦ let bad = rw full at h in absurd cc
    ]

    -- If a transfer that is allocated is not one of the table, `gusb_poll` is refused and the tables
    -- are as before; or the device is open and has a read callback, the endpoint is one of its IN
    -- endpoints and of the interrupt type, and exactly one transfer is added, for this endpoint and
    -- with a buffer of its size.
    pub gusb_poll-Polled :
        (device : ℤ) (endpoint : ℕ) (w : sys.W)
        → Polled device endpoint u (gusb_poll sys device endpoint u w)
    unfolding gusb_poll
    gusb_poll-Polled device endpoint w =
        let d = usb_device_at u.devices (to_nat device) in
        let e = endpoint_of d endpoint in
        elim (Bool-cases (
          not (usbasync_check_device u.devices device)
          || not (is_some (get_endpoint d endpoint 1 0))
          || not (is_some d.fp_read))) [
            | inl bad ↦ rw bad (poll_refused refl refl)
            | inr good ↦
                let (c, f, r) = all_met _ _ _ good in
                rw good (elim (Option-cases (alloc_both sys w).1) [
                  | inl full ↦ rw full (poll_refused refl refl)
                  | inr (a, got) ↦ rw got (elim (Bool-cases (e.type == 3)) [
                    | inr other ↦ rw other (poll_refused refl refl)
                    | inl interrupt ↦ rw interrupt (
                        Submitted-Polled device endpoint a u _ c f r ((==_iff e.type 3).0 interrupt)
                          (submit_transfer-Submitted _ u (alloc_both sys w).0 (fresh_both w a got)))
                  ])
                ])
          ]
