-- ===== src/Gasync/Usb/Transfers/Pending.antt =====
-- The table of transfers against the numbers of pending transfers: what adding and removing a
-- transfer does to both.
use serialusb.Common.{
  ℕ, suc, ◌<◌, ◌≡◌, ◌≢◌, refl, sym, ◌∙◌, ap, inl, inr, true, false, List, [], ◌∷◌, ◌++◌,
  if◌then◌else◌, ◌==◌, ==_iff, arith, Bool-cases, length, length-set, get_or-set_self,
  get_or-set_ne, All,
}
use serialusb.Common.Int.{ℤ, pos, increment, decrement}
use serialusb.Gasync.Usb.{
  Usb, UsbDevice, Transfer, usb_device_at, no_usb_device, usbasync_max_devices,
}
use serialusb.Gasync.Usb.Transfers.{is_listed, unlisted, with_pending}

abbrev pub count_of : ℕ → List Transfer → ℕ
count_of i [] = 0
count_of i (t ∷ ts) = if t.user_data == i then suc (count_of i ts) else count_of i ts

-- Each device has as many pending transfers as the table holds of it.
pub record IsUsb {Cb : Type 0} (u : Usb Cb) : Type 0 where
  pub size : length u.devices ≡ usbasync_max_devices
  pub counted :
      (i : ℕ)
      → i < usbasync_max_devices
      → (usb_device_at u.devices i).pending_transfers ≡ pos (count_of i u.transfers)

-- What the table holds at an address is of the device.
abbrev pub IsOf : ℕ → ℕ → List Transfer → Type 0
IsOf a device ts = All (λ (t : Transfer). (t.address == a) ≡ true → t.user_data ≡ device) ts

pub count_of-append :
    (i : ℕ) (ts : List Transfer) (t : Transfer)
    → count_of i (ts ++ (t ∷ []))
      ≡ (if t.user_data == i then suc (count_of i ts) else count_of i ts)
count_of-append i [] t = refl
count_of-append i (x ∷ ts) t = elim (Bool-cases (x.user_data == i)) [
  | inl e ↦ elim (Bool-cases (t.user_data == i)) [
    | inl f ↦ rw (e, count_of-append i ts t, f) refl
    | inr f ↦ rw (e, count_of-append i ts t, f) refl
  ]
  | inr e ↦ rw e (count_of-append i ts t)
]

-- Removing a transfer of a device that is in the table takes one from the count of that device.
pub count_of-unlisted_self :
    (a device : ℕ) (ts : List Transfer)
    → is_listed a ts ≡ true
    → IsOf a device ts
    → count_of device ts ≡ suc (count_of device (unlisted a ts))
unfolding is_listed unlisted
count_of-unlisted_self a device [] h c = cc
count_of-unlisted_self a device (x ∷ ts) h c = elim (Bool-cases (x.address == a)) [
  | inl here ↦ let own = (==_iff x.user_data device).1 (c.0 here) in rw (here, own) refl
  | inr there ↦
      let later : is_listed a ts ≡ true = rw there at h in
      let rest = count_of-unlisted_self a device ts later c.1 in
      rw there (elim (Bool-cases (x.user_data == device)) [
        | inl own ↦ rw own (ap suc rest)
        | inr other ↦ rw other rest
      ])
]

-- The counts of the other devices stay.
count_of-unlisted_ne :
    (a device j : ℕ) (ts : List Transfer)
    → IsOf a device ts
    → device ≢ j
    → count_of j (unlisted a ts) ≡ count_of j ts
unfolding unlisted
count_of-unlisted_ne a device j [] c ne = refl
count_of-unlisted_ne a device j (x ∷ ts) c ne = elim (Bool-cases (x.address == a)) [
  | inl here ↦
      let own = c.0 here in
      rw here (elim (Bool-cases (x.user_data == j)) [
        | inl bad ↦ absurd (ne (sym own ∙ (==_iff x.user_data j).0 bad))
        | inr other ↦ rw other refl
      ])
  | inr there ↦ rw there (elim (Bool-cases (x.user_data == j)) [
    | inl own ↦ rw own (ap suc (count_of-unlisted_ne a device j ts c.1 ne))
    | inr other ↦ rw other (count_of-unlisted_ne a device j ts c.1 ne)
  ])
]

module _ {Cb : Type 0} where
  pub with_pending_self :
      (f : ℤ → ℤ) (t : List (UsbDevice Cb)) (i : ℕ)
      → i < length t
      → (usb_device_at (with_pending f i t) i).pending_transfers
        ≡ f (usb_device_at t i).pending_transfers
  with_pending_self f t i h =
      ap (λ (d : UsbDevice Cb). d.pending_transfers) (get_or-set_self t i _ no_usb_device h)

  pub with_pending_ne :
      (f : ℤ → ℤ) (t : List (UsbDevice Cb)) (i j : ℕ)
      → i ≢ j
      → usb_device_at (with_pending f i t) j ≡ usb_device_at t j
  with_pending_ne f t i j ne = get_or-set_ne t i j _ no_usb_device ne

  -- The counts after a change of the table and of one device, if they agree on that device and the
  -- counts of the others are as before.
  changed-IsUsb :
      (f : ℤ → ℤ) (u : Usb Cb) (i : ℕ) (ts : List Transfer)
      → IsUsb u
      → i < usbasync_max_devices
      → f (pos (count_of i u.transfers)) ≡ pos (count_of i ts)
      → ((j : ℕ) → i ≢ j → count_of j ts ≡ count_of j u.transfers)
      → IsUsb (record { devices = with_pending f i u.devices; transfers = ts })
  changed-IsUsb f u i ts v h own others = record {
    size = length-set u.devices i _ ∙ v.size;
    counted = λ j k. elim (Bool-cases (i == j)) [
      | inl e ↦
          let same : j ≡ i = sym ((==_iff i j).0 e) in
          rw same
            (with_pending_self f u.devices i (omega (arith, v.size)) ∙ ap f (v.counted i h) ∙ own)
      | inr e ↦
          let ne : i ≢ j = λ q. absurd (ground arith) in
          ap (λ (d : UsbDevice Cb). d.pending_transfers) (with_pending_ne f u.devices i j ne)
          ∙ v.counted j k
          ∙ ap pos (sym (others j ne))
    ];
  }

  -- Adding a transfer of a device, and counting it.
  pub added-IsUsb :
      (u : Usb Cb) (t : Transfer)
      → IsUsb u
      → t.user_data < usbasync_max_devices
      → IsUsb (record {
        devices = with_pending increment t.user_data u.devices;
        transfers = u.transfers ++ (t ∷ []);
      })
  added-IsUsb u t v h =
      let own = (==_iff t.user_data t.user_data).1 refl in
      changed-IsUsb increment u t.user_data (u.transfers ++ (t ∷ [])) v h
        (rw (count_of-append t.user_data u.transfers t, own) refl)
        (λ j ne.
          let other : (t.user_data == j) ≡ false = ground arith in
          rw (count_of-append j u.transfers t, other) refl)

  -- Removing a transfer of a device from the table, and from its count.
  pub removed-IsUsb :
      (u : Usb Cb) (t : Transfer)
      → IsUsb u
      → t.user_data < usbasync_max_devices
      → is_listed t.address u.transfers ≡ true
      → IsOf t.address t.user_data u.transfers
      → IsUsb (record {
        devices = with_pending decrement t.user_data u.devices;
        transfers = unlisted t.address u.transfers;
      })
  removed-IsUsb u t v h listed c =
      let less = count_of-unlisted_self t.address t.user_data u.transfers listed c in
      changed-IsUsb decrement u t.user_data (unlisted t.address u.transfers) v h (rw less refl)
        (λ j ne. count_of-unlisted_ne t.address t.user_data j u.transfers c ne)
