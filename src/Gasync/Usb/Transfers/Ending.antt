-- ===== src/Gasync/Usb/Transfers/Ending.antt =====
-- `usb_callback`: which callback is told of the end of a transfer, what is left of the table of
-- transfers, and the counts of the devices.
use serialusb.Common.{
  ℕ, ◌<◌, ◌≡◌, refl, sym, ap, inl, inr, ◌⊎◌, true, false, Option, some, List, [], ◌∷◌, ◌==◌,
  Bool-cases,
}
use serialusb.Common.Int.{ℤ, pos}
use serialusb.Gasync.Usb.{Usb, Transfer, usb_device_at, usbasync_max_devices, usbasync_check_device}
use serialusb.Gasync.Usb.Calls.{Libusb}
use serialusb.Gasync.Usb.Transfers.{
  is_listed, unlisted, is_cancelled, is_read, remove_transfer, usb_callback, callback_status,
  transfer_data,
}
use serialusb.Gasync.Usb.Transfers.Pending.{IsUsb, IsOf, removed-IsUsb}

-- What stands at an address after a removal stood there before.
pub unlisted-IsOf :
    (a b device : ℕ) (ts : List Transfer) → IsOf b device ts → IsOf b device (unlisted a ts)
unfolding unlisted
unlisted-IsOf a b device [] c = tt
unlisted-IsOf a b device (x ∷ ts) c = elim (Bool-cases (x.address == a)) [
  | inl e ↦ rw e c.1
  | inr e ↦ rw e (c.0, unlisted-IsOf a b device ts c.1)
]

unlisted-gone : (a : ℕ) (ts : List Transfer) → is_listed a ts ≡ false → unlisted a ts ≡ ts
unfolding is_listed unlisted
unlisted-gone a [] h = refl
unlisted-gone a (x ∷ ts) h = elim (Bool-cases (x.address == a)) [
  | inl e ↦ let bad = rw e at h in absurd cc
  | inr e ↦ rw e (ap (λ r. x ∷ r) (unlisted-gone a ts (rw e at h)))
]

module _ {Cb : Type 0} (sys : Libusb Cb) where
  -- The counts are right, and what the table holds at the address is of the device.
  pub record IsSound (a device : ℕ) (u : Usb Cb) : Type 0 where
    pub usb : IsUsb u
    pub own : IsOf a device u.transfers

  pub remove_transfer-IsUsb :
      (t : Transfer) (u : Usb Cb) (w : sys.W)
      → t.user_data < usbasync_max_devices
      → IsSound t.address t.user_data u
      → IsUsb (remove_transfer sys t u w).0
  unfolding remove_transfer
  remove_transfer-IsUsb t u w h v = elim (Bool-cases (is_listed t.address u.transfers)) [
    | inl listed ↦ rw listed (removed-IsUsb u t v.usb h listed v.own)
    | inr gone ↦ rw gone v.usb
  ]

  -- What stands at an address, if anything does, is taken out of the table.
  remove_transfer-unlisted :
      (t : Transfer) (u : Usb Cb) (w : sys.W)
      → (remove_transfer sys t u w).0.transfers ≡ unlisted t.address u.transfers
  unfolding remove_transfer
  remove_transfer-unlisted t u w = elim (Bool-cases (is_listed t.address u.transfers)) [
    | inl listed ↦ rw listed refl
    | inr gone ↦ rw gone (sym (unlisted-gone t.address u.transfers gone))
  ]

  -- The tables and the state of libusb once the end of a transfer has been told: to nobody, if its
  -- device is not open any more or it was cancelled; else to the read or the write callback of the
  -- device, by its direction, with its data and status.
  pub data Told (t : Transfer) (u : Usb Cb) (w : sys.W) : Usb Cb → sys.W → Type 0 where
    untold :
        ((usbasync_check_device u.devices (pos t.user_data) ≡ false)
          ⊎ (is_cancelled t.status ≡ true))
        → Told t u w u w
    told_read :
        (cb : Cb)
        → usbasync_check_device u.devices (pos t.user_data) ≡ true
        → is_cancelled t.status ≡ false
        → is_read t ≡ true
        → (usb_device_at u.devices t.user_data).fp_read ≡ some cb
        → Told t u w
            (sys.call_read cb
              (usb_device_at u.devices t.user_data).user
              t.endpoint
              (transfer_data t)
              (callback_status t)
              u
              w).0
            (sys.call_read cb
              (usb_device_at u.devices t.user_data).user
              t.endpoint
              (transfer_data t)
              (callback_status t)
              u
              w).1
    told_write :
        (cb : Cb)
        → usbasync_check_device u.devices (pos t.user_data) ≡ true
        → is_cancelled t.status ≡ false
        → is_read t ≡ false
        → (usb_device_at u.devices t.user_data).fp_write ≡ some cb
        → Told t u w
            (sys.call_write cb
              (usb_device_at u.devices t.user_data).user
              t.endpoint
              (callback_status t)
              u
              w).0
            (sys.call_write cb
              (usb_device_at u.devices t.user_data).user
              t.endpoint
              (callback_status t)
              u
              w).1

  -- `usb_callback` returns once the end is told, without the entry of the transfer, and with the counts
  -- right.
  pub record EndsSound (t : Transfer) (u : Usb Cb) (w : sys.W) (out : Option (Usb Cb × sys.W))
      : Type 0 where
    pub between : Usb Cb
    pub world : sys.W
    pub told : Told t u w between world
    pub tables : Usb Cb
    pub final : sys.W
    pub returns : out ≡ some (tables, final)
    pub removed : tables.transfers ≡ unlisted t.address between.transfers
    pub usb : IsUsb tables

  removed-EndsSound :
      (t : Transfer) (u : Usb Cb) (w : sys.W) (u' : Usb Cb) (w' : sys.W)
      → Told t u w u' w'
      → t.user_data < usbasync_max_devices
      → IsSound t.address t.user_data u'
      → EndsSound t u w (some (remove_transfer sys t u' w'))
  removed-EndsSound t u w u' w' told h v = record {
    between = u';
    world = w';
    told = told;
    tables = (remove_transfer sys t u' w').0;
    final = (remove_transfer sys t u' w').1;
    returns = refl;
    removed = remove_transfer-unlisted t u' w';
    usb = remove_transfer-IsUsb t u' w' h v;
  }

  module _ (t : Transfer) (in_table : t.user_data < usbasync_max_devices)
      (read_keeps : (cb : Cb) (user : ℤ) (endpoint : ℕ) (bs : List ℕ) (status : ℤ) (u : Usb Cb)
          (w : sys.W)
        → IsSound t.address t.user_data u
        → IsSound t.address t.user_data (sys.call_read cb user endpoint bs status u w).0)
      (write_keeps : (cb : Cb) (user : ℤ) (endpoint : ℕ) (status : ℤ) (u : Usb Cb) (w : sys.W)
        → IsSound t.address t.user_data u
        → IsSound t.address t.user_data (sys.call_write cb user endpoint status u w).0) where
    -- If the callbacks of the device are registered and keep the counts right, and no other device
    -- has a transfer at the address of the one that ends, then `usb_callback` returns. A transfer
    -- that was cancelled, or whose device is not open any more, is told to nobody; any other is told
    -- once to the read or the write callback of its device, by its direction, with its data and
    -- status. What the table of transfers holds at the address after that is taken out of it, and the
    -- counts of pending transfers are right.
    pub usb_callback-EndsSound :
        (u : Usb Cb) (w : sys.W) (r s : Cb)
        → (usb_device_at u.devices t.user_data).fp_read ≡ some r
        → (usb_device_at u.devices t.user_data).fp_write ≡ some s
        → IsSound t.address t.user_data u
        → EndsSound t u w (usb_callback sys t u w)
    unfolding usb_callback
    usb_callback-EndsSound u w r s reads writes v =
        let d = usb_device_at u.devices t.user_data in
        elim (Bool-cases (usbasync_check_device u.devices (pos t.user_data))) [
          | inr closed ↦ rw closed (removed-EndsSound t u w u w (untold (inl closed)) in_table v)
          | inl open_now ↦ rw open_now (elim (Bool-cases (is_cancelled t.status)) [
            | inl silent ↦ rw silent (removed-EndsSound t u w u w (untold (inr silent)) in_table v)
            | inr ended ↦ rw ended (elim (Bool-cases (is_read t)) [
              | inl read ↦
                  rw (read, reads)
                    (removed-EndsSound t u w _ _ (told_read r open_now ended read reads) in_table
                      (read_keeps r d.user t.endpoint (transfer_data t) (callback_status t) u w v))
              | inr write ↦
                  rw (write, writes)
                    (removed-EndsSound t u w _ _ (told_write s open_now ended write writes) in_table
                      (write_keeps s d.user t.endpoint (callback_status t) u w v))
            ])
          ])
        ]
