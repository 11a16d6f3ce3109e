-- ===== src/Gasync/Usb/Transfers/Writing.antt =====
-- `gusb_write` to an OUT endpoint: which transfer starts, and what the tables are if none does.
use serialusb.Common.{
  ℕ, ◌%◌, ◌^◌, ◌+◌, ◌<◌, ◌≡◌, refl, inl, inr, Bool, true, false, ◌||◌, not, Option, some, List,
  ◌==◌, arith, Bool-cases, Option-cases, leb, length, take-all,
}
use serialusb.Common.Int.{ℤ, pos, minus_one, to_nat}
use serialusb.Gasync.Usb.{
  Usb, usb_device_at, usbasync_check_device, is_some, get_endpoint, type_interrupt,
  usbasync_out_timeout,
}
use serialusb.Gasync.Usb.Calls.{Libusb}
use serialusb.Gasync.Usb.Transfers.{is_listed, filled_transfer, alloc_both, gusb_write}
use serialusb.Gasync.Usb.Transfers.Starting.{
  Submitted, refused, started, added, submit_transfer-Submitted, fresh_both,
}

module _ {Cb : Type 0} (sys : Libusb Cb) (u : Usb Cb) (device : ℤ) (endpoint : ℕ)
    (buf : List ℕ) where
  -- The call returns: refused, or with a transfer of all bytes to an OUT endpoint.
  pub data Written : Option (Usb Cb × sys.W × ℤ) → Type 0 where
    write_refused :
        {out : Option (Usb Cb × sys.W × ℤ)} (w : sys.W) → out ≡ some (u, w, minus_one) → Written out
    write_started :
        {out : Option (Usb Cb × sys.W × ℤ)} (a : ℕ) (w : sys.W)
        → usbasync_check_device u.devices device ≡ true
        → is_some (get_endpoint (usb_device_at u.devices (to_nat device)) endpoint 0 0) ≡ true
        → out
          ≡ some (
            added
                (filled_transfer a (to_nat device) endpoint type_interrupt usbasync_out_timeout buf)
                u,
            w,
            pos 0,
          )
        → Written out

  both_met : (a b : Bool) → (not a || not b) ≡ false → (a ≡ true) × (b ≡ true)
  both_met true true h = (refl, refl)
  both_met true false h = cc
  both_met false b h = cc

  Submitted-Written :
      (a : ℕ) (out : Usb Cb × sys.W × ℤ)
      → usbasync_check_device u.devices device ≡ true
      → is_some (get_endpoint (usb_device_at u.devices (to_nat device)) endpoint 0 0) ≡ true
      → Submitted sys
          (filled_transfer a (to_nat device) endpoint type_interrupt usbasync_out_timeout buf)
          u
          out
      → Written (some out)
  Submitted-Written a out c e (refused f g) = write_refused out.1 (rw (f, g) refl)
  Submitted-Written a out c e (started f g) = write_started a out.1 c e (rw (f, g) refl)

  -- Writing all bytes of a buffer to an endpoint other than 0 returns: with -1 and the tables as they
  -- were, or with 0 if the device is open and the endpoint is one of its OUT endpoints, when exactly
  -- one transfer is added, which carries the bytes of the buffer. A transfer that is allocated is
  -- taken not to be one of the table, and the buffer to be shorter than 2^32 bytes.
  pub gusb_write-Written :
      (fresh : (w : sys.W) (a : ℕ)
        → (sys.alloc_transfer w).1 ≡ some a
        → is_listed a u.transfers ≡ false)
      (w : sys.W)
      → (endpoint == 0) ≡ false
      → length buf < 2 ^ 32
      → Written (gusb_write sys device endpoint buf (length buf) u w)
  unfolding gusb_write
  gusb_write-Written fresh w other small =
      let d = usb_device_at u.devices (to_nat device) in
      let n : (length buf + 0) % 2 ^ 32 ≡ length buf = omega arith in
      let all = take-all (length buf) buf (omega arith) in
      let fits : leb (length buf) (length buf) ≡ true = ground arith in
      elim (Bool-cases (
        not (usbasync_check_device u.devices device)
        || not (is_some (get_endpoint d endpoint 0 0)))) [
          | inl bad ↦ rw (other, bad) (write_refused w refl)
          | inr good ↦
              let (c, e) = both_met _ _ good in
              rw (other, good, n)
                (elim (Bool-cases (is_some d.fp_write)) [
                  | inr missing ↦ rw missing (write_refused w refl)
                  | inl present ↦
                      rw (present, fits)
                        (elim (Option-cases (alloc_both sys w).1) [
                          | inl full ↦ rw full (write_refused (alloc_both sys w).0 refl)
                          | inr (a, got) ↦
                              rw (got, other, n, all)
                                (Submitted-Written a _ c e (
                                  submit_transfer-Submitted sys _ u (alloc_both sys w).0
                                    (fresh_both sys u fresh w a got)))
                        ])
                ])
        ]
