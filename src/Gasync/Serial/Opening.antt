-- ===== src/Gasync/Serial/Opening.antt =====
-- `gserial_open`: what a serial port leaves in the table of devices, whichever step fails.
use serialusb.Common.{ℕ, ◌<◌, ◌≡◌, some, List, false, length, set}
use serialusb.Common.Int.{ℤ, pos, minus_one, is_neg, is_minus_one}
use serialusb.Gasync.Async.{Device, no_device, device_at}
use serialusb.Gasync.Async.Opening.{IsClean}
use serialusb.Gasync.Serial.{Terminals, set_params}

module _ {Cb : Type 0} (sys : Terminals Cb) (t : List (Device Cb)) (v : IsClean t) (port : List ℕ)
    (baudrate : ℕ) (w : sys.files.W) where
  abbrev pub opened : ℤ
  opened = (sys.files.open_file port w).1

  -- The entry of the table that a port takes.
  abbrev pub port_device : Device Cb
  port_device = record no_device { path = some port; fd = opened }

  pub data OpenedPort : List (Device Cb) × sys.files.W × ℤ → Type 0 where
    port_refused :
        {out : List (Device Cb) × sys.files.W × ℤ}
        → out ≡ (t, (sys.files.open_file port w).0, minus_one)
        → OpenedPort out
    port_closed :
        {out : List (Device Cb) × sys.files.W × ℤ} (w' : sys.files.W)
        → out ≡ (t, sys.files.close_file opened w', minus_one)
        → OpenedPort out
    port_opened :
        {out : List (Device Cb) × sys.files.W × ℤ} (i : ℕ) (w' : sys.files.W)
        → i < length t
        → device_at t i ≡ no_device
        → is_minus_one opened ≡ false
        → is_neg (set_params sys port baudrate opened w').1 ≡ false
        → out ≡ (set t i port_device, (set_params sys port baudrate opened w').0, pos i)
        → OpenedPort out
