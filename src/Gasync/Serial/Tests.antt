-- ===== src/Gasync/Serial/Tests.antt =====
-- A terminal that takes every parameter, on a table without a device.
use serialusb.Common.{ℕ, ◌≡◌, refl, List, [], ◌∷◌, none, true, length, replicate}
use serialusb.Common.Int.{pos, minus_one}
use serialusb.Gasync.Async.{Device, Files, no_device}
use serialusb.Gasync.Serial.{Terminals, gserial_open, get_baudrate, strstr, tty}

abbrev files : Files ℕ
files = record {
  W = ℕ;
  open_file = λ path w. (w, pos 5);
  close_file = λ fd w. w;
  allocate = λ w. (w, true);
  read = λ fd n w. (w, none);
  write = λ fd bs w. (w, pos (length bs));
  select = λ fd w. (w, pos 1, true);
  register = λ fd i w. (w, pos 0);
  call = λ cb user bs status w. (w, pos 0);
  call_close = λ cb user w. (w, pos 1);
}

abbrev terminals : Terminals ℕ
terminals = record {
  files = files;
  Options = ℕ;
  tcgetattr = λ fd w. (w, pos 0, 0);
  cfsetispeed = λ speed o. speed;
  cfsetospeed = λ speed o. speed;
  cfmakeraw = λ o. o;
  tcsetattr = λ fd o w. (o, pos 0);
  tcflush = λ fd w. w;
  ioctl = λ fd r w. (w, minus_one);
  usleep = λ n w. w;
}

abbrev port : List ℕ
port = 47 ∷ 116 ∷ 116 ∷ 121 ∷ 85 ∷ []

abbrev no_devices : List (Device ℕ)
no_devices = replicate 256 no_device

baudrate_test : get_baudrate 500000 ≡ 500000
unfolding get_baudrate
baudrate_test = refl

tty_test : strstr tty port ≡ true
unfolding strstr
tty_test = refl

open_test : (gserial_open terminals port 500000 no_devices 0).1 ≡ 500000
unfolding gserial_open get_baudrate serialusb.Gasync.Async.async_open_path
open_test = refl
