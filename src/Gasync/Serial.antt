-- ===== src/Gasync/Serial.antt =====
-- serial/linux/gserial.c of sw/lib/gasync: the opening and the parameters of a serial port, over the
-- devices of async.c. The calls of the terminal and SPI drivers are an interface.
pub mod Opening
mod Tests
use serialusb.Common.{
  ℕ, Bool, true, false, ◌&&◌, ◌||◌, Option, none, some, List, [], ◌∷◌, if◌then◌else◌, ◌==◌,
}
use serialusb.Common.Int.{ℤ, pos, minus_one, is_neg, to_nat}
use serialusb.Gasync.Async.{
  Device, Files, device_at, async_open_path, async_close, async_read_timeout, async_write_timeout,
  async_set_read_size, async_register, async_write,
}

-- The requests of `ioctl` to an SPI device, with their arguments.
pub data SpiRequest : Type 0 where
  max_speed_hz : ℕ → SpiRequest
  write_bits read_bits write_mode read_mode : SpiRequest

-- `Options` is a `struct termios`; an `ioctl` and the two `tc...attr` give the C result.
pub record Terminals (Cb : Type 0) : Type 1 where
  pub files : Files Cb
  pub Options : Type 0
  pub tcgetattr : ℤ → files.W → files.W × ℤ × Options
  pub cfsetispeed : ℕ → Options → Options
  pub cfsetospeed : ℕ → Options → Options
  pub cfmakeraw : Options → Options
  pub tcsetattr : ℤ → Options → files.W → files.W × ℤ
  pub tcflush : ℤ → files.W → files.W
  pub ioctl : ℤ → SpiRequest → files.W → files.W × ℤ
  pub usleep : ℕ → files.W → files.W

-- The rates that termios has a constant for. The constant B<n> is written n.
abbrev pub rates : List ℕ
rates =
    50 ∷ 75 ∷ 110 ∷ 134 ∷ 150 ∷ 200 ∷ 300 ∷ 600 ∷ 1200 ∷ 1800 ∷ 2400 ∷ 4800 ∷ 9600 ∷ 19200 ∷ 38400
    ∷ 57600 ∷ 115200 ∷ 230400 ∷ 460800 ∷ 500000 ∷ 576000 ∷ 921600 ∷ 1000000 ∷ 1152000 ∷ 1500000
    ∷ 2000000 ∷ 2500000 ∷ 3000000 ∷ 3500000 ∷ 4000000 ∷ []

unfoldable pub find_rate : ℕ → List ℕ → ℕ
find_rate b [] = 0
find_rate b (r ∷ rs) = let later = find_rate b rs in if b == r then r else later

unfoldable pub get_baudrate : ℕ → ℕ
unfolding find_rate
get_baudrate baudrate = find_rate baudrate rates

-- strstr(s, t) != NULL
abbrev pub starts_with : List ℕ → List ℕ → Bool
starts_with [] s = true
starts_with (x ∷ t) [] = false
starts_with (x ∷ t) (y ∷ s) = (x == y) && starts_with t s

unfoldable pub strstr : List ℕ → List ℕ → Bool
strstr t [] = starts_with t []
strstr t (y ∷ s) = starts_with t (y ∷ s) || strstr t s

-- "tty" and "spi"
abbrev pub tty : List ℕ
tty = 116 ∷ 116 ∷ 121 ∷ []

abbrev pub spi : List ℕ
spi = 115 ∷ 112 ∷ 105 ∷ []

module _ {Cb : Type 0} (sys : Terminals Cb) where
  open sys use {files}

  unfoldable pub tty_set_params : ℤ → ℕ → files.W → files.W × ℤ
  tty_set_params fd speed w =
      let (w1, got, options) = sys.tcgetattr fd w in
      let raw = sys.cfmakeraw (sys.cfsetospeed speed (sys.cfsetispeed speed options)) in
      let (w2, ret) = sys.tcsetattr fd raw w1 in
      if is_neg got
      then (w1, minus_one)
      else (if is_neg ret then (w2, minus_one) else (sys.tcflush fd w2, pos 0))

  -- Requests are made one after the other, up to the first that fails.
  unfoldable pub ioctl_all : ℤ → List SpiRequest → files.W → files.W × ℤ
  ioctl_all fd [] w = (w, pos 0)
  ioctl_all fd (r ∷ rs) w =
      let (w', ret) = sys.ioctl fd r w in
      let later = ioctl_all fd rs w' in if is_neg ret then (w', minus_one) else later

  unfoldable pub spi_set_params : ℤ → ℕ → files.W → files.W × ℤ
  unfolding ioctl_all
  spi_set_params fd baudrate w =
      ioctl_all fd (max_speed_hz baudrate ∷ write_bits ∷ read_bits ∷ write_mode ∷ read_mode ∷ []) w

  -- The parameters that the name of the port asks for.
  unfoldable pub set_params : List ℕ → ℕ → ℤ → files.W → files.W × ℤ
  unfolding tty_set_params spi_set_params strstr
  set_params port baudrate fd w =
      if strstr tty port
      then (if get_baudrate baudrate == 0
          then (w, minus_one)
          else tty_set_params fd (get_baudrate baudrate) w)
      else (if strstr spi port then spi_set_params fd baudrate w else (w, pos 0))

  unfoldable pub gserial_open :
      List ℕ → ℕ → List (Device Cb) → files.W → List (Device Cb) × files.W × ℤ
  unfolding set_params
  gserial_open port baudrate t w =
      let (t1, w1, device) = async_open_path files (some port) t w in
      let (w2, ret) = set_params port baudrate (device_at t1 (to_nat device)).fd w1 in
      let (t3, w3, closed) = async_close files t1 device w2 in
      if is_neg device
      then (t1, w1, minus_one)
      else (if is_neg ret then (t3, w3, minus_one) else (t1, w2, device))

  abbrev pub gserial_read_timeout :
      ℕ → List (Device Cb) → ℤ → ℕ → files.W → Option (files.W × Option (List ℕ))
  gserial_read_timeout = async_read_timeout files

  abbrev pub gserial_set_read_size :
      List (Device Cb) → ℤ → ℕ → files.W → List (Device Cb) × files.W × ℤ
  gserial_set_read_size = async_set_read_size files

  abbrev pub gserial_register :
      List (Device Cb) → ℤ → ℤ → Cb → Cb → files.W → List (Device Cb) × files.W × ℤ
  gserial_register = async_register files

  abbrev pub gserial_write_timeout :
      ℕ → List (Device Cb) → ℤ → List ℕ → files.W → Option (files.W × ℤ)
  gserial_write_timeout = async_write_timeout files

  abbrev pub gserial_write : List (Device Cb) → ℤ → List ℕ → files.W → files.W × ℤ
  gserial_write = async_write files

  -- The pause leaves time for the last packet to be sent.
  unfoldable pub gserial_close : List (Device Cb) → ℤ → files.W → List (Device Cb) × files.W × ℤ
  gserial_close t device w = async_close files t device (sys.usleep 10000 w)
