-- ===== src/Gasync/Async.antt =====
-- common/linux/async.c of sw/lib/gasync: the table of opened devices, their reads and their writes. The
-- calls of the system, the registration and the callbacks are an interface.
pub mod Reading
pub mod Opening
mod Tests
use serialusb.Common.{
  ℕ, zero, suc, ◌+◌, ◌-◌, ◌/◌, ◌*◌, Bool, true, false, ◌&&◌, ◌||◌, not, Option, none, some, List,
  [], ◌∷◌, ◌++◌, if◌then◌else◌, leb, ltb, ◌==◌, get_or, set, replicate, drop, length, ◌>>=◌,
}
use serialusb.Common.Int.{ℤ, pos, negsuc, minus_one, is_neg, is_minus_one, to_nat}

abbrev pub async_max_devices : ℕ
async_max_devices = 256

-- An `s_device`: `read_size` bytes are allocated at `read.buf`, of which `read_count` are used.
pub record Device (Cb : Type 0) : Type 0 where
  pub fd : ℤ
  pub path : Option (List ℕ)
  pub read_count : ℕ
  pub read_size : ℕ
  pub user : ℤ
  pub fp_read : Option Cb
  pub fp_close : Option Cb

-- `allocate` is whether `strdup` or `realloc` finds memory; `read` gives the bytes, or none for -1;
-- `select` its result, and whether the descriptor is set then; `call` calls a read callback with the
-- bytes and the status, and `call_close` a close callback.
pub record Files (Cb : Type 0) : Type 1 where
  pub W : Type 0
  pub open_file : List ℕ → W → W × ℤ
  pub close_file : ℤ → W → W
  pub allocate : W → W × Bool
  pub read : ℤ → ℕ → W → W × Option (List ℕ)
  pub write : ℤ → List ℕ → W → W × ℤ
  pub select : ℤ → W → W × ℤ × Bool
  pub register : ℤ → ℕ → W → W × ℤ
  pub call : Cb → ℤ → List ℕ → ℤ → W → W × ℤ
  pub call_close : Cb → ℤ → W → W × ℤ

abbrev pub no_device : {Cb : Type 0} → Device Cb
no_device = record {
  fd = minus_one;
  path = none;
  read_count = 0;
  read_size = 0;
  user = pos 0;
  fp_read = none;
  fp_close = none;
}

pub async_init : (Cb : Type 0) → List (Device Cb)
async_init Cb = replicate 256 no_device

-- strcmp(a, b) == 0
abbrev pub same_path : List ℕ → List ℕ → Bool
same_path [] [] = true
same_path (x ∷ xs) (y ∷ ys) = (x == y) && same_path xs ys
same_path _ _ = false

-- The bytes read so far, after one more read.
abbrev pub joined : List ℕ → Option (List ℕ) → List ℕ
joined got none = got
joined got (some bs) = got ++ bs

abbrev pub has_path : Option (List ℕ) → List ℕ → Bool
has_path none path = false
has_path (some p) path = same_path p path

module _ {Cb : Type 0} where
  abbrev pub device_at : List (Device Cb) → ℕ → Device Cb
  device_at t i = get_or t i no_device

  -- Whether `async_check_device` returns 0.
  unfoldable pub async_check_device : List (Device Cb) → ℤ → Bool
  async_check_device t (negsuc n) = false
  async_check_device t (pos i) =
      if leb async_max_devices i then false else not (is_minus_one (device_at t i).fd)

  unfoldable pub is_opened : List ℕ → List (Device Cb) → Bool
  is_opened path [] = false
  is_opened path (d ∷ t) = has_path d.path path || is_opened path t

  unfoldable pub free_device : ℕ → List (Device Cb) → Option ℕ
  free_device i [] = none
  free_device i (d ∷ t) =
      let later = free_device (i + 1) t in if is_minus_one d.fd then some i else later

module _ {Cb : Type 0} (sys : Files Cb) where
  open sys use {W}

  unfoldable pub add_device : List ℕ → ℤ → List (Device Cb) → W → List (Device Cb) × W × ℤ
  unfolding is_opened free_device
  add_device path fd t w = if is_opened path t then (t, w, minus_one) else elim (free_device 0 t) [
    | none ↦ (t, w, minus_one)
    | some i ↦
        let (w', found) = sys.allocate w in
        if found
        then (set t i (record (device_at t i) { path = some path; fd = fd }), w', pos i)
        else (t, w', minus_one)
  ]

  -- `path` is `none` for NULL.
  unfoldable pub async_open_path : Option (List ℕ) → List (Device Cb) → W → List (Device Cb) × W × ℤ
  unfolding add_device
  async_open_path none t w = (t, w, minus_one)
  async_open_path (some path) t w =
      let (w', fd) = sys.open_file path w in
      let (t', w'', ret) = add_device path fd t w' in
      if is_minus_one fd
      then (t, w', minus_one)
      else (if is_minus_one ret then (t', sys.close_file fd w'', ret) else (t', w'', ret))

  unfoldable pub async_close : List (Device Cb) → ℤ → W → List (Device Cb) × W × ℤ
  unfolding async_check_device
  async_close t device w =
      if async_check_device t device
      then (
        set t (to_nat device) no_device,
        sys.close_file (device_at t (to_nat device)).fd w,
        pos 0,
      )
      else (t, w, minus_one)

  -- The loop over the devices from `i` on, `n` of them.
  unfoldable pub async_clean : ℕ → ℕ → List (Device Cb) → W → List (Device Cb) × W
  unfolding async_close
  async_clean zero i t w = (t, w)
  async_clean (suc n) i t w =
      let (t', w', ret) = async_close t (pos i) w in
      if is_neg (device_at t i).fd then async_clean n (i + 1) t w else async_clean n (i + 1) t' w'

  -- The `while` of `async_read_timeout`, on fuel, with the bytes read so far. The result 4 of `select`
  -- is EINTR.
  unfoldable pub read_loop : ℕ → ℤ → ℕ → List ℕ → W → Option (W × List ℕ)
  read_loop zero fd count got w = none
  read_loop (suc fuel) fd count got w =
      let (w1, status, is_set) = sys.select fd w in
      let (w2, res) = sys.read fd (count - length got) w1 in
      let got' = joined got res in
      let again =
        if is_set then read_loop fuel fd count got' w2 else read_loop fuel fd count got w1 in
      if length got == count
      then some (w, got)
      else (if is_neg status || (to_nat status == 0) then some (w1, got) else again)

  -- The bytes read; their number is the result of the code.
  unfoldable pub async_read_timeout :
      ℕ → List (Device Cb) → ℤ → ℕ → W → Option (W × Option (List ℕ))
  unfolding read_loop async_check_device
  async_read_timeout fuel t device count w =
      if async_check_device t device
      then (read_loop fuel (device_at t (to_nat device)).fd count [] w >>= λ (w', got).
          some (w', some got))
      else some (w, none)

  -- The `while` of `async_write_timeout`, on fuel, with the bytes that are left and the number written.
  unfoldable pub write_loop : ℕ → ℤ → List ℕ → ℕ → W → Option (W × ℕ)
  write_loop zero fd left written w = none
  write_loop (suc fuel) fd left written w =
      let (w1, status, is_set) = sys.select fd w in
      let (w2, res) = sys.write fd left w1 in
      let n = to_nat res in
      let again =
        if is_set
        then write_loop fuel fd (drop n left) (written + n) w2
        else write_loop fuel fd left written w1 in
      if length left == 0
      then some (w, written)
      else (if is_neg status || (to_nat status == 0) then some (w1, written) else again)

  unfoldable pub async_write_timeout : ℕ → List (Device Cb) → ℤ → List ℕ → W → Option (W × ℤ)
  unfolding write_loop async_check_device
  async_write_timeout fuel t device buf w =
      if async_check_device t device
      then (write_loop fuel (device_at t (to_nat device)).fd buf 0 w >>= λ (w', n).
          some (w', pos n))
      else some (w, minus_one)

  -- `none` is a call through NULL.
  unfoldable pub read_callback : List (Device Cb) → ℕ → W → Option (W × ℤ)
  unfolding async_check_device
  read_callback t i w =
      let d = device_at t i in
      let (w', res) = sys.read d.fd d.read_count w in
      if async_check_device t (pos i)
      then (d.fp_read >>= λ cb. some (elim res [
        | none ↦ sys.call cb d.user [] minus_one w'
        | some bs ↦ sys.call cb d.user bs (pos (length bs)) w'
      ]))
      else some (w, minus_one)

  unfoldable pub close_callback : List (Device Cb) → ℕ → W → Option (W × ℤ)
  unfolding async_check_device
  close_callback t i w =
      let d = device_at t i in
      if async_check_device t (pos i)
      then (d.fp_close >>= λ cb. some (sys.call_close cb d.user w))
      else some (w, minus_one)

  unfoldable pub async_set_read_size : List (Device Cb) → ℤ → ℕ → W → List (Device Cb) × W × ℤ
  unfolding async_check_device
  async_set_read_size t device size w =
      let d = device_at t (to_nat device) in
      let (w', found) = sys.allocate w in
      if not (async_check_device t device)
      then (t, w, minus_one)
      else (if ltb d.read_size size
          then (if found
              then (
                set t (to_nat device) (record d { read_size = size; read_count = size }),
                w',
                pos 0,
              )
              else (t, w', minus_one))
          else (set t (to_nat device) (record d { read_count = size }), w, pos 0))

  unfoldable pub async_register : List (Device Cb) → ℤ → ℤ → Cb → Cb → W → List (Device Cb) × W × ℤ
  unfolding async_check_device
  async_register t device user fp_read fp_close w =
      let d = device_at t (to_nat device) in
      let (w', ret) = sys.register d.fd (to_nat device) w in
      if async_check_device t device
      then (
        set t (to_nat device)
            (record d { user = user; fp_read = some fp_read; fp_close = some fp_close }),
        w',
        ret,
      )
      else (t, w, minus_one)

  unfoldable pub async_write : List (Device Cb) → ℤ → List ℕ → W → W × ℤ
  unfolding async_check_device
  async_write t device buf w =
      if async_check_device t device
      then sys.write (device_at t (to_nat device)).fd buf w
      else (w, minus_one)
