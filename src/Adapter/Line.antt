-- ===== src/Adapter/Line.antt =====
-- What adapter.c uses of the serial layer (sw/lib/gasync/include/gserial.h), as an interface: the
-- state of the layer, its operations, what has been written to a port, and the laws of these.
use serialusb.Common.{ℕ, ◌≡◌, ◌++◌, List, [], ◌∷◌}
use serialusb.Common.Int.{ℤ}

pub record Serial : Type 1 where
  pub W : Type 0
  -- `gserial_open(port, baudrate)`, `gserial_close(device)`
  pub open_port : List ℕ → ℕ → W → W × ℤ
  pub close_port : ℤ → W → W × ℤ
  -- `gserial_register(device, user, ...)`
  pub register : ℤ → ℕ → W → W × ℤ
  -- `gserial_write(device, buf, count)`, `gserial_set_read_size(device, size)`
  pub write : ℤ → List ℕ → W → W × ℤ
  pub set_read_size : ℤ → ℕ → W → W × ℤ
  -- The buffers handed to a port so far, oldest first.
  pub sent : ℤ → W → List (List ℕ)
  pub IsOpen : ℤ → W → Type 0
  pub write-IsOpen : (s : ℤ) (bs : List ℕ) (w : W) → IsOpen s w → IsOpen s (write s bs w).0
  pub sent-write :
      (s : ℤ) (bs : List ℕ) (w : W) → IsOpen s w → sent s (write s bs w).0 ≡ sent s w ++ (bs ∷ [])
