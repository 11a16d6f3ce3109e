-- ===== src/Gasync/Usb/Calls.antt =====
-- What usb/gusb.c of sw/lib/gasync calls: libusb, the memory and the user's callbacks.
use serialusb.Common.{ℕ, Bool, Option, List}
use serialusb.Common.Int.{ℤ}
use serialusb.Gasync.Usb.{Usb, Transfer}

-- `submit` is `libusb_submit_transfer`; `allocate` is whether the memory asked for is found, `alloc_transfer` the address of a transfer.
-- A handle is none for NULL. `interrupt_transfer` has the handle, the endpoint, the buffer, the count
-- and the timeout, and gives its result, the value of `transfered` (-1 before) and the buffer;
-- `control_transfer` has the handle, bmRequestType, bRequest, wValue, wIndex, wLength and the timeout,
-- and gives the bytes read, none for an error. A callback may use the library again: it acts on the
-- tables, too. `uninitialised` is what the given number of bytes on the stack hold. `handle_events` gives the
-- transfers that end during the call, in order, and its result; `pollfds` the descriptors that libusb
-- waits for, and `register` registers one with its device.
pub record Libusb (Cb : Type 0) : Type 1 where
  pub W : Type 0
  pub allocate : W → W × Bool
  pub uninitialised : ℕ → W → List ℕ
  pub alloc_transfer : W → W × Option ℕ
  pub free_transfer : ℕ → W → W
  pub submit : Transfer → W → W × ℤ
  pub cancel_transfer : ℕ → W → W
  pub interrupt_transfer : Option ℕ → ℕ → List ℕ → ℕ → ℕ → W → W × ℤ × ℤ × List ℕ
  pub control_transfer : Option ℕ → ℕ → ℕ → ℕ → ℕ → ℕ → ℕ → W → W × Option (List ℕ)
  pub handle_events : W → W × List Transfer × ℤ
  pub pollfds : W → W × List ℤ
  pub register : ℤ → ℤ → W → W × ℤ
  pub call_read : Cb → ℤ → ℕ → List ℕ → ℤ → Usb Cb → W → Usb Cb × W
  pub call_write : Cb → ℤ → ℕ → ℤ → Usb Cb → W → Usb Cb × W
  pub call_close : Cb → ℤ → Usb Cb → W → Usb Cb × W × ℤ
