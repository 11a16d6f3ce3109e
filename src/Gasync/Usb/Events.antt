-- ===== src/Gasync/Usb/Events.antt =====
-- usb/gusb.c of sw/lib/gasync: the handling of libusb's events, the cancelling of the transfers of a
-- device, the registration of its callbacks, and the synchronous transfers.
pub mod Draining
use serialusb.Common.{
  ℕ, zero, suc, ◌+◌, ◌*◌, Bool, true, false, ◌||◌, ◌&&◌, not, Option, none, some, List, [], ◌∷◌,
  if◌then◌else◌, ◌==◌, get_or, set, ◌>>=◌,
}
use serialusb.Common.Int.{ℤ, pos, negsuc, minus_one, is_nonzero, is_minus_one, to_nat}
use serialusb.Gasync.Usb.{
  Usb, UsbDevice, Transfer, usb_device_at, usbasync_check_device, get_endpoint, no_endpoint,
  type_interrupt,
}
use serialusb.Gasync.Usb.Calls.{Libusb}
use serialusb.Gasync.Usb.Transfers.{usb_callback}

-- ret != LIBUSB_SUCCESS && ret != LIBUSB_ERROR_TIMEOUT
abbrev pub is_failure : ℤ → Bool
is_failure (pos n) = not (n == 0)
is_failure (negsuc n) = not (n == 6)

module _ {Cb : Type 0} (sys : Libusb Cb) where
  open sys use {W}

  -- libusb calls `usb_callback` for the transfers that have ended, one after the other.
  unfoldable pub run_callbacks : List Transfer → Usb Cb → W → Option (Usb Cb × W)
  unfolding usb_callback
  run_callbacks [] u w = some (u, w)
  run_callbacks (t ∷ ts) u w = usb_callback sys t u w >>= λ (u', w'). run_callbacks ts u' w'

  unfoldable pub gusb_handle_events : Usb Cb → W → Option (Usb Cb × W × ℤ)
  unfolding run_callbacks
  gusb_handle_events u w =
      let (w', ended, ret) = sys.handle_events w in
      run_callbacks ended u w' >>= λ (u'', w''). some (u'', w'', ret)

  -- The `for` of `cancel_transfers`, over the transfers in the table.
  unfoldable pub cancel_each : ℕ → List Transfer → W → W
  cancel_each device [] w = w
  cancel_each device (t ∷ ts) w =
      cancel_each device ts (if t.user_data == device then sys.cancel_transfer t.address w else w)

  -- The `while` of `cancel_transfers`, on fuel.
  unfoldable pub drain : ℕ → ℕ → Usb Cb → W → Option (Usb Cb × W)
  unfolding gusb_handle_events
  drain zero device u w = none
  drain (suc fuel) device u w =
      let again = gusb_handle_events u w >>= λ (u', w', ret).
      if is_nonzero ret then some (u', w') else drain fuel device u' w' in
      if is_nonzero (usb_device_at u.devices device).pending_transfers then again else some (u, w)

  unfoldable pub cancel_transfers : ℕ → ℕ → Usb Cb → W → Option (Usb Cb × W)
  unfolding cancel_each drain
  cancel_transfers fuel device u w = drain fuel device u (cancel_each device u.transfers w)

  -- The buffer is given back with the result: a read changes it.
  unfoldable pub transfer_timeout : UsbDevice Cb → ℕ → ℕ → List ℕ → ℕ → ℕ → W → W × ℤ × List ℕ
  transfer_timeout d index direction buf count timeout w =
      let e =
        if direction == 1
        then get_or d.ins index no_endpoint
        else get_or d.outs index no_endpoint in
      let (w', ret, transfered, buf') =
        sys.interrupt_transfer d.devh (index + 1 + 128 * direction) buf count timeout w in
      if e.type == type_interrupt
      then (if is_failure ret then (w', minus_one, buf') else (w', transfered, buf'))
      else (w, minus_one, buf)

  unfoldable pub gusb_write_timeout : Usb Cb → ℤ → ℕ → List ℕ → ℕ → ℕ → W → W × ℤ
  unfolding transfer_timeout usbasync_check_device get_endpoint
  gusb_write_timeout u device endpoint buf count timeout w =
      let d = usb_device_at u.devices (to_nat device) in
      if usbasync_check_device u.devices device
      then (elim (get_endpoint d endpoint 0 count) [
        | none ↦ (w, minus_one)
        | some index ↦
            let (w', ret, buf') = transfer_timeout d index 0 buf count timeout w in (w', ret)
      ])
      else (w, minus_one)

  unfoldable pub gusb_read_timeout : Usb Cb → ℤ → ℕ → List ℕ → ℕ → ℕ → W → W × ℤ × List ℕ
  unfolding transfer_timeout usbasync_check_device get_endpoint
  gusb_read_timeout u device endpoint buf count timeout w =
      let d = usb_device_at u.devices (to_nat device) in
      if usbasync_check_device u.devices device
      then (elim (get_endpoint d endpoint 1 count) [
        | none ↦ (w, minus_one, buf)
        | some index ↦ transfer_timeout d index 1 buf count timeout w
      ])
      else (w, minus_one, buf)

  -- `none` is a call through NULL.
  unfoldable pub close_callback : ℤ → Usb Cb → W → Option (Usb Cb × W × ℤ)
  unfolding usbasync_check_device
  close_callback device u w =
      let d = usb_device_at u.devices (to_nat device) in
      if usbasync_check_device u.devices device
      then (d.fp_close >>= λ cb. some (sys.call_close cb d.user u w))
      else some (u, w, minus_one)

  -- The descriptors are registered up to the first failure.
  unfoldable pub register_all : ℤ → List ℤ → W → W × ℤ
  register_all device [] w = (w, pos 0)
  register_all device (fd ∷ fds) w =
      let (w', ret) = sys.register fd device w in
      let later = register_all device fds w' in
      let here = if is_minus_one ret then (w', ret) else later in
      elim fds [ [] ↦ (w', ret) | _ ∷ _ ↦ here ]

  unfoldable pub gusb_register : ℤ → ℤ → Cb → Cb → Cb → Usb Cb → W → Usb Cb × W × ℤ
  unfolding usbasync_check_device register_all
  gusb_register device user fp_read fp_write fp_close u w =
      let (w', fds) = sys.pollfds w in
      let (w'', ret) = register_all device fds w' in
      let d = usb_device_at u.devices (to_nat device) in
      if usbasync_check_device u.devices device
      then (if is_minus_one ret then (u, w'', ret) else (
        record u {
          devices = set u.devices (to_nat device) (record d {
            user = user;
            fp_read = some fp_read;
            fp_write = some fp_write;
            fp_close = some fp_close;
          });
        },
        w'',
        ret,
      ))
      else (u, w, minus_one)
