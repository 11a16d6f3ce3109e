-- ===== src/Gasync/Usb/Transfers.antt =====
-- usb/gusb.c of sw/lib/gasync: the table of pending transfers, the calls that start a transfer, and
-- its end in `usb_callback`.
pub mod Pending
pub mod Starting
pub mod Writing
pub mod Ending
use serialusb.Common.{
  ℕ, zero, suc, ◌+◌, ◌*◌, ◌/◌, ◌%◌, ◌^◌, Bool, true, false, ◌&&◌, ◌||◌, not, Option, none, some,
  List, [], ◌∷◌, ◌++◌, if◌then◌else◌, ltb, ◌==◌, get_or, get_elem?, set, replicate, take, length,
  drop, ◌>>=◌, ◌>>◌, inside, leb,
}
use serialusb.Common.Int.{
  ℤ, pos, negsuc, minus_one, is_nonzero, is_minus_one, to_nat, increment, decrement,
}
use serialusb.Common.Bytes.{from_le16}
use serialusb.Gasync.Usb.{
  Usb, UsbDevice, is_some, Transfer, TransferStatus, completed, timed_out, cancelled, stall,
  usb_device_at, usbasync_check_device, get_endpoint, endpoint_of, direction_of, type_control,
  type_interrupt, usbasync_out_timeout, no_endpoint,
}
use serialusb.Gasync.Usb.Calls.{Libusb}

-- Whether a transfer stands in the table.
unfoldable pub is_listed : ℕ → List Transfer → Bool
is_listed a [] = false
is_listed a (x ∷ xs) = (x.address == a) || is_listed a xs

-- The table without the first entry for a transfer.
unfoldable pub unlisted : ℕ → List Transfer → List Transfer
unlisted a [] = []
unlisted a (x ∷ xs) = let rest = unlisted a xs in if x.address == a then xs else x ∷ rest

-- The table of devices with another number of pending transfers for one of them.
abbrev pub with_pending : {Cb : Type 0} → (ℤ → ℤ) → ℕ → List (UsbDevice Cb) → List (UsbDevice Cb)
with_pending f i t =
    set t i
      (record (usb_device_at t i) { pending_transfers = f (usb_device_at t i).pending_transfers })

-- The `status` that a callback is given, E_TRANSFER_TIMED_OUT -1, E_TRANSFER_STALL -2 and
-- E_TRANSFER_ERROR -3.
abbrev pub callback_status : Transfer → ℤ
callback_status t = elim t.status [
  | completed ↦ pos t.actual_length
  | timed_out ↦ negsuc 0
  | stall ↦ negsuc 1
  | _ ↦ negsuc 2
]

abbrev pub is_cancelled : TransferStatus → Bool
is_cancelled cancelled = true
is_cancelled _ = false

-- Whether the ended transfer goes to the read callback: a control transfer by the direction of its
-- request, another by that of its endpoint.
abbrev pub is_read : Transfer → Bool
is_read t =
    if t.type == type_control
    then direction_of (get_or t.buffer 0 0) == 1
    else direction_of t.endpoint == 1

-- The data of an ended transfer: those of a control transfer stand behind the 8 bytes of its setup.
abbrev pub transfer_data : Transfer → List ℕ
transfer_data t = if t.type == type_control then drop 8 t.buffer else t.buffer

-- A transfer as it is filled for an endpoint of a device.
abbrev pub filled_transfer : ℕ → ℕ → ℕ → ℕ → ℕ → List ℕ → Transfer
filled_transfer address device endpoint type timeout buffer = record {
  address = address;
  user_data = device;
  endpoint = endpoint;
  type = type;
  timeout = timeout;
  buffer = buffer;
  status = completed;
  actual_length = 0;
}

module _ {Cb : Type 0} (sys : Libusb Cb) where
  open sys use {W}

  unfoldable pub add_transfer : Transfer → Usb Cb → W → Usb Cb × W × ℤ
  unfolding is_listed
  add_transfer t u w =
      let (w', found) = sys.allocate w in
      if is_listed t.address u.transfers
      then (u, w, pos 0)
      else (if found
          then (
            record {
              devices = with_pending increment t.user_data u.devices;
              transfers = u.transfers ++ (t ∷ []);
            },
            w',
            pos 0,
          )
          else (u, w', minus_one))

  -- The table stays as it is, shortened, if it cannot be reallocated.
  unfoldable pub remove_transfer : Transfer → Usb Cb → W → Usb Cb × W
  unfolding is_listed unlisted
  remove_transfer t u w =
      if is_listed t.address u.transfers
      then (
        record {
          devices = with_pending decrement t.user_data u.devices;
          transfers = unlisted t.address u.transfers;
        },
        sys.free_transfer t.address (sys.allocate w).0,
      )
      else (u, w)

  -- LIBUSB_SUCCESS is 0.
  unfoldable pub submit_transfer : Transfer → Usb Cb → W → Usb Cb × W × ℤ
  unfolding add_transfer remove_transfer
  submit_transfer t u w =
      let (u1, w1, ret) = add_transfer t u w in
      let (w2, submitted) = sys.submit t w1 in
      let (u3, w3) = remove_transfer t u1 w2 in
      if is_minus_one ret
      then (u1, w1, ret)
      else (if is_nonzero submitted then (u3, w3, minus_one) else (u1, w2, submitted))

  -- The end of a transfer; `none` is a call through NULL.
  unfoldable pub usb_callback : Transfer → Usb Cb → W → Option (Usb Cb × W)
  unfolding usbasync_check_device remove_transfer
  usb_callback t u w =
      let d = usb_device_at u.devices t.user_data in
      let status = callback_status t in
      if not (usbasync_check_device u.devices (pos t.user_data)) || is_cancelled t.status
      then some (remove_transfer t u w)
      else (do
        (u', w') ←
            if is_read t
            then (d.fp_read >>= λ cb.
                some (sys.call_read cb d.user t.endpoint (transfer_data t) status u w))
            else (d.fp_write >>= λ cb. some (sys.call_write cb d.user t.endpoint status u w))
        some (remove_transfer t u' w'))

  -- The allocation of a buffer, then of a transfer.
  abbrev pub alloc_both : W → W × Option ℕ
  alloc_both w =
      let (w1, found) = sys.allocate w in
      let (w2, transfer) = sys.alloc_transfer w1 in if found then (w2, transfer) else (w1, none)

  unfoldable pub gusb_poll : ℤ → ℕ → Usb Cb → W → Usb Cb × W × ℤ
  unfolding usbasync_check_device get_endpoint submit_transfer
  gusb_poll device endpoint u w =
      let d = usb_device_at u.devices (to_nat device) in
      let e = endpoint_of d endpoint in
      let (w', allocated) = alloc_both w in
      if not (usbasync_check_device u.devices device)
        || not (is_some (get_endpoint d endpoint 1 0))
        || not (is_some d.fp_read)
      then (u, w, minus_one)
      else (elim allocated [
        | none ↦ (u, w', minus_one)
        | some a ↦
            if e.type == type_interrupt
            then submit_transfer
                (filled_transfer a (to_nat device) endpoint type_interrupt 0 (replicate e.size 0)) u
                w'
            else (u, sys.free_transfer a w', minus_one)
      ])

  -- wLength of the setup at the start of a control transfer whose request is an IN one, else 0; none is
  -- a read past the end.
  abbrev pub setup_length : List ℕ → Option ℕ
  setup_length buf = get_elem? buf 0 >>= λ request_type.
      if direction_of request_type == 1
      then (get_elem? buf 6 >>= λ lo. get_elem? buf 7 >>= λ hi. some (from_le16 lo hi))
      else some 0

  -- `buf` is what the caller holds from its pointer on, of which `count` bytes are meant; `none` is a
  -- read past its end.
  unfoldable pub gusb_write : ℤ → ℕ → List ℕ → ℕ → Usb Cb → W → Option (Usb Cb × W × ℤ)
  unfolding usbasync_check_device get_endpoint submit_transfer
  gusb_write device endpoint buf count u w =
      let d = usb_device_at u.devices (to_nat device) in
      let control = endpoint == 0 in
      let (w', allocated) = alloc_both w in
      if not (usbasync_check_device u.devices device)
        || (not control && not (is_some (get_endpoint d endpoint 0 0)))
      then some (u, w, minus_one)
      else ((if control then setup_length buf else some 0) >>= λ more.
          let n = (count + more) % 2 ^ 32 in
          if not (is_some d.fp_write)
          then some (u, w, minus_one)
          else (inside (leb n (length buf) || not (sys.allocate w).1)
              >> some (elim allocated [
                | none ↦ (u, w', minus_one)
                | some a ↦
                    submit_transfer
                      (if control
                        then filled_transfer a (to_nat device) 0 type_control 50 (take n buf)
                        else filled_transfer a (to_nat device) endpoint type_interrupt
                            usbasync_out_timeout (take n buf))
                      u w'
              ])))
