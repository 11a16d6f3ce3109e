-- ===== src/Gasync/Usb/Opening.antt =====
-- usb/gusb.c of sw/lib/gasync: the claiming, the opening and the closing of a USB device. This is the
-- code that is compiled for a libusb with LIBUSB_API_VERSION.
pub mod Claiming
use serialusb.Common.{
  ℕ, zero, suc, ◌+◌, ◌/◌, ◌%◌, Bool, true, false, ◌&&◌, ◌||◌, not, Option, none, some, List, [],
  ◌∷◌, ◌++◌, if◌then◌else◌, leb, ltb, ◌==◌, set, ◌>>=◌,
}
use serialusb.Common.Int.{ℤ, pos, minus_one, is_neg, is_nonzero, is_minus_one, to_nat}
use serialusb.Gasync.Async.{same_path, has_path}
use serialusb.Gasync.Usb.{
  Usb, UsbDevice, usb_device_at, no_usb_device, usbasync_max_devices, usbasync_check_device,
  is_some, UsbDescriptors,
}
use serialusb.Gasync.Usb.Calls.{Libusb}
use serialusb.Gasync.Usb.Events.{cancel_transfers}
use serialusb.Gasync.Usb.Reading.{get_descriptors}

-- The fields of a `libusb_device_descriptor` that are used.
pub record DeviceIds : Type 0 where
  pub id_vendor : ℕ
  pub id_product : ℕ
  pub b_num_configurations : ℕ

-- The calls of libusb that find, open and close devices. A device is a number, a handle none for NULL.
-- `ctx` is whether there is a context; `get_device_list` gives none for an error, and
-- `get_config_descriptor` the numbers of the interfaces of the first configuration.
pub record Bus (Cb : Type 0) : Type 1 where
  pub libusb : Libusb Cb
  pub ctx : libusb.W → Bool
  pub get_device_list : libusb.W → libusb.W × Option (List ℕ)
  pub free_device_list : libusb.W → libusb.W
  pub get_bus_number : ℕ → ℕ
  pub get_port_numbers : ℕ → Option (List ℕ)
  pub get_device_descriptor : ℕ → libusb.W → libusb.W × Option DeviceIds
  pub open_handle : ℕ → libusb.W → libusb.W × Option ℕ
  pub set_auto_detach : Option ℕ → libusb.W → libusb.W
  pub reset_device : Option ℕ → libusb.W → libusb.W × ℤ
  pub get_configuration : Option ℕ → libusb.W → libusb.W × Option ℕ
  pub set_configuration : Option ℕ → ℕ → libusb.W → libusb.W × ℤ
  pub get_device_of : Option ℕ → libusb.W → Option ℕ
  pub get_config_descriptor : ℕ → libusb.W → libusb.W × Option (List ℕ)
  pub free_config_descriptor : libusb.W → libusb.W
  pub claim_interface : Option ℕ → ℕ → libusb.W → libusb.W × ℤ
  pub release_interface : Option ℕ → ℕ → libusb.W → libusb.W × ℤ
  pub close_handle : Option ℕ → libusb.W → libusb.W

-- A digit of %02x.
abbrev pub hex_digit : ℕ → ℕ
hex_digit n = if ltb n 10 then 48 + n else 87 + n

-- The numbers as two digits each, with colons between them.
unfoldable pub path_string : List ℕ → List ℕ
path_string [] = []
path_string (n ∷ []) = hex_digit (n / 16 % 16) ∷ hex_digit (n % 16) ∷ []
path_string (n ∷ ns) = hex_digit (n / 16 % 16) ∷ hex_digit (n % 16) ∷ 58 ∷ path_string ns

module _ {Cb : Type 0} where
  unfoldable pub is_usb_opened : List ℕ → List (UsbDevice Cb) → Bool
  is_usb_opened path [] = false
  is_usb_opened path (d ∷ t) = has_path d.path path || is_usb_opened path t

  unfoldable pub free_usb_device : ℕ → List (UsbDevice Cb) → Option ℕ
  free_usb_device i [] = none
  free_usb_device i (d ∷ t) =
      let later = free_usb_device (i + 1) t in if is_some d.devh then later else some i

  -- The tables with another entry for a device.
  abbrev pub with_device : ℕ → UsbDevice Cb → Usb Cb → Usb Cb
  with_device i d u = record u { devices = set u.devices i d }

  unfoldable pub gusb_get_usb_descriptors : ℤ → Usb Cb → Option UsbDescriptors
  unfolding usbasync_check_device
  gusb_get_usb_descriptors device u =
      if usbasync_check_device u.devices device
      then some (usb_device_at u.devices (to_nat device)).descriptors
      else none

module _ {Cb : Type 0} (bus : Bus Cb) where
  open bus use {libusb}
  open libusb use {W}

  unfoldable pub make_path : ℕ → Option (List ℕ)
  unfolding path_string
  make_path dev =
      bus.get_port_numbers dev >>= λ ports. some (path_string (bus.get_bus_number dev ∷ ports))

  unfoldable pub add_device : List ℕ → Usb Cb → W → Usb Cb × W × ℤ
  unfolding is_usb_opened free_usb_device
  add_device path u w =
      if is_usb_opened path u.devices
      then (u, w, minus_one)
      else elim (free_usb_device 0 u.devices) [
        | none ↦ (u, w, minus_one)
        | some i ↦
            let (w', found) = libusb.allocate w in
            if found
            then (
              with_device i (record (usb_device_at u.devices i) { path = some path }) u,
              w',
              pos i,
            )
            else (u, w', minus_one)
      ]

  -- The `for` of `handle_interfaces`, up to the first failure: whether all interfaces are done.
  unfoldable pub handle_each : Bool → Option ℕ → List ℕ → W → W × Bool
  handle_each claim h [] w = (w, true)
  handle_each claim h (n ∷ ns) w =
      let (w', ret) = if claim then bus.claim_interface h n w else bus.release_interface h n w in
      let later = handle_each claim h ns w' in if is_nonzero ret then (w', false) else later

  unfoldable pub handle_interfaces : UsbDevice Cb → Bool → W → W × ℤ
  unfolding handle_each
  handle_interfaces d claim w = elim (bus.get_device_of d.devh w) [
    | none ↦ (w, minus_one)
    | some dev ↦
        let (w1, ids) = bus.get_device_descriptor dev w in
        elim ids [
          | none ↦ (w1, minus_one)
          | some desc ↦
              let (w2, configuration) = bus.get_config_descriptor dev w1 in
              if desc.b_num_configurations == 0 then (w1, pos 0) else (elim configuration [
                | none ↦ (w2, minus_one)
                | some interfaces ↦
                    let (w3, all_done) = handle_each claim d.devh interfaces w2 in
                    (bus.free_config_descriptor w3, if all_done then pos 0 else minus_one)
              ])
        ]
  ]

  -- What `claim_device` does with an opened handle, up to the reading of the descriptors: whether all
  -- of it succeeds.
  unfoldable pub prepare : UsbDevice Cb → W → W × Bool
  unfolding handle_interfaces
  prepare d w =
      let (w1, reset) = bus.reset_device d.devh (bus.set_auto_detach d.devh w) in
      let (w2, configuration) = bus.get_configuration d.devh w1 in
      let (w3, configured) = bus.set_configuration d.devh 1 w2 in
      if is_nonzero reset then (w1, false) else (elim configuration [
        | none ↦ (w2, false)
        | some n ↦
            let unset = n == 0 in
            let (w4, claimed) = handle_interfaces d true (if unset then w3 else w2) in
            if unset && is_nonzero configured then (w3, false) else (w4, not (is_neg claimed))
      ])

  unfoldable pub claim_device : ℕ → UsbDevice Cb → ℕ → W → Option (UsbDevice Cb × W × ℤ)
  unfolding prepare get_descriptors
  claim_device fuel d dev w =
      let (w1, handle) = bus.open_handle dev w in
      elim handle [
        | none ↦ some (d, w1, minus_one)
        | some h ↦
            let opened = record d { devh = some h } in
            let (w2, prepared) = prepare opened w1 in
            if prepared
            then (get_descriptors libusb fuel opened w2 >>= λ (d', w3, ret).
                some (d', w3, if is_neg ret then minus_one else pos 0))
            else some (opened, w2, minus_one)
      ]

  unfoldable pub gusb_close : ℕ → ℤ → Usb Cb → W → Option (Usb Cb × W × ℤ)
  unfolding cancel_transfers handle_interfaces
  gusb_close fuel device u w =
      let i = to_nat device in
      let d = usb_device_at u.devices i in
      let closing = with_device i (record d { closing = true }) u in
      if is_neg device || leb usbasync_max_devices i
      then some (u, w, minus_one)
      else (if is_some d.devh
          then (cancel_transfers libusb fuel i closing w >>= λ (u1, w1).
              let e = usb_device_at u1.devices i in
              let (w2, ret) = handle_interfaces e false w1 in
              some (with_device i no_usb_device u1, bus.close_handle e.devh w2, pos 1))
          else some (with_device i no_usb_device u, w, pos 1))

  -- The loop of `usbasync_clean` over `n` entries, from `i` on.
  unfoldable pub usbasync_clean : ℕ → ℕ → ℕ → Usb Cb → W → Option (Usb Cb × W)
  unfolding gusb_close
  usbasync_clean fuel zero i u w = some (u, w)
  usbasync_clean fuel (suc n) i u w =
      if is_some (usb_device_at u.devices i).devh
      then (gusb_close fuel (pos i) u w >>= λ (u', w', ret). usbasync_clean fuel n (i + 1) u' w')
      else usbasync_clean fuel n (i + 1) u w

  -- An entry for a device that is wanted: it is taken, claimed, and closed again if that fails.
  unfoldable pub open_one : ℕ → List ℕ → ℕ → Usb Cb → W → Option (Usb Cb × W × ℤ)
  unfolding add_device claim_device gusb_close
  open_one fuel path dev u w =
      let (u1, w1, device) = add_device path u w in
      let i = to_nat device in
      if is_neg device
      then some (u1, w1, minus_one)
      else (claim_device fuel (usb_device_at u1.devices i) dev w1 >>= λ (d, w2, ret).
          if is_minus_one ret
          then (gusb_close fuel device (with_device i d u1) w2 >>= λ (u3, w3, closed).
              some (u3, w3, minus_one))
          else some (with_device i d u1, w2, device))
