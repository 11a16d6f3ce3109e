-- ===== src/Gasync/Usb/Finding.antt =====
-- usb/gusb.c of sw/lib/gasync: the enumeration of USB devices, and the search for one to open.
pub mod Chain
pub mod Searching
mod Tests
use serialusb.Common.{
  ℕ, zero, suc, ◌+◌, ◌/◌, ◌%◌, Bool, true, false, ◌&&◌, ◌||◌, not, Option, none, some, List, [],
  ◌∷◌, ◌++◌, if◌then◌else◌, leb, ltb, ◌==◌, set, ◌>>=◌,
}
use serialusb.Common.Int.{ℤ, pos, minus_one, is_neg, is_nonzero, is_minus_one, to_nat}
use serialusb.Gasync.Async.{same_path, has_path}
use serialusb.Gasync.Usb.{
  Usb, UsbDevice, usb_device_at, no_usb_device, usbasync_max_devices, usbasync_check_device,
  is_some, UsbDescriptors,
}
use serialusb.Gasync.Usb.Calls.{Libusb}
use serialusb.Gasync.Usb.Events.{cancel_transfers}
use serialusb.Gasync.Usb.Reading.{get_descriptors}
use serialusb.Gasync.Usb.Opening.{Bus, DeviceIds, make_path, open_one}

-- The entries of an enumeration, an `s_usb_dev` each; `next` is whether one follows.
pub record UsbDev : Type 0 where
  pub vendor_id : ℕ
  pub product_id : ℕ
  pub path : List ℕ
  pub next : Bool

-- The last entry gets a successor.
abbrev pub with_next : List UsbDev → UsbDev → List UsbDev
with_next [] d = d ∷ []
with_next (x ∷ []) d = record x { next = true } ∷ d ∷ []
with_next (x ∷ xs) d = x ∷ with_next xs d

-- Whether a device is looked for: vendor 0 stands for all, and so does product 0 of a vendor.
abbrev pub is_wanted : ℕ → ℕ → DeviceIds → Bool
is_wanted vendor product d =
    (vendor == 0) || ((d.id_vendor == vendor) && ((product == 0) || (d.id_product == product)))

-- `gusb_free_enumeration`: the paths that are freed, in order; none is a read past the end of the array.
unfoldable pub free_from : List UsbDev → Option (List (List ℕ))
free_from [] = none
free_from (d ∷ ds) =
    let later = free_from ds >>= λ paths. some (d.path ∷ paths) in
    if d.next then later else some (d.path ∷ [])

unfoldable pub gusb_free_enumeration : List UsbDev → Option (List (List ℕ))
unfolding free_from
gusb_free_enumeration [] = some []
gusb_free_enumeration (d ∷ ds) = free_from (d ∷ ds)

module _ {Cb : Type 0} (bus : Bus Cb) where
  open bus use {libusb}
  open libusb use {W}

  -- The `for` of `gusb_open_path`, over the devices of the list.
  unfoldable pub open_path_from : ℕ → List ℕ → List ℕ → Usb Cb → W → Option (Usb Cb × W × ℤ)
  unfolding make_path open_one
  open_path_from fuel path [] u w = some (u, bus.free_device_list w, minus_one)
  open_path_from fuel path (dev ∷ devs) u w =
      let (w1, ids) = bus.get_device_descriptor dev w in
      if not (has_path (make_path bus dev) path)
      then open_path_from fuel path devs u w
      else (if is_some ids
          then (open_one bus fuel path dev u w1 >>= λ (u2, w2, device).
              if is_neg device
              then open_path_from fuel path devs u2 w2
              else some (u2, bus.free_device_list w2, device))
          else open_path_from fuel path devs u w1)

  -- `path` is none for NULL.
  unfoldable pub gusb_open_path : ℕ → Option (List ℕ) → Usb Cb → W → Option (Usb Cb × W × ℤ)
  unfolding open_path_from
  gusb_open_path fuel none u w = some (u, w, minus_one)
  gusb_open_path fuel (some path) u w =
      let (w1, devs) = bus.get_device_list w in
      if bus.ctx w
      then (elim devs [
        | none ↦ some (u, w1, minus_one)
        | some list ↦ open_path_from fuel path list u w1
      ])
      else some (u, w, minus_one)

  -- The `for` of `gusb_open_ids`.
  unfoldable pub open_ids_from : ℕ → ℕ → ℕ → List ℕ → Usb Cb → W → Option (Usb Cb × W × ℤ)
  unfolding make_path open_one
  open_ids_from fuel vendor product [] u w = some (u, bus.free_device_list w, minus_one)
  open_ids_from fuel vendor product (dev ∷ devs) u w =
      let (w1, ids) = bus.get_device_descriptor dev w in
      elim ids [
        | none ↦ open_ids_from fuel vendor product devs u w1
        | some desc ↦
            if (desc.id_vendor == vendor) && (desc.id_product == product)
            then (elim (make_path bus dev) [
              | none ↦ open_ids_from fuel vendor product devs u w1
              | some path ↦ open_one bus fuel path dev u w1 >>= λ (u2, w2, device).
                  if is_neg device
                  then open_ids_from fuel vendor product devs u2 w2
                  else some (u2, bus.free_device_list w2, device)
            ])
            else open_ids_from fuel vendor product devs u w1
      ]

  unfoldable pub gusb_open_ids : ℕ → ℕ → ℕ → Usb Cb → W → Option (Usb Cb × W × ℤ)
  unfolding open_ids_from
  gusb_open_ids fuel vendor product u w =
      let (w1, devs) = bus.get_device_list w in
      if bus.ctx w
      then (elim devs [
        | none ↦ some (u, w1, minus_one)
        | some list ↦ open_ids_from fuel vendor product list u w1
      ])
      else some (u, w, minus_one)

  -- The `for` of `gusb_enumerate`, with the entries found so far. The two allocations are that of the
  -- path and that of the array.
  unfoldable pub enumerate_from : ℕ → ℕ → List ℕ → List UsbDev → W → W × List UsbDev
  unfolding make_path
  enumerate_from vendor product [] found w = (w, found)
  enumerate_from vendor product (dev ∷ devs) found w =
      let (w1, ids) = bus.get_device_descriptor dev w in
      elim ids [
        | none ↦ enumerate_from vendor product devs found w1
        | some desc ↦
            if is_wanted vendor product desc
            then (elim (make_path bus dev) [
              | none ↦ enumerate_from vendor product devs found w1
              | some path ↦
                  let (w2, copied) = libusb.allocate w1 in
                  let (w3, grown) = libusb.allocate w2 in
                  let entry : UsbDev = record {
                    vendor_id = desc.id_vendor;
                    product_id = desc.id_product;
                    path = path;
                    next = false;
                  } in
                  if not copied
                  then enumerate_from vendor product devs found w2
                  else (if grown
                      then enumerate_from vendor product devs (with_next found entry) w3
                      else enumerate_from vendor product devs found w3)
            ])
            else enumerate_from vendor product devs found w1
      ]

  -- NULL is the empty list.
  unfoldable pub gusb_enumerate : ℕ → ℕ → W → W × List UsbDev
  unfolding enumerate_from
  gusb_enumerate vendor product w =
      let (w1, devs) = bus.get_device_list w in
      if bus.ctx w
      then (elim devs [
        | none ↦ (w1, [])
        | some list ↦
            let (w2, found) = enumerate_from vendor product list [] w1 in
            (bus.free_device_list w2, found)
      ])
      else (w, [])
