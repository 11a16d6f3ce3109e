-- ===== src/Gasync/Usb/Walk.antt =====
-- usb/gusb.c of sw/lib/gasync: the walk through the bytes of a configuration.
pub mod Items
pub mod Keeping
pub mod Refine
pub mod Tree
pub mod Building
pub mod Assembly
pub mod RoundTrip
pub mod Endless
mod Tests
use serialusb.Common.{
  ℕ, zero, suc, ◌-◌, ◌*◌, Option, none, some, List, [], if◌then◌else◌, leb, ◌==◌, get_or, get_elem?,
  set, replicate, take, drop, ◌>>=◌,
}
use serialusb.Common.Int.{ℤ, pos, minus_one, is_neg}
use serialusb.Common.Bytes.{from_le16}
use serialusb.Gasync.Usb.{
  UsbDevice, InterfaceDescriptor, AltInterface, EndpointDescriptor, usbasync_default_timeout,
}
use serialusb.Gasync.Usb.Calls.{Libusb}
use serialusb.Gasync.Usb.Probe.{
  Probing, no_interface, num_interfaces, interface_at, alt_at, with_alt_interface, with_endpoint,
  change_alt, get_interface, config_at, interface_descriptor_at, endpoint_descriptor_at, with_entry,
  add_descriptor, get_string_descriptor, optional_string,
}

-- A pointer to a HID descriptor is stored as the bytes of the descriptor.
abbrev pub with_hid : List ℕ → AltInterface → AltInterface
with_hid ptr x = record x { hid_descriptor = some (take (get_or ptr 0 0) ptr) }

module _ {Cb : Type 0} (sys : Libusb Cb) where
  open sys use {W}

  unfoldable pub probe_interface : InterfaceDescriptor → Probing sys → Probing sys × ℤ
  unfolding get_string_descriptor
  probe_interface i p =
      let n = i.b_interface_number in
      let (w', found) = sys.allocate p.world in
      let (d, w'') = optional_string sys i.i_interface p.device w' in
      let c = record p.conf {
        interfaces = set p.conf.interfaces n (with_alt_interface i (interface_at p.conf n));
      } in
      if leb (num_interfaces p.conf) n
      then (p, minus_one)
      else (if found
          then (record { conf = c; device = d; world = w'' }, pos 0)
          else (record p { world = w' }, minus_one))

  -- A report descriptor of a type and a length: it is read and added.
  unfoldable pub read_one : ℕ → ℕ → ℕ → UsbDevice Cb → W → UsbDevice Cb × W × ℤ
  unfolding add_descriptor
  read_one type size number d w =
      let (w', found) = sys.allocate w in
      let (w'', got) =
        sys.control_transfer d.devh 129 6 (type * 256) number size usbasync_default_timeout w' in
      if found
      then (elim got [
        | none ↦ (d, w'', minus_one)
        | some bs ↦ add_descriptor sys (type * 256) number bs d w''
      ])
      else (d, w', minus_one)

  -- The entries `rdesc` of a HID descriptor from a pointer on: the first that has a length is read. The
  -- struct of an entry is not packed: it has 4 bytes, of which the second one is padding, and the length
  -- is in the last two.
  unfoldable pub read_report : ℕ → List ℕ → ℕ → UsbDevice Cb → W → Option (UsbDevice Cb × W × ℤ)
  unfolding read_one
  read_report zero ptr number d w = some (d, w, pos 0)
  read_report (suc n) ptr number d w = do
    type ← get_elem? ptr 0
    lo ← get_elem? ptr 2
    hi ← get_elem? ptr 3
    if from_le16 lo hi == 0
        then read_report n (drop 4 ptr) number d w
        else some (read_one type (from_le16 lo hi) number d w)

  -- LIBUSB_CLASS_HID is 3.
  unfoldable pub probe_hid :
      Option InterfaceDescriptor → List ℕ → Probing sys → Option (Probing sys × ℤ)
  unfolding get_interface read_report
  probe_hid interface ptr p = elim (get_interface interface p.conf) [
    | none ↦ some (p, minus_one)
    | some (n, a) ↦
        if (alt_at p.conf n a).descriptor.b_interface_class == 3
        then (do
          count ← get_elem? ptr 5
          (d, w, ret) ←
              read_report count (drop 6 ptr) (alt_at p.conf n a).descriptor.b_interface_number
                p.device p.world
          some (record { conf = change_alt (with_hid ptr) n a p.conf; device = d; world = w }, ret))
        else some (p, pos 0)
  ]

  unfoldable pub probe_endpoint :
      Option InterfaceDescriptor → EndpointDescriptor → Probing sys → Probing sys × ℤ
  unfolding get_interface with_entry
  probe_endpoint interface e p = elim (get_interface interface p.conf) [
    | none ↦ (p, minus_one)
    | some (n, a) ↦
        let (w', found) = sys.allocate p.world in
        if found
        then (
          record {
            conf = change_alt (with_endpoint e) n a p.conf;
            device = with_entry e p.device;
            world = w';
          },
          pos 0,
        )
        else (record p { world = w' }, minus_one)
  ]

  -- The descriptor at a pointer, by its type: LIBUSB_DT_INTERFACE is 4, LIBUSB_DT_ENDPOINT is 5,
  -- LIBUSB_DT_HID is 33. The first result is the last interface descriptor seen.
  unfoldable pub probe_descriptor :
      ℕ
      → List ℕ
      → Option InterfaceDescriptor
      → Probing sys
      → Option (Option InterfaceDescriptor × Probing sys × ℤ)
  unfolding probe_interface probe_endpoint probe_hid interface_descriptor_at endpoint_descriptor_at
  probe_descriptor type ptr interface p =
      if type == 4
      then (interface_descriptor_at ptr >>= λ i.
          let (p', ret) = probe_interface i p in some (some i, p', ret))
      else (if type == 5
          then (endpoint_descriptor_at ptr >>= λ e.
              let (p', ret) = probe_endpoint interface e p in some (interface, p', ret))
          else (if type == 33
              then (probe_hid interface ptr p >>= λ (p', ret). some (interface, p', ret))
              else some (interface, p, pos 0)))

  -- The `while` of `probe_configurations`, on fuel: `left` bytes are left before the end.
  unfoldable pub probe_loop :
      ℕ → ℕ → List ℕ → Option InterfaceDescriptor → Probing sys → Option (Probing sys × ℤ)
  unfolding probe_descriptor
  probe_loop zero left ptr interface p = none
  probe_loop (suc fuel) left ptr interface p = if left == 0 then some (p, pos 0) else (do
    b_length ← get_elem? ptr 0
    type ← get_elem? ptr 1
    (interface', p', ret) ← probe_descriptor type ptr interface p
    if is_neg ret
        then some (p', minus_one)
        else probe_loop fuel (left - b_length) (drop b_length ptr) interface' p')

  -- The body of the `for` of `probe_configurations`, for one configuration with its bytes.
  unfoldable pub probe_configuration : ℕ → Probing sys → Option (Probing sys × ℤ)
  unfolding config_at probe_loop get_string_descriptor
  probe_configuration fuel p = config_at p.conf.raw >>= λ descriptor.
      let (w, found) = sys.allocate p.world in
      let c = record p.conf {
        descriptor = some descriptor;
        interfaces = replicate descriptor.b_num_interfaces no_interface;
      } in
      let (d, w') = optional_string sys descriptor.i_configuration p.device w in
      if found
      then probe_loop fuel (descriptor.w_total_length - descriptor.b_length)
          (drop descriptor.b_length p.conf.raw) none (record { conf = c; device = d; world = w' })
      else some (
        record p {
          conf = record p.conf { descriptor = some descriptor; interfaces = [] };
          world = w;
        },
        minus_one,
      )
