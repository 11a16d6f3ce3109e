-- ===== src/Gasync/Usb/Probe.antt =====
-- usb/gusb.c of sw/lib/gasync: the reading of a device's descriptors, and the walk through the bytes of
-- a configuration that collects its interfaces, their alternate settings and their endpoints.
pub mod Frame
use serialusb.Common.{
  ℕ, ◌+◌, ◌-◌, ◌%◌, ◌||◌, Option, none, some, List, [], ◌∷◌, ◌++◌, if◌then◌else◌, leb, ltb, ◌==◌,
  get_or, get_elem?, set, take, length, ◌>>=◌,
}
use serialusb.Common.Int.{ℤ, pos, minus_one}
use serialusb.Common.Bytes.{from_le16}
use serialusb.Gasync.Usb.{
  UsbDevice, UsbDescriptors, Configuration, ConfigDescriptor, Interface, InterfaceDescriptor,
  AltInterface, EndpointDescriptor, Endpoint, Descriptor, direction_of, address_of,
  default_string_buffer_size, usbasync_default_timeout,
}
use serialusb.Gasync.Usb.Calls.{Libusb}

-- The zero bytes of the arrays.
abbrev pub no_interface : Interface
no_interface = record { b_num_alt_interfaces = 0; alt_interfaces = [] }

abbrev pub new_alt : InterfaceDescriptor → AltInterface
new_alt i = record { descriptor = i; hid_descriptor = none; b_num_endpoints = 0; endpoints = [] }

abbrev pub no_alt : AltInterface
no_alt = new_alt (record {
  b_interface_number = 0;
  b_alternate_setting = 0;
  b_interface_class = 0;
  i_interface = 0;
})

abbrev pub num_interfaces : Configuration → ℕ
num_interfaces c = elim c.descriptor [ none ↦ 0 | some d ↦ d.b_num_interfaces ]

abbrev pub interface_at : Configuration → ℕ → Interface
interface_at c n = get_or c.interfaces n no_interface

abbrev pub alt_at : Configuration → ℕ → ℕ → AltInterface
alt_at c n a = get_or (interface_at c n).alt_interfaces a no_alt

-- The new element of an array that is reallocated for one more than its number, a `unsigned char`.
abbrev pub with_alt_interface : InterfaceDescriptor → Interface → Interface
with_alt_interface i x = record {
  b_num_alt_interfaces = (x.b_num_alt_interfaces + 1) % 256;
  alt_interfaces = take x.b_num_alt_interfaces x.alt_interfaces ++ (new_alt i ∷ []);
}

abbrev pub with_endpoint : EndpointDescriptor → AltInterface → AltInterface
with_endpoint e x = record x {
  b_num_endpoints = (x.b_num_endpoints + 1) % 256;
  endpoints = take x.b_num_endpoints x.endpoints ++ (e ∷ []);
}

-- A configuration with one of its alternate settings changed.
abbrev pub change_alt : (AltInterface → AltInterface) → ℕ → ℕ → Configuration → Configuration
change_alt f n a c = record c {
  interfaces = set c.interfaces n (record (interface_at c n) {
    alt_interfaces = set (interface_at c n).alt_interfaces a (f (alt_at c n a));
  });
}

-- The number and the alternate setting of the element that is meant, or none for NULL.
unfoldable pub get_interface : Option InterfaceDescriptor → Configuration → Option (ℕ × ℕ)
get_interface none c = none
get_interface (some i) c =
    if leb (num_interfaces c) i.b_interface_number
      || leb (interface_at c i.b_interface_number).b_num_alt_interfaces i.b_alternate_setting
    then none
    else some (i.b_interface_number, i.b_alternate_setting)

-- The structures at a pointer, which is the bytes from there on; none is a read past their end.
unfoldable pub config_at : List ℕ → Option ConfigDescriptor
config_at ptr = do
  l ← get_elem? ptr 0
  lo ← get_elem? ptr 2
  hi ← get_elem? ptr 3
  n ← get_elem? ptr 4
  i ← get_elem? ptr 6
  some (record {
    b_length = l;
    w_total_length = from_le16 lo hi;
    b_num_interfaces = n;
    i_configuration = i;
  })

unfoldable pub interface_descriptor_at : List ℕ → Option InterfaceDescriptor
interface_descriptor_at ptr = do
  n ← get_elem? ptr 2
  a ← get_elem? ptr 3
  c ← get_elem? ptr 5
  i ← get_elem? ptr 8
  some (record {
    b_interface_number = n;
    b_alternate_setting = a;
    b_interface_class = c;
    i_interface = i;
  })

unfoldable pub endpoint_descriptor_at : List ℕ → Option EndpointDescriptor
endpoint_descriptor_at ptr = do
  a ← get_elem? ptr 2
  t ← get_elem? ptr 3
  lo ← get_elem? ptr 4
  hi ← get_elem? ptr 5
  some (record { b_endpoint_address = a; bm_attributes = t; w_max_packet_size = from_le16 lo hi })

module _ {Cb : Type 0} where
  abbrev pub with_descriptors : (UsbDescriptors → UsbDescriptors) → UsbDevice Cb → UsbDevice Cb
  with_descriptors f d = record d { descriptors = f d.descriptors }

  -- Endpoint 0 has no entry; the type is the low two bits of the attributes.
  unfoldable pub with_entry : EndpointDescriptor → UsbDevice Cb → UsbDevice Cb
  with_entry e d =
      let number = address_of e.b_endpoint_address in
      let entry : Endpoint = record { type = e.bm_attributes % 4; size = e.w_max_packet_size } in
      if number == 0
      then d
      else (if direction_of e.b_endpoint_address == 1
          then record d { ins = set d.ins (number - 1) entry }
          else record d { outs = set d.outs (number - 1) entry })

module _ {Cb : Type 0} (sys : Libusb Cb) where
  open sys use {W}

  -- A configuration that is being probed, with its device.
  pub record Probing : Type 0 where
    pub conf : Configuration
    pub device : UsbDevice Cb
    pub world : W

  unfoldable pub add_descriptor : ℕ → ℕ → List ℕ → UsbDevice Cb → W → UsbDevice Cb × W × ℤ
  add_descriptor w_value w_index bytes d w =
      let (w', found) = sys.allocate w in
      let entry : Descriptor = record { w_value = w_value; w_index = w_index; bytes = bytes } in
      if found
      then (with_descriptors (λ s. record s { others = s.others ++ (entry ∷ []) }) d, w', pos 0)
      else (d, w', minus_one)

  -- GET_DESCRIPTOR is request 6; the types are in the high byte of the value, 3 for a string.
  abbrev pub read_string : ℕ → ℕ → UsbDevice Cb → W → W × Option (List ℕ)
  read_string index size d w =
      sys.control_transfer d.devh 128 6 (768 + index)
        (from_le16 (get_or d.descriptors.lang_id_0 2 0) (get_or d.descriptors.lang_id_0 3 0)) size
        usbasync_default_timeout w

  -- The string is read again if it is longer than what was read.
  unfoldable pub get_string_descriptor : ℕ → UsbDevice Cb → W → UsbDevice Cb × W × ℤ
  unfolding add_descriptor
  get_string_descriptor index d w =
      let (w1, found) = sys.allocate w in
      let (w2, got) = read_string index default_string_buffer_size d w1 in
      let lang =
        from_le16 (get_or d.descriptors.lang_id_0 2 0) (get_or d.descriptors.lang_id_0 3 0) in
      if found
      then (elim got [
        | none ↦ (d, w2, minus_one)
        | some bs ↦
            let (w3, found') = sys.allocate w2 in
            let (w4, got') = read_string index (get_or bs 0 0) d w3 in
            if ltb (length bs) (get_or bs 0 0)
            then (if found'
                then (elim got' [
                  | none ↦ (d, w4, minus_one)
                  | some cs ↦ add_descriptor (768 + index) lang cs d w4
                ])
                else (d, w3, minus_one))
            else add_descriptor (768 + index) lang bs d w2
      ])
      else (d, w1, minus_one)

  -- A string of the device, if it has an index; its failure is not looked at.
  abbrev pub optional_string : ℕ → UsbDevice Cb → W → UsbDevice Cb × W
  optional_string index d w =
      let (d', w', ret) = get_string_descriptor index d w in if index == 0 then (d, w) else (d', w')
