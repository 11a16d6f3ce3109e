-- ===== src/Gasync/Usb/Walk/Tree.antt =====
-- The descriptors that a well-behaved device prints for a configuration, and what gusb.c is to make of
-- them.
use serialusb.Common.{ℕ, ◌+◌, ◌<◌, ◌≡◌, Option, none, some, List, [], ◌∷◌, ◌++◌, map, length}
use serialusb.Common.Bytes.{le16}
use serialusb.Gasync.Usb.{Interface, InterfaceDescriptor, AltInterface, EndpointDescriptor}
use serialusb.Gasync.Usb.Walk.Items.{
  Item, Report, interface, endpoint, hid, item_bytes, items_bytes,
}

-- A HID descriptor: the two bytes of bcdHID, bCountryCode, and its entries.
pub record Hid : Type 0 where
  pub lo : ℕ
  pub hi : ℕ
  pub country : ℕ
  pub reports : List Report

-- An alternate setting, with the fields and bytes of its descriptors that are not used.
pub record Setting : Type 0 where
  pub descriptor : InterfaceDescriptor
  pub subclass : ℕ
  pub protocol : ℕ
  pub hid_descriptor : Option Hid
  pub endpoints : List (EndpointDescriptor × List ℕ)

abbrev pub hid_item : Hid → Item
hid_item h = hid h.lo h.hi h.country h.reports

abbrev pub hid_items : Option Hid → List Item
hid_items none = []
hid_items (some h) = hid_item h ∷ []

abbrev pub endpoint_items : List (EndpointDescriptor × List ℕ) → List Item
endpoint_items [] = []
endpoint_items ((e, extra) ∷ es) = endpoint e extra ∷ endpoint_items es

abbrev pub setting_items : Setting → List Item
setting_items s =
    interface s.descriptor (length s.endpoints) s.subclass s.protocol
    ∷ (hid_items s.hid_descriptor ++ endpoint_items s.endpoints)

abbrev pub interface_items : List Setting → List Item
interface_items [] = []
interface_items (s ∷ ss) = setting_items s ++ interface_items ss

abbrev pub tree_items : List (List Setting) → List Item
tree_items [] = []
tree_items (i ∷ is) = interface_items i ++ tree_items is

-- The bytes of a configuration: bLength, bDescriptorType, wTotalLength, bNumInterfaces,
-- bConfigurationValue, iConfiguration, bmAttributes, bMaxPower, and the other descriptors.
abbrev pub config_bytes : ℕ → ℕ → ℕ → ℕ → List (List Setting) → List ℕ
config_bytes value string attributes power tree =
    9
    ∷ 2
    ∷ (le16 (9 + length (items_bytes (tree_items tree)))
        ++ (length tree ∷ value ∷ string ∷ attributes ∷ power ∷ items_bytes (tree_items tree)))

-- What is to be stored.
abbrev pub hid_view : Option Hid → Option (List ℕ)
hid_view none = none
hid_view (some h) = some (item_bytes (hid_item h))

abbrev pub endpoints_view : List (EndpointDescriptor × List ℕ) → List EndpointDescriptor
endpoints_view [] = []
endpoints_view ((e, extra) ∷ es) = e ∷ endpoints_view es

abbrev pub setting_view : Setting → AltInterface
setting_view s = record {
  descriptor = s.descriptor;
  hid_descriptor = hid_view s.hid_descriptor;
  b_num_endpoints = length s.endpoints;
  endpoints = endpoints_view s.endpoints;
}

abbrev pub interface_view : List AltInterface → Interface
interface_view xs = record { b_num_alt_interfaces = length xs; alt_interfaces = xs }

abbrev pub tree_view : List (List Setting) → List Interface
tree_view tree = map (λ ss. interface_view (map setting_view ss)) tree

-- The sizes of endpoints are of 16 bits.
abbrev pub AreEndpoints : List (EndpointDescriptor × List ℕ) → Type 0
AreEndpoints [] = Unit
AreEndpoints ((e, extra) ∷ es) = (e.w_max_packet_size < 65536) × AreEndpoints es

abbrev pub IsHidOf : ℕ → Option Hid → Type 0
IsHidOf class none = Unit
IsHidOf class (some h) = class ≡ 3

-- An alternate setting that stands where its numbers say; a HID descriptor is in an interface of the
-- HID class.
pub record IsSetting (n a : ℕ) (s : Setting) : Type 0 where
  pub number : s.descriptor.b_interface_number ≡ n
  pub setting : s.descriptor.b_alternate_setting ≡ a
  pub of_class : IsHidOf s.descriptor.b_interface_class s.hid_descriptor
  pub few : length s.endpoints < 256
  pub sizes : AreEndpoints s.endpoints

abbrev pub AreSettings : ℕ → ℕ → List Setting → Type 0
AreSettings n a [] = Unit
AreSettings n a (s ∷ ss) = IsSetting n a s × AreSettings n (a + 1) ss

-- From interface `n` on, fewer than 256 alternate settings each.
abbrev pub AreInterfaces : ℕ → List (List Setting) → Type 0
AreInterfaces n [] = Unit
AreInterfaces n (ss ∷ tree) = AreSettings n 0 ss × (length ss < 256) × AreInterfaces (n + 1) tree
