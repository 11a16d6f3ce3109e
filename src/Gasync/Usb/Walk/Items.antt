-- ===== src/Gasync/Usb/Walk/Items.antt =====
-- The descriptors of a configuration as values: their bytes, and what each of them is to add to the
-- configuration.
use serialusb.Common.{
  ℕ, ◌+◌, ◌<◌, ◌≤◌, ◌≡◌, refl, ap, false, Option, none, some, List, [], ◌∷◌, ◌++◌, arith,
  if◌then◌else◌, leb, ◌==◌, get_elem?, set, length, ◌>>=◌,
}
use serialusb.Common.Bytes.{le16}
use serialusb.Gasync.Usb.{Configuration, InterfaceDescriptor, EndpointDescriptor, AltInterface}
use serialusb.Gasync.Usb.Probe.{
  num_interfaces, interface_at, alt_at, with_alt_interface, with_endpoint, change_alt,
  get_interface,
}

-- The entry of a HID descriptor for a report descriptor: its type, and the two bytes of its length.
pub record Report : Type 0 where
  pub type : ℕ
  pub lo : ℕ
  pub hi : ℕ

-- A descriptor with its fields and, for those that are not used, their bytes: bNumEndpoints,
-- bInterfaceSubClass and bInterfaceProtocol of an interface, those from bInterval on of an endpoint,
-- bcdHID and bCountryCode of a HID descriptor, all but the first two of another one.
pub data Item : Type 0 where
  interface : InterfaceDescriptor → ℕ → ℕ → ℕ → Item
  endpoint : EndpointDescriptor → List ℕ → Item
  hid : ℕ → ℕ → ℕ → List Report → Item
  other : ℕ → List ℕ → Item

abbrev pub report_bytes : List Report → List ℕ
report_bytes [] = []
report_bytes (r ∷ rs) = r.type ∷ r.lo ∷ r.hi ∷ report_bytes rs

abbrev pub item_type : Item → ℕ
item_type (interface i n s p) = 4
item_type (endpoint e extra) = 5
item_type (hid a b c rs) = 33
item_type (other type bs) = type

abbrev pub item_bytes : Item → List ℕ
item_bytes (interface i n s p) =
    9 ∷ 4 ∷ i.b_interface_number ∷ i.b_alternate_setting ∷ n ∷ i.b_interface_class ∷ s ∷ p
    ∷ i.i_interface ∷ []
item_bytes (endpoint e extra) =
    (6 + length extra)
    ∷ 5
    ∷ e.b_endpoint_address
    ∷ e.bm_attributes
    ∷ (le16 e.w_max_packet_size ++ extra)
item_bytes (hid a b c rs) =
    (6 + length (report_bytes rs)) ∷ 33 ∷ a ∷ b ∷ c ∷ length rs ∷ report_bytes rs
item_bytes (other type bs) = (2 + length bs) ∷ type ∷ bs

abbrev pub items_bytes : List Item → List ℕ
items_bytes [] = []
items_bytes (x ∷ xs) = item_bytes x ++ items_bytes xs

-- The number of entries of a HID descriptor.
abbrev pub item_entries : Item → ℕ
item_entries (hid a b c rs) = length rs
item_entries _ = 0

-- The walk reads each entry of 3 bytes as 4 bytes: behind a HID descriptor stands a byte for each of its
-- entries, in the descriptors that follow or in memory behind them.
abbrev pub AreReadable : List Item → List ℕ → Type 0
AreReadable [] rest = Unit
AreReadable (x ∷ xs) rest = (item_entries x ≤ length (items_bytes xs ++ rest)) × AreReadable xs rest

-- A size of 16 bits, and a type that is not one of the others'.
abbrev pub IsItem : Item → Type 0
IsItem (endpoint e extra) = e.w_max_packet_size < 65536
IsItem (other type bs) = ((type == 4) ≡ false) × ((type == 5) ≡ false) × ((type == 33) ≡ false)
IsItem _ = Unit

abbrev pub with_hid_bytes : List ℕ → AltInterface → AltInterface
with_hid_bytes bs x = record x { hid_descriptor = some bs }

-- What a descriptor adds, none if it is refused; with the interface descriptor seen last.
abbrev pub apply_item :
    Option InterfaceDescriptor
    → Item
    → Configuration
    → Option (Option InterfaceDescriptor × Configuration)
apply_item current (interface i n s p) c =
    let number = i.b_interface_number in
    if leb (num_interfaces c) number
    then none
    else some (
      some i,
      record c {
        interfaces = set c.interfaces number (with_alt_interface i (interface_at c number));
      },
    )
apply_item current (endpoint e extra) c =
    get_interface current c >>= λ (n, a). some (current, change_alt (with_endpoint e) n a c)
apply_item current (hid x y z rs) c = get_interface current c >>= λ (n, a).
    if (alt_at c n a).descriptor.b_interface_class == 3
    then some (current, change_alt (with_hid_bytes (item_bytes (hid x y z rs))) n a c)
    else some (current, c)
apply_item current (other type bs) c = some (current, c)

abbrev pub apply_items :
    Option InterfaceDescriptor → List Item → Configuration → Option Configuration
apply_items current [] c = some c
apply_items current (x ∷ xs) c =
    apply_item current x c >>= λ (current', c'). apply_items current' xs c'

-- The first byte of a descriptor is its length, the second one its type.
pub item_length :
    (x : Item) (rest : List ℕ) → get_elem? (item_bytes x ++ rest) 0 ≡ some (length (item_bytes x))
item_length (interface i n s p) rest = refl
item_length (endpoint e extra) rest = ap some (omega arith)
item_length (hid a b c rs) rest = ap some (omega arith)
item_length (other type bs) rest = ap some (omega arith)

pub item_kind : (x : Item) (rest : List ℕ) → get_elem? (item_bytes x ++ rest) 1 ≡ some (item_type x)
item_kind (interface i n s p) rest = refl
item_kind (endpoint e extra) rest = refl
item_kind (hid a b c rs) rest = refl
item_kind (other type bs) rest = refl

pub item_nonempty : (x : Item) → 0 < length (item_bytes x)
item_nonempty (interface i n s p) = omega arith
item_nonempty (endpoint e extra) = omega arith
item_nonempty (hid a b c rs) = omega arith
item_nonempty (other type bs) = omega arith
