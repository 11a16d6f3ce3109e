-- ===== src/Proxy/Endpoints.antt =====
-- `fix_endpoints` of sw/proxy.c, with `get_endpoint_properties` and `compare_endpoint_properties`: the
-- endpoints of the device are numbered anew if the firmware cannot have them as they are, and entered
-- in the two endpoint tables and in the list for the firmware.
pub mod Routing
pub mod Inverse
pub mod Whole
mod Tests
use serialusb.Common.{
  ℕ, suc, ◌+◌, ◌/◌, ◌%◌, Bool, true, false, ◌&&◌, ◌||◌, not, Option, none, some, List, [], ◌∷◌,
  ◌++◌, if◌then◌else◌, ltb, ◌==◌, get_elem?, set, length, replicate, inside, ◌>>=◌, ◌>>◌,
}
use serialusb.Gasync.Usb.{EndpointDescriptor}
use serialusb.Protocol.{max_endpoints, max_payload_size_ep, EndpointConfig}
use serialusb.Proxy.State.{Proxy, addr_to_index, write_table}

-- The EP_PROP bits of a `uint8_t`.
pub record Properties : Type 0 where
  pub is_in : Bool
  pub is_out : Bool
  pub is_bidir : Bool
  pub is_int : Bool
  pub is_blk : Bool
  pub is_iso : Bool

abbrev pub no_properties : Properties
no_properties = record {
  is_in = false;
  is_out = false;
  is_bidir = false;
  is_int = false;
  is_blk = false;
  is_iso = false;
}

abbrev pub target_properties : List Properties
target_properties =
    replicate 6 (record no_properties { is_in = true; is_out = true; is_int = true })
    ++ replicate 9 no_properties

-- USB_ENDPOINT_XFERTYPE_MASK, and USB_ENDPOINT_DIR_MASK against USB_DIR_IN.
abbrev pub xfer_type : EndpointDescriptor → ℕ
xfer_type e = e.bm_attributes % 4

abbrev pub dir_in : ℕ → Bool
dir_in address = address / 128 % 2 == 1

-- The properties of an endpoint number after one more descriptor for it.
abbrev pub with_descriptor : EndpointDescriptor → Properties → Properties
with_descriptor e q =
    let a = q.is_in || dir_in e.b_endpoint_address in
    let b = q.is_out || not (dir_in e.b_endpoint_address) in
    record {
      is_in = a;
      is_out = b;
      is_bidir = q.is_bidir || (a && b);
      is_int = q.is_int || (xfer_type e == 3);
      is_blk = q.is_blk || (xfer_type e == 2);
      is_iso = q.is_iso || (xfer_type e == 1);
    }

-- The descriptors of a configuration, in the order of its interfaces and their alternate settings.
-- `none` is a write outside the table.
unfoldable pub get_endpoint_properties :
    List EndpointDescriptor → List Properties → Option (List Properties)
get_endpoint_properties [] props = some props
get_endpoint_properties (e ∷ es) props = do
  q ← get_elem? props (addr_to_index e.b_endpoint_address)
  get_endpoint_properties es (set props (addr_to_index e.b_endpoint_address) (with_descriptor e q))

-- (target & source) == source
abbrev pub has_all : Properties → Properties → Bool
has_all target source =
    (target.is_in || not source.is_in)
    && (target.is_out || not source.is_out)
    && (target.is_bidir || not source.is_bidir)
    && (target.is_int || not source.is_int)
    && (target.is_blk || not source.is_blk)
    && (target.is_iso || not source.is_iso)

-- Whether the result is 1. A source without properties has none that the target lacks.
unfoldable pub compare_endpoint_properties : List Properties → List Properties → Bool
compare_endpoint_properties (s ∷ ss) (t ∷ ts) =
    let later = compare_endpoint_properties ss ts in if has_all t s then later else true
compare_endpoint_properties _ _ = false

-- (address & USB_ENDPOINT_DIR_MASK) | number
abbrev pub renumbered : ℕ → ℕ → ℕ
renumbered address number = if dir_in address && ltb number 128 then 128 + number else number

-- The tests that skip a descriptor, with the number after it.
abbrev pub is_skipped : Bool → EndpointDescriptor → ℕ → Bool
is_skipped first e number =
    (e.b_endpoint_address % 16 == 0)
    || not first
    || not (xfer_type e == 3)
    || ltb max_payload_size_ep e.w_max_packet_size
    || ltb max_endpoints number

-- Enter an endpoint in the tables: `none` is a write outside them, or past `endpoints`.
unfoldable pub enter : EndpointDescriptor → ℕ → Proxy → Option Proxy
enter e address p = do
  to_serial ← write_table p.usb_to_serial e.b_endpoint_address address
  to_usb ← write_table p.serial_to_usb address e.b_endpoint_address
  inside (ltb (length p.endpoints) max_endpoints)
  some (record p {
    usb_to_serial = to_serial;
    serial_to_usb = to_usb;
    endpoints =
        p.endpoints
        ++ (record { number = address; type = xfer_type e; size = e.w_max_packet_size % 256 } ∷ []);
  })

abbrev pub next_number : Bool → ℕ → ℕ
next_number renumber number = if renumber then (number + 1) % 256 else number

abbrev pub new_address : Bool → EndpointDescriptor → ℕ → ℕ
new_address renumber e number =
    if renumber then renumbered e.b_endpoint_address number else e.b_endpoint_address

-- The loops over the descriptors of a configuration, `first` for that of index 0. The first result is
-- the descriptors as they are changed in place.
unfoldable pub fix_configuration :
    Bool → Bool → List EndpointDescriptor → ℕ → Proxy → Option (List EndpointDescriptor × Proxy)
unfolding enter
fix_configuration first renumber [] number p = some ([], p)
fix_configuration first renumber (e ∷ es) number p =
    let n = next_number renumber number in
    let address = new_address renumber e n in
    do
      q ← if is_skipped first e n then some p else enter e address p
      (es', q') ← fix_configuration first renumber es n q
      some (record e { b_endpoint_address = address } ∷ es', q')

-- The loop over the configurations, from the one that is `first` on.
unfoldable pub fix_from :
    Bool → List (List EndpointDescriptor) → Proxy → Option (List (List EndpointDescriptor) × Proxy)
unfolding get_endpoint_properties compare_endpoint_properties fix_configuration
fix_from first [] p = some ([], p)
fix_from first (es ∷ ess) p = do
  props ← get_endpoint_properties es (replicate 15 no_properties)
  (es', q) ← fix_configuration first (compare_endpoint_properties props target_properties) es 0 p
  (ess', q') ← fix_from false ess q
  some (es' ∷ ess', q')

unfoldable pub fix_endpoints :
    List (List EndpointDescriptor) → Proxy → Option (List (List EndpointDescriptor) × Proxy)
unfolding fix_from
fix_endpoints configurations p = fix_from true configurations (record p { endpoints = [] })
