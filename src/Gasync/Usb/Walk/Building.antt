-- ===== src/Gasync/Usb/Walk/Building.antt =====
-- Where a descriptor is added while the interfaces of a configuration are built from the first to the
-- last.
use serialusb.Common.{
  ℕ, suc, ◌+◌, ◌%◌, ◌<◌, ◌≡◌, refl, sym, ap, ◌∙◌, true, false, Option, none, some, List, [], ◌∷◌,
  ◌++◌, arith, leb, ◌==◌, ==_iff, get_or, set, length, take-all, append_assoc, append-nil,
  length-append,
}
use serialusb.Gasync.Usb.{
  Configuration, Interface, InterfaceDescriptor, AltInterface, EndpointDescriptor,
}
use serialusb.Gasync.Usb.Probe.{
  num_interfaces, alt_at, no_interface, no_alt, with_endpoint, change_alt, get_interface,
}
use serialusb.Gasync.Usb.Walk.Items.{Item, item_bytes, with_hid_bytes, apply_items}
use serialusb.Gasync.Usb.Walk.Tree.{
  Hid, hid_item, hid_items, hid_view, endpoint_items, endpoints_view, IsHidOf,
}

-- The element behind a prefix.
pub get_or-append {ℓ} :
    {A : Type ℓ} (xs ys : List A) (x d : A) → get_or (xs ++ (x ∷ ys)) (length xs) d ≡ x
get_or-append [] ys x d = refl
get_or-append (y ∷ xs) ys x d = get_or-append xs ys x d

pub set-append {ℓ} :
    {A : Type ℓ} (xs ys : List A) (x v : A) → set (xs ++ (x ∷ ys)) (length xs) v ≡ xs ++ (v ∷ ys)
set-append [] ys x v = refl
set-append (y ∷ xs) ys x v = ap (λ zs. y ∷ zs) (set-append xs ys x v)

-- The interfaces `done`, one that is built, and `later` ones.
abbrev pub building : Configuration → List Interface → Interface → List Interface → Configuration
building c done x later = record c { interfaces = done ++ (x ∷ later) }

module _ (c : Configuration) (done later : List Interface)
    (in_range : length done < num_interfaces c) where
  -- The alternate settings `before`, and the last one, to which descriptors are added.
  abbrev pub adding : List AltInterface → AltInterface → Configuration
  adding before x =
      building c done
        (record { b_num_alt_interfaces = suc (length before); alt_interfaces = before ++ (x ∷ []) })
        later

  module _ (i : InterfaceDescriptor) (number : i.b_interface_number ≡ length done)
      (before : List AltInterface) (setting : i.b_alternate_setting ≡ length before) where
    get_interface-last :
        (x : AltInterface)
        → get_interface (some i) (adding before x) ≡ some (length done, length before)
    unfolding get_interface
    get_interface-last x =
        let low : leb (num_interfaces c) (length done) ≡ false = ground arith in
        let listed : leb (suc (length before)) (length before) ≡ false = ground arith in
        rw (number, setting, low, get_or-append done later _ no_interface, listed) refl

    alt_at-last : (x : AltInterface) → alt_at (adding before x) (length done) (length before) ≡ x
    alt_at-last x =
        rw
          (get_or-append done later
            (record {
              b_num_alt_interfaces = suc (length before);
              alt_interfaces = before ++ (x ∷ []);
            })
            no_interface)
          (get_or-append before [] x no_alt)

    change_alt-last :
        (f : AltInterface → AltInterface) (x : AltInterface)
        → change_alt f (length done) (length before) (adding before x) ≡ adding before (f x)
    change_alt-last f x =
        rw
          (
            get_or-append done later
                (record {
                  b_num_alt_interfaces = suc (length before);
                  alt_interfaces = before ++ (x ∷ []);
                })
                no_interface,
            get_or-append before [] x no_alt,
            set-append before [] x (f x),
            set-append done later
                (record {
                  b_num_alt_interfaces = suc (length before);
                  alt_interfaces = before ++ (x ∷ []);
                })
                (record {
                  b_num_alt_interfaces = suc (length before);
                  alt_interfaces = before ++ (f x ∷ []);
                }),
          )
          refl

    -- Endpoints are added in their order.
    abbrev pub with_endpoints : List (EndpointDescriptor × List ℕ) → AltInterface → AltInterface
    with_endpoints es x = record x {
      b_num_endpoints = length x.endpoints + length es;
      endpoints = x.endpoints ++ endpoints_view es;
    }

    with_endpoint-more :
        (e : EndpointDescriptor) (extra : List ℕ) (es : List (EndpointDescriptor × List ℕ))
        (x : AltInterface)
        → x.b_num_endpoints ≡ length x.endpoints
        → length x.endpoints + length ((e, extra) ∷ es) < 256
        → (with_endpoint e x ≡ with_endpoints ((e, extra) ∷ []) x)
          × (with_endpoints es (with_endpoints ((e, extra) ∷ []) x)
              ≡ with_endpoints ((e, extra) ∷ es) x)
    with_endpoint-more e extra es x count few =
        let all = take-all (length x.endpoints) x.endpoints (omega arith) in
        let step : (length x.endpoints + 1) % 256 ≡ length x.endpoints + 1 = ground arith in
        let len = length-append x.endpoints (e ∷ []) in
        let sum : length (x.endpoints ++ (e ∷ [])) + length es
            ≡ length x.endpoints + suc (length es) =
          omega (arith, len) in
        (
          rw (count, all, step) refl,
          rw (sum, append_assoc x.endpoints (e ∷ []) (endpoints_view es)) refl,
        )

    pub apply_items-endpoints :
        (es : List (EndpointDescriptor × List ℕ)) (ys : List Item) (x : AltInterface)
        → x.b_num_endpoints ≡ length x.endpoints
        → length x.endpoints + length es < 256
        → apply_items (some i) (endpoint_items es ++ ys) (adding before x)
          ≡ apply_items (some i) ys (adding before (with_endpoints es x))
    apply_items-endpoints [] ys x count few =
        let same : length x.endpoints + 0 ≡ x.b_num_endpoints = omega (arith, count) in
        rw (same, append-nil x.endpoints) refl
    apply_items-endpoints ((e, extra) ∷ es) ys x count few =
        let (first, more) = with_endpoint-more e extra es x count few in
        let len = length-append x.endpoints (e ∷ []) in
        rw (get_interface-last x, change_alt-last (with_endpoint e) x, first)
          (apply_items-endpoints es ys (with_endpoints ((e, extra) ∷ []) x) (omega (arith, len))
              (omega (arith, len))
            ∙ rw more refl)

    -- The HID descriptor of an interface of its class.
    pub apply_items-hid :
        (h : Option Hid) (ys : List Item) (x : AltInterface)
        → x.hid_descriptor ≡ none
        → IsHidOf x.descriptor.b_interface_class h
        → apply_items (some i) (hid_items h ++ ys) (adding before x)
          ≡ apply_items (some i) ys (adding before (record x { hid_descriptor = hid_view h }))
    apply_items-hid none ys x empty class = rw (sym empty) refl
    apply_items-hid (some h) ys x empty class =
        let is_hid : ((alt_at (adding before x) (length done)
                (length before)).descriptor.b_interface_class
              == 3)
            ≡ true =
          rw (alt_at-last x) ((==_iff x.descriptor.b_interface_class 3).1 class) in
        rw
          (
            get_interface-last x,
            is_hid,
            change_alt-last (with_hid_bytes (item_bytes (hid_item h))) x,
          )
          refl
