-- ===== src/Gasync/Usb/Walk/RoundTrip.antt =====
-- Printing a configuration and walking through its bytes.
use serialusb.Common.{
  ℕ, ◌+◌, ◌-◌, ◌<◌, ◌≡◌, sym, ap, ◌∙◌, true, Option, none, some, List, [], ◌∷◌, ◌++◌, arith, length,
  append-nil, replicate, subst, All, All-append,
}
use serialusb.Common.Int.{ℤ, pos}
use serialusb.Common.Bytes.{from_le16-le16}
use serialusb.Gasync.Usb.{
  Configuration, Interface, InterfaceDescriptor, AltInterface, EndpointDescriptor,
}
use serialusb.Gasync.Usb.Calls.{Libusb}
use serialusb.Gasync.Usb.Probe.{
  Probing, num_interfaces, interface_at, no_interface, new_alt, optional_string,
}
use serialusb.Gasync.Usb.Walk.{probe_configuration, probe_loop}
use serialusb.Gasync.Usb.Walk.Items.{IsItem, AreReadable, items_bytes}
use serialusb.Gasync.Usb.Walk.Refine.{Walked, walked, stopped, probe_loop-Walked}
use serialusb.Gasync.Usb.Walk.Tree.{
  Hid, Setting, setting_items, interface_items, tree_items, hid_items, endpoint_items, tree_view,
  AreSettings, AreInterfaces, AreEndpoints, config_bytes,
}
use serialusb.Gasync.Usb.Walk.Assembly.{apply_items-tree}

-- The sizes of all endpoints are of 16 bits.
endpoint_items-IsItem :
    (es : List (EndpointDescriptor × List ℕ)) → AreEndpoints es → All IsItem (endpoint_items es)
endpoint_items-IsItem [] h = tt
endpoint_items-IsItem ((e, extra) ∷ es) h = (h.0, endpoint_items-IsItem es h.1)

hid_items-IsItem : (h : Option Hid) → All IsItem (hid_items h)
hid_items-IsItem none = tt
hid_items-IsItem (some h) = (tt, tt)

interface_items-IsItem :
    (n a : ℕ) (ss : List Setting) → AreSettings n a ss → All IsItem (interface_items ss)
interface_items-IsItem n a [] v = tt
interface_items-IsItem n a (s ∷ ss) v =
    All-append IsItem (setting_items s) (interface_items ss)
      (
        tt,
        All-append IsItem (hid_items s.hid_descriptor) (endpoint_items s.endpoints)
            (hid_items-IsItem s.hid_descriptor) (endpoint_items-IsItem s.endpoints v.0.sizes),
      )
      (interface_items-IsItem n (a + 1) ss v.1)

tree_items-IsItem :
    (n : ℕ) (tree : List (List Setting)) → AreInterfaces n tree → All IsItem (tree_items tree)
tree_items-IsItem n [] v = tt
tree_items-IsItem n (ss ∷ tree) v =
    All-append IsItem (interface_items ss) (tree_items tree) (interface_items-IsItem n 0 ss v.0)
      (tree_items-IsItem (n + 1) tree v.2)

module _ {Cb : Type 0} (sys : Libusb Cb) (memory : (w : sys.W) → (sys.allocate w).1 ≡ true)
    (answers : (h : Option ℕ) (type request value index size timeout : ℕ) (w : sys.W)
      → (bs : List ℕ) × ((sys.control_transfer h type request value index size timeout w).1
          ≡ some bs))
    (value string attributes power : ℕ) (tree : List (List Setting)) (sound : AreInterfaces 0 tree)
    (small : 9 + length (items_bytes (tree_items tree)) < 65536)
    (readable : AreReadable (tree_items tree) []) where
  -- The probing ends with 0 and the configuration that was printed.
  pub record Parsed (out : Option (Probing sys × ℤ)) : Type 0 where
    pub final : Probing sys
    pub returns : out ≡ some (final, pos 0)
    pub conf : final.conf ≡ record {
      raw = config_bytes value string attributes power tree;
      descriptor = some (record {
        b_length = 9;
        w_total_length = 9 + length (items_bytes (tree_items tree));
        b_num_interfaces = length tree;
        i_configuration = string;
      });
      interfaces = tree_view tree;
    }

  parsed :
      (c : Configuration) (out : Option (Probing sys × ℤ))
      → Walked sys memory answers (some c) out
      → (p : Probing sys) × (out ≡ some (p, pos 0)) × (c ≡ p.conf)
  parsed c out (walked p e r) = (p, r, cc)
  parsed c out (stopped p e r) = absurd cc

  -- Printing and parsing: if the interfaces and alternate settings of a configuration stand where
  -- their numbers say, HID descriptors in interfaces of their class, with fewer than 256 alternate
  -- settings of an interface and endpoints of a setting, all of it in fewer than 65536 bytes, and
  -- behind each HID descriptor at least one byte of the configuration for each of its entries,
  -- then, with memory and a device that answers, probing the bytes that are printed for it succeeds
  -- on more fuel than there are descriptors and gives exactly these interfaces, with their
  -- settings, HID descriptors and endpoints in their order.
  pub probe_configuration-Parsed :
      (fuel : ℕ) (p : Probing sys)
      → p.conf.raw ≡ config_bytes value string attributes power tree
      → length (tree_items tree) < fuel
      → Parsed (probe_configuration sys fuel p)
  unfolding probe_configuration serialusb.Gasync.Usb.Probe.config_at
  probe_configuration-Parsed fuel p e h =
      let xs = tree_items tree in
      let total = 9 + length (items_bytes xs) in
      let (d, w) = optional_string sys string p.device (sys.allocate p.world).0 in
      let c : Configuration = record {
        raw = config_bytes value string attributes power tree;
        descriptor = some (record {
          b_length = 9;
          w_total_length = total;
          b_num_interfaces = length tree;
          i_configuration = string;
        });
        interfaces = replicate (length tree) no_interface;
      } in
      let start : Probing sys = record { conf = c; device = d; world = w } in
      let built = apply_items-tree c [] none tree (omega arith) sound in
      let run : Walked sys memory answers (some (record c { interfaces = tree_view tree }))
          (probe_loop sys fuel (length (items_bytes xs)) (items_bytes xs ++ []) none start) =
        subst
          (λ x.
            Walked sys memory answers x
              (probe_loop sys fuel (length (items_bytes xs)) (items_bytes xs ++ []) none start))
          built
          (probe_loop-Walked sys memory answers fuel none xs [] start
            (tree_items-IsItem 0 tree sound) readable h) in
      let (final, returns, same) = parsed _ _ run in
      let all = append-nil (items_bytes xs) in
      let length_read = from_le16-le16 total small in
      let left : total - 9 ≡ length (items_bytes xs) = omega arith in
      record {
        final = final;
        returns =
            rw (e, length_read, left, memory p.world)
              (ap (λ ys. probe_loop sys fuel (length (items_bytes xs)) ys none start) (sym all)
                ∙ returns);
        conf = sym same;
      }
