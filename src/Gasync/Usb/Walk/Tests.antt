-- ===== src/Gasync/Usb/Walk/Tests.antt =====
-- The configuration of a mouse, walked through with a libusb that answers every request.
use serialusb.Common.{◌≡◌, refl, arith, none, some, List, [], ◌∷◌}
use serialusb.Gasync.Usb.{InterfaceDescriptor, EndpointDescriptor, no_usb_device}
use serialusb.Gasync.Usb.Probe.{Probing}
use serialusb.Gasync.Usb.Reading.{no_configuration}
use serialusb.Gasync.Usb.Walk.{probe_configuration, probe_loop}
use serialusb.Gasync.Usb.Walk.Items.{Item, endpoint, AreReadable, items_bytes, apply_items}
use serialusb.Gasync.Usb.Walk.Tree.{Setting, tree_items, AreInterfaces, config_bytes}
use serialusb.Gasync.Usb.Walk.Refine.{Walked, probe_loop-Walked}
use serialusb.Gasync.Usb.Walk.RoundTrip.{Parsed, probe_configuration-Parsed}
use serialusb.Gasync.Usb.Walk.Endless.{probe_loop_endless}
use serialusb.Gasync.Usb.Tests.{libusb}

abbrev mouse_interface : InterfaceDescriptor
mouse_interface = record {
  b_interface_number = 0;
  b_alternate_setting = 0;
  b_interface_class = 3;
  i_interface = 0;
}

abbrev mouse_endpoint : EndpointDescriptor
mouse_endpoint = record { b_endpoint_address = 129; bm_attributes = 3; w_max_packet_size = 8 }

-- One interface, with a HID descriptor for a report descriptor of 52 bytes, and an endpoint.
abbrev mouse_tree : List (List Setting)
mouse_tree =
    (record {
      descriptor = mouse_interface;
      subclass = 1;
      protocol = 2;
      hid_descriptor = some (record {
        lo = 17;
        hi = 1;
        country = 0;
        reports = record { type = 34; lo = 52; hi = 0 } ∷ [];
      });
      endpoints = (mouse_endpoint, 10 ∷ []) ∷ [];
    }
      ∷ [])
    ∷ []

mouse_tree_sound : AreInterfaces 0 mouse_tree
mouse_tree_sound = (
  (
    record {
      number = refl;
      setting = refl;
      of_class = refl;
      few = omega arith;
      sizes = (omega arith, tt);
    },
    tt,
  ),
  omega arith,
  tt,
)

mouse_tree_readable : AreReadable (tree_items mouse_tree) []
mouse_tree_readable = (omega arith, (omega arith, (omega arith, tt)))

abbrev start : Probing libusb
start = record {
  conf = record no_configuration { raw = config_bytes 1 0 160 50 mouse_tree };
  device = no_usb_device;
  world = [];
}

probe_configuration-Parsed_example :
    Parsed libusb
      (λ w. refl)
      (λ h t r v i n timeout w. (1 ∷ 1 ∷ 1 ∷ 1 ∷ [], refl))
      1
      0
      160
      50
      mouse_tree
      mouse_tree_sound
      (omega arith)
      mouse_tree_readable
      (probe_configuration libusb 4 start)
probe_configuration-Parsed_example =
    probe_configuration-Parsed libusb (λ w. refl)
      (λ h t r v i n timeout w. (1 ∷ 1 ∷ 1 ∷ 1 ∷ [], refl)) 1 0 160 50 mouse_tree mouse_tree_sound
      (omega arith) mouse_tree_readable 4 start refl (omega arith)

-- An endpoint before any interface is refused.
abbrev stray : List Item
stray = endpoint mouse_endpoint (10 ∷ []) ∷ []

probe_loop-Walked_example :
    Walked libusb
      (λ w. refl)
      (λ h t r v i n timeout w. (1 ∷ 1 ∷ 1 ∷ 1 ∷ [], refl))
      (apply_items none stray start.conf)
      (probe_loop libusb 2 7 (items_bytes stray) none start)
probe_loop-Walked_example =
    probe_loop-Walked libusb (λ w. refl) (λ h t r v i n timeout w. (1 ∷ 1 ∷ 1 ∷ 1 ∷ [], refl)) 2
      none stray [] start (omega arith, tt) (omega arith, tt) (omega arith)

probe_loop_endless_example : probe_loop libusb 100 9 (0 ∷ 2 ∷ []) none start ≡ none
probe_loop_endless_example = probe_loop_endless libusb 100 8 2 [] none start refl refl refl

-- A configuration that ends with its HID descriptor: the walk reads past its bytes.
abbrev ends_with_hid : List (List Setting)
ends_with_hid =
    (record {
      descriptor = mouse_interface;
      subclass = 1;
      protocol = 2;
      hid_descriptor = some (record {
        lo = 17;
        hi = 1;
        country = 0;
        reports = record { type = 34; lo = 52; hi = 0 } ∷ [];
      });
      endpoints = [];
    }
      ∷ [])
    ∷ []

past_end_test :
    probe_configuration libusb 4 (record start {
      conf = record no_configuration { raw = config_bytes 1 0 160 50 ends_with_hid };
    })
    ≡ none
unfolding probe_configuration
past_end_test = refl
