-- ===== src/Gasync/Usb/Finding/Tests.antt =====
-- A bus with three devices, of which the second has no readable port numbers.
use serialusb.Common.{
  ℕ, ◌≡◌, refl, true, Option, none, some, List, [], ◌∷◌, map, length, replicate, take, ◌==◌,
  if◌then◌else◌,
}
use serialusb.Common.Int.{ℤ, pos}
use serialusb.Gasync.Usb.{Usb, Transfer, no_usb_device}
use serialusb.Gasync.Usb.Tests.{libusb}
use serialusb.Gasync.Usb.Opening.{Bus, path_string, make_path}
use serialusb.Gasync.Usb.Finding.{UsbDev, gusb_enumerate, gusb_free_enumeration, gusb_open_path}
use serialusb.Gasync.Usb.Finding.Chain.{gusb_free_enumeration-gusb_enumerate}

abbrev bus : Bus ℕ
bus = record {
  libusb = libusb;
  ctx = λ w. true;
  get_device_list = λ w. (w, some (1 ∷ 2 ∷ 3 ∷ []));
  free_device_list = λ w. w;
  get_bus_number = λ dev. 1;
  get_port_numbers = λ dev. if dev == 2 then none else some (dev ∷ 26 ∷ []);
  get_device_descriptor =
      λ dev w. (w, some (record { id_vendor = 1133; id_product = dev; b_num_configurations = 1 }));
  open_handle = λ dev w. (w, some dev);
  set_auto_detach = λ h w. w;
  reset_device = λ h w. (w, pos 0);
  get_configuration = λ h w. (w, some 1);
  set_configuration = λ h n w. (w, pos 0);
  get_device_of = λ h w. h;
  get_config_descriptor = λ dev w. (w, some (0 ∷ []));
  free_config_descriptor = λ w. w;
  claim_interface = λ h n w. (w, pos 0);
  release_interface = λ h n w. (w, pos 0);
  close_handle = λ h w. w;
}

-- "01:1a"
path_test : path_string (1 ∷ 26 ∷ []) ≡ (48 ∷ 49 ∷ 58 ∷ 49 ∷ 97 ∷ [])
unfolding path_string
path_test = refl

enumerate_test : length (gusb_enumerate bus 1133 0 []).1 ≡ 2
unfolding gusb_enumerate make_path
enumerate_test = refl

gusb_free_enumeration-gusb_enumerate_example :
    gusb_free_enumeration (gusb_enumerate bus 1133 0 []).1
    ≡ some (map (λ (x : UsbDev). x.path) (gusb_enumerate bus 1133 0 []).1)
gusb_free_enumeration-gusb_enumerate_example = gusb_free_enumeration-gusb_enumerate bus 1133 0 []

abbrev closed : Usb ℕ
closed = record { devices = replicate 256 no_usb_device; transfers = [] }

abbrev path : List ℕ
path = 48 ∷ 49 ∷ 58 ∷ 48 ∷ 51 ∷ 58 ∷ 49 ∷ 97 ∷ []

-- A mouse: its device descriptor, and its configuration with an interface, a HID descriptor and an
-- endpoint. Any other request is answered by four bytes.
abbrev mouse_answer : ℕ → ℕ → List ℕ
mouse_answer value size =
    if value == 256
    then 18 ∷ 1 ∷ 0 ∷ 2 ∷ 0 ∷ 0 ∷ 0 ∷ 8 ∷ 109 ∷ 4 ∷ 1 ∷ 0 ∷ 0 ∷ 1 ∷ 0 ∷ 0 ∷ 0 ∷ 1 ∷ []
    else (if value == 512
        then take size (
            9 ∷ 2 ∷ 34 ∷ 0 ∷ 1 ∷ 1 ∷ 0 ∷ 160 ∷ 50 ∷ 9 ∷ 4 ∷ 0 ∷ 0 ∷ 1 ∷ 3 ∷ 1 ∷ 2 ∷ 0 ∷ 9 ∷ 33 ∷ 17
            ∷ 1 ∷ 0 ∷ 1 ∷ 34 ∷ 52 ∷ 0 ∷ 7 ∷ 5 ∷ 129 ∷ 3 ∷ 8 ∷ 0 ∷ 10 ∷ [])
        else replicate 4 1)

abbrev mouse_bus : Bus ℕ
mouse_bus = record bus {
  libusb = record libusb {
    control_transfer = λ h t r v i n timeout w. (w, some (mouse_answer v n));
  };
}

abbrev result_of : Option (Usb ℕ × List Transfer × ℤ) → Option ℤ
result_of none = none
result_of (some (u, w, ret)) = some ret

-- The third device of the list has the path, and is opened in the first entry.
opened_test : result_of (gusb_open_path mouse_bus 100 (some path) closed []) ≡ some (pos 0)
unfolding gusb_open_path make_path
opened_test = refl
