-- ===== src/Gasync/Usb/Walk/Endless.antt =====
-- The walk through a configuration at a descriptor whose length is 0.
use serialusb.Common.{
  ℕ, zero, suc, ◌+◌, ◌-◌, ◌≡◌, refl, false, Option, none, List, ◌∷◌, ◌==◌, arith,
}
use serialusb.Gasync.Usb.{InterfaceDescriptor}
use serialusb.Gasync.Usb.Calls.{Libusb}
use serialusb.Gasync.Usb.Probe.{Probing}
use serialusb.Gasync.Usb.Walk.{probe_descriptor, probe_loop}

-- At a descriptor of length 0 that is not an interface, an endpoint or a HID descriptor, before the end
-- of the configuration, the walk never ends: it returns nothing on any fuel.
pub probe_loop_endless :
    {Cb : Type 0} (sys : Libusb Cb) (fuel left type : ℕ) (rest : List ℕ)
    (current : Option InterfaceDescriptor) (p : Probing sys)
    → (type == 4) ≡ false
    → (type == 5) ≡ false
    → (type == 33) ≡ false
    → probe_loop sys fuel (left + 1) (0 ∷ type ∷ rest) current p ≡ none
unfolding probe_loop probe_descriptor
probe_loop_endless sys zero left type rest current p a b c = refl
probe_loop_endless sys (suc fuel) left type rest current p a b c =
    let more : (left + 1 == 0) ≡ false = ground arith in
    let stays : left + 1 - 0 ≡ left + 1 = omega arith in
    rw (more, a, b, c, stays) (probe_loop_endless sys fuel left type rest current p a b c)
