-- ===== src/Gasync/Usb/Walk/Keeping.antt =====
-- The fields of the device that the walk through a configuration does not touch.
use serialusb.Common.{
  ℕ, zero, suc, ◌*◌, ◌≡◌, refl, inl, inr, Option, none, List, ◌==◌, leb, Bool-cases, Option-cases,
  get_elem?, drop,
}
use serialusb.Common.Int.{ℤ, pos, is_neg}
use serialusb.Common.Bytes.{from_le16}
use serialusb.Gasync.Usb.{UsbDevice, InterfaceDescriptor, EndpointDescriptor}
use serialusb.Gasync.Usb.Calls.{Libusb}
use serialusb.Gasync.Usb.Probe.{
  Probing, num_interfaces, alt_at, get_interface, config_at, interface_descriptor_at,
  endpoint_descriptor_at, optional_string,
}
use serialusb.Gasync.Usb.Probe.Frame.{
  frame, Keeps, nothing, keeps, Keeps-chain, Keeps-any, Keeps-trans, frame-with_entry,
  frame-add_descriptor, frame-optional_string,
}
use serialusb.Gasync.Usb.Walk.{
  read_one, read_report, probe_interface, probe_hid, probe_endpoint, probe_descriptor, probe_loop,
  probe_configuration,
}

module _ {Cb : Type 0} (sys : Libusb Cb) where
  abbrev pub device_of : UsbDevice Cb × sys.W × ℤ → UsbDevice Cb
  device_of x = x.0

  abbrev pub probed_device : Probing sys × ℤ → UsbDevice Cb
  probed_device x = x.0.device

  abbrev pub described_device : Option InterfaceDescriptor × Probing sys × ℤ → UsbDevice Cb
  described_device x = x.1.device

  frame-read_one :
      (type size number : ℕ) (d : UsbDevice Cb) (w : sys.W)
      → frame (read_one sys type size number d w).0 ≡ frame d
  unfolding read_one
  frame-read_one type size number d w =
      let w1 = (sys.allocate w).0 in
      let got = sys.control_transfer d.devh 129 6 (type * 256) number size 1000 w1 in
      elim (Bool-cases (sys.allocate w).1) [
        | inr full ↦ rw full refl
        | inl found ↦ rw found (elim (Option-cases got.1) [
          | inl failed ↦ rw failed refl
          | inr (bs, e) ↦ rw e (frame-add_descriptor sys _ _ bs d got.0)
        ])
      ]

  read_report-Keeps :
      (n : ℕ) (ptr : List ℕ) (number : ℕ) (d : UsbDevice Cb) (w : sys.W)
      → Keeps device_of d (read_report sys n ptr number d w)
  unfolding read_report
  read_report-Keeps zero ptr number d w = keeps (d, w, pos 0) refl refl
  read_report-Keeps (suc n) ptr number d w = Keeps-any device_of d (get_elem? ptr 0) _ (λ type.
      Keeps-any device_of d (get_elem? ptr 2) _ (λ lo.
        Keeps-any device_of d (get_elem? ptr 3) _ (λ hi. elim (Bool-cases (from_le16 lo hi == 0)) [
          | inl empty ↦ rw empty (read_report-Keeps n (drop 4 ptr) number d w)
          | inr full ↦ rw full (keeps _ refl (frame-read_one type (from_le16 lo hi) number d w))
        ])))

  frame-probe_interface :
      (i : InterfaceDescriptor) (p : Probing sys)
      → frame (probe_interface sys i p).0.device ≡ frame p.device
  unfolding probe_interface
  frame-probe_interface i p = elim (Bool-cases (leb (num_interfaces p.conf) i.b_interface_number)) [
    | inl bad ↦ rw bad refl
    | inr good ↦ rw good (elim (Bool-cases (sys.allocate p.world).1) [
      | inr full ↦ rw full refl
      | inl found ↦
          rw found (frame-optional_string sys i.i_interface p.device (sys.allocate p.world).0)
    ])
  ]

  frame-probe_endpoint :
      (interface : Option InterfaceDescriptor) (e : EndpointDescriptor) (p : Probing sys)
      → frame (probe_endpoint sys interface e p).0.device ≡ frame p.device
  unfolding probe_endpoint
  frame-probe_endpoint interface e p = elim (Option-cases (get_interface interface p.conf)) [
    | inl missing ↦ rw (probe_endpoint, missing) refl
    | inr (place, there) ↦
        rw (probe_endpoint, there)
          (elim (Bool-cases (sys.allocate p.world).1) [
            | inr full ↦ rw full refl
            | inl found ↦ rw found (frame-with_entry e p.device)
          ])
  ]

  probe_hid-Keeps :
      (interface : Option InterfaceDescriptor) (ptr : List ℕ) (p : Probing sys)
      → Keeps probed_device p.device (probe_hid sys interface ptr p)
  unfolding probe_hid
  probe_hid-Keeps interface ptr p = elim (Option-cases (get_interface interface p.conf)) [
    | inl missing ↦ rw (probe_hid, missing) (keeps _ refl refl)
    | inr (place, there) ↦
        let (n, a) = place in
        rw (probe_hid, there)
          (elim (Bool-cases ((alt_at p.conf n a).descriptor.b_interface_class == 3)) [
            | inr other ↦ rw other (keeps _ refl refl)
            | inl is_hid ↦ rw is_hid (
                Keeps-any probed_device p.device (get_elem? ptr 5) _ (λ count.
                  Keeps-chain device_of probed_device p.device _ _
                    (read_report-Keeps count (drop 6 ptr)
                      (alt_at p.conf n a).descriptor.b_interface_number p.device p.world)
                    (λ x same. keeps _ refl same)))
          ])
  ]

  probe_descriptor-Keeps :
      (type : ℕ) (ptr : List ℕ) (interface : Option InterfaceDescriptor) (p : Probing sys)
      → Keeps described_device p.device (probe_descriptor sys type ptr interface p)
  unfolding probe_descriptor
  probe_descriptor-Keeps type ptr interface p = elim (Bool-cases (type == 4)) [
    | inl e ↦ rw e (
        Keeps-any described_device p.device (interface_descriptor_at ptr) _
          (λ i. keeps _ refl (frame-probe_interface i p)))
    | inr e ↦ rw e (elim (Bool-cases (type == 5)) [
      | inl f ↦ rw f (
          Keeps-any described_device p.device (endpoint_descriptor_at ptr) _
            (λ d. keeps _ refl (frame-probe_endpoint interface d p)))
      | inr f ↦ rw f (elim (Bool-cases (type == 33)) [
        | inl g ↦ rw g (
            Keeps-chain probed_device described_device p.device _ _
              (probe_hid-Keeps interface ptr p) (λ x same. keeps _ refl same))
        | inr g ↦ rw g (keeps _ refl refl)
      ])
    ])
  ]

  probe_loop-Keeps :
      (fuel left : ℕ) (ptr : List ℕ) (interface : Option InterfaceDescriptor) (p : Probing sys)
      → Keeps probed_device p.device (probe_loop sys fuel left ptr interface p)
  unfolding probe_loop
  probe_loop-Keeps zero left ptr interface p = nothing refl
  probe_loop-Keeps (suc fuel) left ptr interface p = elim (Bool-cases (left == 0)) [
    | inl over ↦ rw over (keeps _ refl refl)
    | inr more ↦ rw more (
        Keeps-any probed_device p.device (get_elem? ptr 0) _ (λ b_length.
          Keeps-any probed_device p.device (get_elem? ptr 1) _ (λ type.
            Keeps-chain described_device probed_device p.device _ _
              (probe_descriptor-Keeps type ptr interface p)
              (λ x same. elim (Bool-cases (is_neg x.2)) [
                | inl bad ↦ rw bad (keeps _ refl same)
                | inr good ↦ rw good (
                    Keeps-trans probed_device p.device x.1.device _
                      (probe_loop-Keeps fuel _ (drop b_length ptr) x.0 x.1) same)
              ]))))
  ]

  pub probe_configuration-Keeps :
      (fuel : ℕ) (p : Probing sys) → Keeps probed_device p.device (probe_configuration sys fuel p)
  unfolding probe_configuration
  probe_configuration-Keeps fuel p =
      Keeps-any probed_device p.device (config_at p.conf.raw) _ (λ descriptor.
        let w = (sys.allocate p.world).0 in
        elim (Bool-cases (sys.allocate p.world).1) [
          | inr full ↦ rw full (keeps _ refl refl)
          | inl found ↦ rw found (
              Keeps-trans probed_device p.device
                (optional_string sys descriptor.i_configuration p.device w).0 _
                (probe_loop-Keeps fuel _ _ none _)
                (frame-optional_string sys descriptor.i_configuration p.device w))
        ])
