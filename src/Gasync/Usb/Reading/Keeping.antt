-- ===== src/Gasync/Usb/Reading/Keeping.antt =====
-- The fields of a device that the reading of its descriptors does not touch.
use serialusb.Common.{
  ℕ, zero, suc, ◌+◌, ◌≡◌, refl, ◌∙◌, inl, inr, ◌||◌, ◌==◌, Bool-cases, Option-cases, get_or,
  get_elem?, replicate,
}
use serialusb.Common.Int.{is_neg}
use serialusb.Common.Bytes.{from_le16}
use serialusb.Gasync.Usb.{UsbDevice}
use serialusb.Gasync.Usb.Calls.{Libusb}
use serialusb.Gasync.Usb.Probe.{optional_string, with_descriptors}
use serialusb.Gasync.Usb.Probe.Frame.{
  frame, Keeps, keeps, Keeps-chain, Keeps-any, Keeps-trans, frame-optional_string,
}
use serialusb.Gasync.Usb.Walk.Keeping.{device_of, probed_device, probe_configuration-Keeps}
use serialusb.Gasync.Usb.Reading.{
  probe_from, probe_configurations, overwritten, read_configuration, with_raw, read_from,
  num_configurations, get_configurations, get_device, get_lang_id_0, get_descriptors,
}

module _ {Cb : Type 0} (sys : Libusb Cb) where
  probe_from-Keeps :
      (fuel n i : ℕ) (d : UsbDevice Cb) (w : sys.W)
      → Keeps (device_of sys) d (probe_from sys fuel n i d w)
  unfolding probe_from
  probe_from-Keeps fuel zero i d w = keeps _ refl refl
  probe_from-Keeps fuel (suc n) i d w =
      Keeps-any (device_of sys) d (get_elem? d.descriptors.configurations i) _ (λ conf.
        Keeps-chain (probed_device sys) (device_of sys) d _ _
          (probe_configuration-Keeps sys fuel (record { conf = conf; device = d; world = w }))
          (λ x same. elim (Bool-cases (is_neg x.1)) [
            | inl bad ↦ rw bad (keeps _ refl same)
            | inr good ↦ rw good (
                Keeps-trans (device_of sys) d _ _ (probe_from-Keeps fuel n (i + 1) _ x.0.world)
                  same)
          ]))

  frame-read_from :
      (n i : ℕ) (d : UsbDevice Cb) (w : sys.W) → frame (read_from sys n i d w).0 ≡ frame d
  unfolding read_from
  frame-read_from zero i d w = refl
  frame-read_from (suc n) i d w =
      let first = read_configuration sys i 9 d w in
      elim (Option-cases first.1) [
        | inl failed ↦ rw (read_from, failed) refl
        | inr (header, got) ↦
            let bytes = overwritten sys header (sys.uninitialised 9 w) in
            let total = from_le16 (get_or bytes 2 0) (get_or bytes 3 0) in
            let second = read_configuration sys i total d (sys.allocate first.0).0 in
            rw (read_from, got)
              (elim (Bool-cases (sys.allocate first.0).1) [
                | inr full ↦ rw full refl
                | inl found ↦ rw found (elim (Option-cases second.1) [
                  | inl failed ↦ rw failed refl
                  | inr (bs, more) ↦ rw more (
                      frame-read_from n (i + 1)
                        (with_raw sys i (overwritten sys bs (replicate total 0)) d) second.0)
                ])
              ])
      ]

  frame-get_configurations :
      (d : UsbDevice Cb) (w : sys.W) → frame (get_configurations sys d w).0 ≡ frame d
  unfolding get_configurations
  frame-get_configurations d w = elim (Bool-cases (sys.allocate w).1) [
    | inr full ↦ rw full refl
    | inl found ↦ rw found (frame-read_from _ 0 _ (sys.allocate w).0)
  ]

  frame-get_device : (d : UsbDevice Cb) (w : sys.W) → frame (get_device sys d w).0 ≡ frame d
  unfolding get_device
  frame-get_device d w =
      let got = sys.control_transfer d.devh 128 6 256 0 18 1000 w in
      elim (Option-cases got.1) [
        | inl failed ↦ rw (get_device, failed) refl
        | inr (bs, e) ↦
            let d1 = with_descriptors (λ r. record r { device = overwritten sys bs r.device }) d in
            let (d2, w2) = optional_string sys (get_or d1.descriptors.device 14 0) d1 got.0 in
            let (d3, w3) = optional_string sys (get_or d1.descriptors.device 15 0) d2 w2 in
            rw (get_device, e)
              (frame-optional_string sys (get_or d1.descriptors.device 16 0) d3 w3
                ∙ frame-optional_string sys (get_or d1.descriptors.device 15 0) d2 w2
                ∙ frame-optional_string sys (get_or d1.descriptors.device 14 0) d1 got.0)
      ]

  frame-get_lang_id_0 : (d : UsbDevice Cb) (w : sys.W) → frame (get_lang_id_0 sys d w).0 ≡ frame d
  unfolding get_lang_id_0
  frame-get_lang_id_0 d w =
      let got = sys.control_transfer d.devh 128 6 768 0 4 1000 w in
      elim (Option-cases got.1) [
        | inl failed ↦ rw (get_lang_id_0, failed) refl
        | inr (bs, e) ↦ rw (get_lang_id_0, e) refl
      ]

  pub get_descriptors-Keeps :
      (fuel : ℕ) (d : UsbDevice Cb) (w : sys.W)
      → Keeps (device_of sys) d (get_descriptors sys fuel d w)
  unfolding get_descriptors probe_configurations
  get_descriptors-Keeps fuel d w =
      let (d1, w1) = get_lang_id_0 sys d w in
      let (d2, w2, ret) = get_device sys d1 w1 in
      let (d3, w3, ret') = get_configurations sys d2 w2 in
      let same2 = frame-get_device d1 w1 ∙ frame-get_lang_id_0 d w in
      let same3 = frame-get_configurations d2 w2 ∙ same2 in
      elim (Bool-cases (is_neg ret || (num_configurations sys d2 == 0))) [
        | inl bad ↦ rw bad (keeps _ refl same2)
        | inr good ↦ rw good (elim (Bool-cases (is_neg ret')) [
          | inl failed ↦ rw failed (keeps _ refl same3)
          | inr read ↦ rw read (
              Keeps-trans (device_of sys) d d3 _
                (probe_from-Keeps fuel (num_configurations sys d3) 0 d3 w3) same3)
        ])
      ]
