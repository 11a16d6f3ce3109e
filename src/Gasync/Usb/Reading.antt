-- ===== src/Gasync/Usb/Reading.antt =====
-- usb/gusb.c of sw/lib/gasync: the reading of all the descriptors of a device.
pub mod Keeping
use serialusb.Common.{
  ℕ, zero, suc, ◌+◌, ◌||◌, Option, none, some, List, [], ◌++◌, if◌then◌else◌, ◌==◌, get_or,
  get_elem?, set, replicate, drop, length, ◌>>=◌,
}
use serialusb.Common.Int.{ℤ, pos, minus_one, is_neg}
use serialusb.Common.Bytes.{from_le16}
use serialusb.Gasync.Usb.{UsbDevice, Configuration, usbasync_default_timeout}
use serialusb.Gasync.Usb.Calls.{Libusb}
use serialusb.Gasync.Usb.Walk.{probe_configuration}
use serialusb.Gasync.Usb.Probe.{with_descriptors, get_string_descriptor, optional_string}

abbrev pub no_configuration : Configuration
no_configuration = record { raw = []; descriptor = none; interfaces = [] }

module _ {Cb : Type 0} (sys : Libusb Cb) where
  open sys use {W}

  -- The `for` of `probe_configurations`: `n` configurations, from index `i` on.
  unfoldable pub probe_from : ℕ → ℕ → ℕ → UsbDevice Cb → W → Option (UsbDevice Cb × W × ℤ)
  unfolding probe_configuration
  probe_from fuel zero i d w = some (d, w, pos 0)
  probe_from fuel (suc n) i d w = do
    conf ← get_elem? d.descriptors.configurations i
    (p, ret) ← probe_configuration sys fuel (record { conf = conf; device = d; world = w })
    let d' =
          with_descriptors (λ s. record s { configurations = set s.configurations i p.conf })
            p.device in
        if is_neg ret then some (d', p.world, minus_one) else probe_from fuel n (i + 1) d' p.world

  abbrev pub num_configurations : UsbDevice Cb → ℕ
  num_configurations d = get_or d.descriptors.device 17 0

  unfoldable pub probe_configurations : ℕ → UsbDevice Cb → W → Option (UsbDevice Cb × W × ℤ)
  unfolding probe_from
  probe_configurations fuel d w = probe_from fuel (num_configurations d) 0 d w

  -- The bytes that a transfer overwrites at the start of a buffer.
  abbrev pub overwritten : List ℕ → List ℕ → List ℕ
  overwritten bs old = bs ++ drop (length bs) old

  -- GET_DESCRIPTOR of configuration `i`, whose type is 2.
  abbrev pub read_configuration : ℕ → ℕ → UsbDevice Cb → W → W × Option (List ℕ)
  read_configuration i size d w =
      sys.control_transfer d.devh 128 6 (512 + i) 0 size usbasync_default_timeout w

  abbrev pub with_raw : ℕ → List ℕ → UsbDevice Cb → UsbDevice Cb
  with_raw i raw d =
      with_descriptors
        (λ s. record s {
          configurations =
              set s.configurations i
                (record (get_or s.configurations i no_configuration) { raw = raw });
        })
        d

  -- The `for` of `get_configurations`: the header is read to learn the length, then all of it.
  unfoldable pub read_from : ℕ → ℕ → UsbDevice Cb → W → UsbDevice Cb × W × ℤ
  read_from zero i d w = (d, w, pos 0)
  read_from (suc n) i d w =
      let (w1, got) = read_configuration i 9 d w in
      elim got [
        | none ↦ (d, w1, minus_one)
        | some header ↦
            let bytes = overwritten header (sys.uninitialised 9 w) in
            let total = from_le16 (get_or bytes 2 0) (get_or bytes 3 0) in
            let (w2, found) = sys.allocate w1 in
            let (w3, got') = read_configuration i total d w2 in
            if found
            then (elim got' [
              | none ↦ (with_raw i (replicate total 0) d, w3, minus_one)
              | some bs ↦ read_from n (i + 1) (with_raw i (overwritten bs (replicate total 0)) d) w3
            ])
            else (with_raw i [] d, w2, minus_one)
      ]

  unfoldable pub get_configurations : UsbDevice Cb → W → UsbDevice Cb × W × ℤ
  unfolding read_from
  get_configurations d w =
      let (w', found) = sys.allocate w in
      let n = num_configurations d in
      if found
      then read_from n 0
          (with_descriptors (λ s. record s { configurations = replicate n no_configuration }) d) w'
      else (with_descriptors (λ s. record s { configurations = [] }) d, w', minus_one)

  unfoldable pub get_device : UsbDevice Cb → W → UsbDevice Cb × W × ℤ
  unfolding get_string_descriptor
  get_device d w =
      let (w1, got) = sys.control_transfer d.devh 128 6 256 0 18 usbasync_default_timeout w in
      elim got [
        | none ↦ (d, w1, minus_one)
        | some bs ↦
            let d1 = with_descriptors (λ s. record s { device = overwritten bs s.device }) d in
            let (d2, w2) = optional_string sys (get_or d1.descriptors.device 14 0) d1 w1 in
            let (d3, w3) = optional_string sys (get_or d1.descriptors.device 15 0) d2 w2 in
            let (d4, w4) = optional_string sys (get_or d1.descriptors.device 16 0) d3 w3 in
            (d4, w4, pos 0)
      ]

  unfoldable pub get_lang_id_0 : UsbDevice Cb → W → UsbDevice Cb × W
  get_lang_id_0 d w =
      let (w', got) = sys.control_transfer d.devh 128 6 768 0 4 usbasync_default_timeout w in
      elim got [
        | none ↦ (d, w')
        | some bs ↦
            (with_descriptors (λ s. record s { lang_id_0 = overwritten bs s.lang_id_0 }) d, w')
      ]

  unfoldable pub get_descriptors : ℕ → UsbDevice Cb → W → Option (UsbDevice Cb × W × ℤ)
  unfolding get_lang_id_0 get_device get_configurations probe_configurations
  get_descriptors fuel d w =
      let (d1, w1) = get_lang_id_0 d w in
      let (d2, w2, ret) = get_device d1 w1 in
      let (d3, w3, ret') = get_configurations d2 w2 in
      if is_neg ret || (num_configurations d2 == 0)
      then some (d2, w2, minus_one)
      else (if is_neg ret' then some (d3, w3, minus_one) else probe_configurations fuel d3 w3)
