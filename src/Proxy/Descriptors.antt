-- ===== src/Proxy/Descriptors.antt =====
-- `add_descriptor` and `send_descriptors` of sw/proxy.c: the table of descriptors that the firmware
-- answers from, and its index.
pub mod Index
use serialusb.Common.{
  ℕ, zero, suc, ◌+◌, Bool, true, false, ◌||◌, List, [], ◌∷◌, ◌++◌, map, if◌then◌else◌, ltb, leb,
  length,
}
use serialusb.Common.Int.{ℤ, pos, minus_one, is_neg}
use serialusb.Gasync.Usb.{Descriptor}
use serialusb.Protocol.{max_descriptors_size, max_descriptors, e_type_descriptors, DescriptorIndex}
use serialusb.Proxy.State.{Proxy, Request, send, request}

-- What `s_usb_descriptors` holds: the device descriptor, the first language descriptor, the raw bytes
-- of the configurations, and the other descriptors.
pub record DeviceDescriptors : Type 0 where
  pub device : List ℕ
  pub lang_id_0 : List ℕ
  pub configurations : List (List ℕ)
  pub others : List Descriptor

unfoldable pub add_descriptor : Descriptor → Proxy → Proxy × ℤ
add_descriptor d p =
    if ltb max_descriptors_size (length p.desc + length d.bytes)
      || leb max_descriptors (length p.desc_index)
    then (p, minus_one)
    else (
      record p {
        desc = p.desc ++ d.bytes;
        desc_index =
            p.desc_index
            ++ (record {
              offset = length p.desc;
              w_value = d.w_value;
              w_index = d.w_index;
              w_length = length d.bytes;
            }
                ∷ []);
      },
      pos 0,
    )

-- A run of calls that stops at the first failure.
unfoldable pub add_all : List Descriptor → Proxy → Proxy × ℤ
add_all [] p = (p, pos 0)
add_all (d ∷ ds) p =
    let (q, ret) = add_descriptor d p in
    let later = add_all ds q in if is_neg ret then (q, minus_one) else later

-- The configurations, with their values (USB_DT_CONFIG << 8) | descNumber.
abbrev pub configuration_entries : ℕ → List (List ℕ) → List Descriptor
configuration_entries n [] = []
configuration_entries n (raw ∷ raws) =
    record { w_value = 512 + n; w_index = 0; bytes = raw } ∷ configuration_entries (n + 1) raws

-- All that `send_descriptors` adds, in order: USB_DT_DEVICE is 1, USB_DT_STRING is 3.
abbrev pub entries : DeviceDescriptors → List Descriptor
entries s =
    record { w_value = 256; w_index = 0; bytes = s.device }
    ∷ record { w_value = 768; w_index = 0; bytes = s.lang_id_0 }
    ∷ (configuration_entries 0 s.configurations ++ s.others)

unfoldable pub send_descriptors :
    (List Request → Request → ℤ) → DeviceDescriptors → Proxy → Proxy × ℤ
unfolding add_all add_descriptor
send_descriptors answer s p =
    let (q, ret) = add_all (entries s) p in
    let (q', ret') = request answer (send e_type_descriptors q.desc) q in
    if is_neg ret then (q, minus_one) else (q', if is_neg ret' then minus_one else pos 0)
