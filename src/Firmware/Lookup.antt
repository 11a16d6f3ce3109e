-- ===== src/Firmware/Lookup.antt =====
-- CALLBACK_USB_GetDescriptor over an index that the PC has sent.
use serialusb.Common.{
  ℕ, zero, suc, ◌+◌, ◌*◌, ◌≤◌, ◌<◌, ◌≡◌, ◌≢◌, refl, sym, ap, ◌∙◌, false, ◌&&◌, Option, none, some,
  List, [], ◌∷◌, ◌++◌, map, arith, if◌then◌else◌, ◌==◌, length, get_or, concat, append_assoc,
  length-append, All,
}
use serialusb.Protocol.{DescriptorIndex, index_bytes, max_descriptors}
use serialusb.Firmware.{Firmware, index_entry, find_descriptor, callback_usb_get_descriptor}

-- The first entry with the value and index asked for, as a list lookup.
unfoldable pub lookup_entry : ℕ → ℕ → List DescriptorIndex → Option (ℕ × ℕ)
lookup_entry w_value w_index [] = none
lookup_entry w_value w_index (e ∷ es) =
    let later = lookup_entry w_value w_index es in
    if w_value == e.w_value && w_index == e.w_index then some (e.offset, e.w_length) else later

-- The fields fit 16 bits, and the value is not the end mark.
pub record IsEntry (e : DescriptorIndex) : Type 0 where
  pub offset : e.offset < 65536
  pub value : e.w_value < 65536
  pub index : e.w_index < 65536
  pub size : e.w_length < 65536
  pub marked : e.w_value ≢ 0

get_or-append_more {ℓ} :
    {A : Type ℓ} (xs ys : List A) (n k : ℕ) (d : A)
    → n ≡ length xs + k
    → get_or (xs ++ ys) n d ≡ get_or ys k d
get_or-append_more [] ys n k d e = ap (λ m. get_or ys m d) (omega arith)
get_or-append_more (x ∷ xs) ys zero k d e = absurd (omega arith)
get_or-append_more (x ∷ xs) ys (suc n) k d e = get_or-append_more xs ys n k d (omega arith)

-- An entry is read back as it was sent.
index_entry-bytes :
    (pre rest : List ℕ) (e : DescriptorIndex) (i : ℕ)
    → length pre ≡ 8 * i
    → IsEntry e
    → index_entry (pre ++ (index_bytes e ++ rest)) i ≡ e
unfolding index_entry
index_entry-bytes pre rest e i h v =
    let bytes = index_bytes e ++ rest in
    let at = λ (n k : ℕ) (q : n ≡ length pre + k). get_or-append_more pre bytes n k 0 q in
    rw
      (
        at (8 * i + 0) 0 (omega arith),
        at (8 * i + 0 + 1) 1 (omega arith),
        at (8 * i + 2) 2 (omega arith),
        at (8 * i + 2 + 1) 3 (omega arith),
        at (8 * i + 4) 4 (omega arith),
        at (8 * i + 4 + 1) 5 (omega arith),
        at (8 * i + 6) 6 (omega arith),
        at (8 * i + 6 + 1) 7 (omega arith),
      )
      (ground (arith, v))

-- The mark behind the last entry ends the search.
index_entry-end :
    (pre tail : List ℕ) (i : ℕ)
    → length pre ≡ 8 * i
    → get_or tail 2 0 ≡ 0
    → get_or tail 3 0 ≡ 0
    → (index_entry (pre ++ tail) i).w_value ≡ 0
unfolding index_entry
index_entry-end pre tail i h z o = rw (
  get_or-append_more pre tail (8 * i + 2) 2 0 (omega arith),
  get_or-append_more pre tail (8 * i + 2 + 1) 3 0 (omega arith),
  z,
  o,
)

find_descriptor-lookup :
    (es : List DescriptorIndex) (n i w x : ℕ) (pre tail : List ℕ) (f : Firmware)
    → length es ≤ n
    → length pre ≡ 8 * i
    → All IsEntry es
    → get_or tail 2 0 ≡ 0
    → get_or tail 3 0 ≡ 0
    → f.desc_index ≡ pre ++ (concat (map index_bytes es) ++ tail)
    → find_descriptor n i w x f ≡ lookup_entry w x es
unfolding find_descriptor lookup_entry
find_descriptor-lookup [] zero i w x pre tail f hn hp v z o e = refl
find_descriptor-lookup [] (suc n) i w x pre tail f hn hp v z o e =
    rw (e, index_entry-end pre tail i hp z o)
find_descriptor-lookup (d ∷ es) zero i w x pre tail f hn hp v z o e = absurd (omega arith)
find_descriptor-lookup (d ∷ es) (suc n) i w x pre tail f hn hp v z o e =
    let rest = concat (map index_bytes es) ++ tail in
    let e' : f.desc_index ≡ pre ++ (index_bytes d ++ rest) =
      e ∙ ap (λ r. pre ++ r) (append_assoc (index_bytes d) (concat (map index_bytes es)) tail) in
    let hd : index_entry f.desc_index i ≡ d =
      ap (λ b. index_entry b i) e' ∙ index_entry-bytes pre rest d i hp v.0 in
    let unmarked : (d.w_value == 0) ≡ false = ground (arith, v.0.marked) in
    let ih =
      find_descriptor-lookup es n (i + 1) w x (pre ++ index_bytes d) tail f (omega arith)
        (omega (arith, length-append pre (index_bytes d))) v.1 z o
        (e' ∙ sym (append_assoc pre (index_bytes d) rest)) in
    rw (hd, unmarked, ih)

-- With the bytes of at most 32 entries in the index, each of fields of 16 bits and a value other than 0,
-- and a zero value behind them, the callback answers as
-- the list of the entries does: the first entry with the value and the index, or nothing.
pub callback_usb_get_descriptor-lookup :
    (es : List DescriptorIndex) (w x : ℕ) (tail : List ℕ) (f : Firmware)
    → length es ≤ max_descriptors
    → All IsEntry es
    → get_or tail 2 0 ≡ 0
    → get_or tail 3 0 ≡ 0
    → f.desc_index ≡ concat (map index_bytes es) ++ tail
    → callback_usb_get_descriptor w x f ≡ lookup_entry w x es
unfolding callback_usb_get_descriptor
callback_usb_get_descriptor-lookup es w x tail f hn v z o e =
    find_descriptor-lookup es max_descriptors 0 w x [] tail f hn refl v z o e
