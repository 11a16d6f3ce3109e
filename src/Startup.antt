-- ===== src/Startup.antt =====
-- The two programs together at start-up: what sw/proxy.c sends, as fw/emu.c answers it to the host.
mod Tests
use serialusb.Common.{
  ℕ, zero, suc, ◌+◌, ◌-◌, ◌*◌, ◌≤◌, ◌<◌, ◌≡◌, refl, sym, ap, ap₂, ◌∙◌, subst, Bool, true, false,
  ◌&&◌, Option, none, some, List, [], ◌∷◌, ◌++◌, map, arith, if◌then◌else◌, ◌==◌, length, take,
  drop, concat, replicate, get_or, take-append, drop-append, append_assoc, append-nil,
  length-append, length-replicate, Bool-cases, inl, inr, All, write_at,
}
use serialusb.Protocol.{
  e_type_descriptors, e_type_index, e_type_endpoints, packet, DescriptorIndex, index_bytes,
  max_descriptors,
}
use serialusb.Adapter.Send.{packets, IsSplit}
use serialusb.Proxy.State.{Proxy}
use serialusb.Gasync.Usb.{Descriptor}
use serialusb.Proxy.Descriptors.Index.{table_of, index_from, IsIndexed}
use serialusb.Firmware.{Firmware, booted, interrupts, callback_usb_get_descriptor}
use serialusb.Firmware.Receive.{acks_of, rounds, configured, interrupts-configured}
use serialusb.Firmware.Lookup.{lookup_entry, IsEntry, callback_usb_get_descriptor-lookup}

-- The bytes of the first descriptor with the value and index asked for.
pub find_bytes : ℕ → ℕ → List Descriptor → Option (List ℕ)
find_bytes w_value w_index [] = none
find_bytes w_value w_index (d ∷ ds) =
    let later = find_bytes w_value w_index ds in
    if w_value == d.w_value && w_index == d.w_index then some d.bytes else later

-- The bytes that an address and a length stand for.
abbrev pub bytes_at : List ℕ → Option (ℕ × ℕ) → Option (List ℕ)
bytes_at array none = none
bytes_at array (some (o, n)) = some (take n (drop o array))

bytes_at-lookup :
    (ds : List Descriptor) (k w x : ℕ) (pre tail : List ℕ)
    → length pre ≡ k
    → bytes_at (pre ++ (table_of ds ++ tail)) (lookup_entry w x (index_from k ds))
      ≡ find_bytes w x ds
unfolding lookup_entry find_bytes
bytes_at-lookup [] k w x pre tail h = refl
bytes_at-lookup (d ∷ ds) k w x pre tail h = elim (Bool-cases (w == d.w_value && x == d.w_index)) [
  | inl hit ↦
      rw
        (
          hit,
          drop-append pre (d.bytes ++ table_of ds ++ tail) k h,
          append_assoc d.bytes (table_of ds) tail,
        )
        (ap some (take-append d.bytes (table_of ds ++ tail) (length d.bytes) refl))
  | inr miss ↦
      let e : pre ++ ((d.bytes ++ table_of ds) ++ tail)
          ≡ (pre ++ d.bytes) ++ (table_of ds ++ tail) =
        ap (λ r. pre ++ r) (append_assoc d.bytes (table_of ds) tail)
        ∙ sym (append_assoc pre d.bytes (table_of ds ++ tail)) in
      rw (miss, e)
        (bytes_at-lookup ds (k + length d.bytes) w x (pre ++ d.bytes) tail
          (omega (arith, length-append pre d.bytes)))
]

get_or-zeros : (k n i : ℕ) → get_or (drop k (replicate n zero)) i zero ≡ zero
get_or-zeros zero zero i = refl
get_or-zeros zero (suc n) zero = refl
get_or-zeros zero (suc n) (suc i) = get_or-zeros zero n i
get_or-zeros (suc k) zero i = refl
get_or-zeros (suc k) (suc n) i = get_or-zeros k n i

length-index_bytes :
    (es : List DescriptorIndex) → length (concat (map index_bytes es)) ≡ 8 * length es
length-index_bytes [] = refl
length-index_bytes (e ∷ es) = omega (arith, length-index_bytes es)

-- The firmware is started, it has acknowledged the packets, and its callback answers each request of
-- the host with the bytes of the PC's first descriptor for it.
pub record Answers (ds : List Descriptor) (acks : List ℕ) (out : Option Firmware) : Type 0 where
  pub firmware : Firmware
  pub returns : out ≡ some firmware
  pub is_started : firmware.started ≡ true
  pub acknowledged : firmware.sent ≡ acks
  pub answers :
      (w x : ℕ)
      → bytes_at firmware.descriptors (callback_usb_get_descriptor w x firmware) ≡ find_bytes w x ds

module _ (ds : List Descriptor) (p : Proxy) (v : IsIndexed ds p)
    (entries : All IsEntry (index_from 0 ds)) (vs ws : List (List ℕ)) (es : List ℕ)
    (table : IsSplit p.desc vs) (index : IsSplit (concat (map index_bytes p.desc_index)) ws) where
  configured-answers :
      (w x : ℕ)
      → bytes_at
          (configured vs ws es booted).descriptors
          (callback_usb_get_descriptor w x (configured vs ws es booted))
        ≡ find_bytes w x ds
  configured-answers w x =
      let g = configured vs ws es booted in
      let tail = drop (0 + length (concat vs)) (replicate 1024 0) in
      let tail' = drop (0 + length (concat ws)) (replicate 256 0) in
      let n : length p.desc_index ≡ length (index_from 0 ds) = ap length v.index in
      let d : g.descriptors ≡ table_of ds ++ tail = ap (λ r. r ++ tail) (table.whole ∙ v.table) in
      let i : g.desc_index ≡ concat (map index_bytes (index_from 0 ds)) ++ tail' =
        ap (λ r. r ++ tail') (index.whole ∙ ap (λ r. concat (map index_bytes r)) v.index) in
      let zeros = get_or-zeros (0 + length (concat ws)) 256 in
      ap₂ bytes_at d (
        callback_usb_get_descriptor-lookup (index_from 0 ds) w x tail' g (omega (arith, v.count, n))
          entries (zeros 2) (zeros 3) i)
      ∙ bytes_at-lookup ds 0 w x [] tail refl

  -- From power-on, the firmware that receives the packets of an exact table and of its index, of
  -- fields of 16 bits and values other than 0, and of at most 18 bytes of endpoints, answers
  -- every request for a descriptor with the bytes of the first descriptor of the PC that has its
  -- value and index, and with none if there is no such descriptor.
  -- Each packet has been acknowledged.
  pub startup-Answers :
      length es ≤ 18
      → Answers ds
          (acks_of e_type_descriptors vs ++ acks_of e_type_index ws ++ (e_type_endpoints ∷ 0 ∷ []))
          (interrupts
            (rounds vs (rounds ws 2))
            (concat (packets e_type_descriptors vs)
              ++ (concat (packets e_type_index ws) ++ packet e_type_endpoints (length es) es))
            booted)
  startup-Answers h = record {
    firmware = configured vs ws es booted;
    returns =
        interrupts-configured vs ws es booted (omega (arith, v.size, ap length table.whole))
          (omega (arith, v.count, ap length index.whole, length-index_bytes p.desc_index)) h;
    is_started = refl;
    acknowledged = refl;
    answers = configured-answers;
  }
