-- ===== src/Adapter/Framing.antt =====
-- The reassembly of packets as a function on the stream: `frame` cuts fragments into packets, and
-- `wanted` is how many bytes of a packet are missing.
use serialusb.Common.{
  ℕ, zero, suc, ◌+◌, ◌-◌, ◌≤◌, ◌<◌, ◌≡◌, refl, ◌∙◌, sym, ap, inl, inr, ◌≢◌, List, [], ◌∷◌, ◌++◌,
  arith, Bool-cases, ==_iff, if◌then◌else◌, ltb, ◌==◌, length, get_or, All, take, drop, concat,
  take-append, drop-append, append_assoc, append-nil, length-append,
}
use serialusb.Protocol.{header_size, max_packet_value_size}

-- The bytes still wanted after `got`: those of the header, then those of the value.
abbrev pub wanted : List ℕ → ℕ
wanted got =
    if ltb (length got) header_size
    then header_size - length got
    else get_or got 1 0 - (length got - header_size)

unfoldable pub frame : List ℕ → List (List ℕ) → List (List ℕ)
frame got [] = []
frame got (f ∷ fs) =
    let whole = (got ++ f) ∷ frame [] fs in
    let partial = frame (got ++ f) fs in if wanted (got ++ f) == 0 then whole else partial

-- Each fragment is at most as long as the wanted part at its time.
abbrev pub Fits : List ℕ → List (List ℕ) → Type 0
Fits got [] = Unit {0}
Fits got (f ∷ fs) =
    (length f ≤ wanted got) × Fits (if wanted (got ++ f) == 0 then [] else got ++ f) fs

-- A packet as it is sent: its second byte is the length of its value.
abbrev pub IsPacket : List ℕ → Type 0
IsPacket p = (2 ≤ length p) × (length p ≡ 2 + get_or p 1 0) × (get_or p 1 0 ≤ max_packet_value_size)

pub get_or-append {ℓ} :
    {A : Type ℓ} (xs ys : List A) (i : ℕ) (d : A)
    → i < length xs
    → get_or (xs ++ ys) i d ≡ get_or xs i d
get_or-append [] ys i d h = absurd (omega arith)
get_or-append (x ∷ xs) ys zero d h = refl
get_or-append (x ∷ xs) ys (suc i) d h = get_or-append xs ys i d (omega arith)

module _ (g p xs ys : List ℕ) (e : g ++ xs ≡ p ++ ys) where
  -- Two readings of one stream agree on the second byte.
  second_byte : 1 < length g → 1 < length p → get_or g 1 0 ≡ get_or p 1 0
  second_byte h k =
      sym (get_or-append g xs 1 0 h) ∙ ap (λ s. get_or s 1 0) e ∙ get_or-append p ys 1 0 k

  -- Readings of equal length are equal, and so are the rests.
  same_cut : length g ≡ length p → (g ≡ p) × (xs ≡ ys)
  same_cut h = (
    sym (take-append g xs (length p) h) ∙ ap (take (length p)) e ∙ take-append p ys (length p) refl,
    sym (drop-append g xs (length p) h) ∙ ap (drop (length p)) e ∙ drop-append p ys (length p) refl,
  )

  lengths : length g + length xs ≡ length p + length ys
  lengths = omega (arith, ap length e, length-append g xs, length-append p ys)

-- A fragment that completes the packet ends where the packet ends.
complete-length :
    (got f p xs ys : List ℕ)
    → (got ++ f) ++ xs ≡ p ++ ys
    → IsPacket p
    → wanted got ≢ 0
    → length f ≤ wanted got
    → wanted (got ++ f) ≡ 0
    → length (got ++ f) ≡ length p
complete-length got f p xs ys e v ne h w =
    ground (arith, length-append got f, second_byte (got ++ f) p xs ys e, get_or-append got f 1 0)

-- A stream that holds a whole packet leaves nothing wanted.
pub wanted-whole : (g p ys : List ℕ) → g ≡ p ++ ys → IsPacket p → wanted g ≡ 0
wanted-whole g p ys e v =
    ground
      (arith, ap length e, length-append p ys, ap (λ s. get_or s 1 0) e, get_or-append p ys 1 0)

-- Where nothing is wanted after a fragment, the first packet is complete and the rest remains.
pub cut_first :
    (got f : List ℕ) (fs ps : List (List ℕ))
    → All IsPacket ps
    → (got ++ f) ++ concat fs ≡ concat ps
    → wanted got ≢ 0
    → length f ≤ wanted got
    → wanted (got ++ f) ≡ 0
    → (qs : List (List ℕ)) × (ps ≡ (got ++ f) ∷ qs) × All IsPacket qs × (concat fs ≡ concat qs)
cut_first got f fs [] v e w h z =
    absurd (ground (arith, ap length e, length-append (got ++ f) (concat fs)))
cut_first got f fs (p ∷ ps) v e w h z =
    let same =
      same_cut (got ++ f) p (concat fs) (concat ps) e
        (complete-length got f p (concat fs) (concat ps) e v.0 w h z) in
    (ps, ap (λ q. q ∷ ps) (sym same.0), v.1, same.1)

-- A stream of packets never announces a value that is too long.
pub small_head :
    (g xs : List ℕ) (ps : List (List ℕ))
    → All IsPacket ps
    → g ++ xs ≡ concat ps
    → 1 < length g
    → get_or g 1 0 ≤ max_packet_value_size
small_head g xs [] v e h = absurd (omega (arith, ap length e, length-append g xs))
small_head g xs (p ∷ ps) v e h = omega (arith, second_byte g p xs (concat ps) e h v.0.0)

-- Fragments that fit and carry a sequence of packets are cut into these packets.
pub frame-packets :
    (fs : List (List ℕ)) (got : List ℕ) (ps : List (List ℕ))
    → All IsPacket ps
    → got ++ concat fs ≡ concat ps
    → wanted got ≢ 0
    → Fits got fs
    → frame got fs ≡ ps
unfolding frame
frame-packets [] got [] v e w fit = refl
frame-packets [] got (p ∷ ps) v e w fit =
    absurd (w (wanted-whole got p (concat ps) (sym (append-nil got) ∙ e) v.0))
frame-packets (f ∷ fs) got ps v e w fit = elim (Bool-cases (wanted (got ++ f) == 0)) [
  | inl done ↦
      let (qs, eq, vs, rest) =
        cut_first got f fs ps v (append_assoc got f (concat fs) ∙ e) w fit.0
          ((==_iff _ 0).0 done) in
      rw (done, eq)
        (ap (λ q. (got ++ f) ∷ q) (frame-packets fs [] qs vs rest (omega arith) (rw done at fit.1)))
  | inr more ↦ rw more (
      frame-packets fs (got ++ f) ps v (append_assoc got f (concat fs) ∙ e) (ground arith)
        (rw more at fit.1))
]
