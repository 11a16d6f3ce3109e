-- ===== src/Proxy/Descriptors/Index.antt =====
-- The index of descriptors against the table: what an exact index is, and what the adding of
-- descriptors makes of it.
use serialusb.Common.{
  ℕ, suc, ◌+◌, ◌≤◌, ◌≡◌, refl, sym, ap, ap₂, ◌∙◌, subst, false, ◌||◌, ◌⊎◌, inl, inr, List, [], ◌∷◌,
  ◌++◌, arith, ltb, leb, length, append_assoc, append-nil, length-append, Bool-cases,
}
use serialusb.Common.Int.{pos, minus_one}
use serialusb.Protocol.{max_descriptors_size, max_descriptors, DescriptorIndex}
use serialusb.Proxy.State.{Proxy}
use serialusb.Proxy.Descriptors.{add_descriptor, add_all}
use serialusb.Gasync.Usb.{Descriptor}

abbrev pub table_of : List Descriptor → List ℕ
table_of [] = []
table_of (d ∷ ds) = d.bytes ++ table_of ds

-- The entries of descriptors whose bytes stand one behind the other from `k` on.
abbrev pub index_from : ℕ → List Descriptor → List DescriptorIndex
index_from k [] = []
index_from k (d ∷ ds) =
    record { offset = k; w_value = d.w_value; w_index = d.w_index; w_length = length d.bytes }
    ∷ index_from (k + length d.bytes) ds

pub record IsIndexed (ds : List Descriptor) (p : Proxy) : Type 0 where
  pub table : p.desc ≡ table_of ds
  pub index : p.desc_index ≡ index_from 0 ds
  pub size : length p.desc ≤ max_descriptors_size
  pub count : length p.desc_index ≤ max_descriptors

table_of-append : (ds es : List Descriptor) → table_of (ds ++ es) ≡ table_of ds ++ table_of es
table_of-append [] es = refl
table_of-append (d ∷ ds) es =
    ap (λ r. d.bytes ++ r) (table_of-append ds es)
    ∙ sym (append_assoc d.bytes (table_of ds) (table_of es))

index_from-append :
    (k : ℕ) (ds es : List Descriptor)
    → index_from k (ds ++ es) ≡ index_from k ds ++ index_from (k + length (table_of ds)) es
index_from-append k [] es = ap (λ n. index_from n es) (omega arith)
index_from-append k (d ∷ ds) es =
    let n : k + length d.bytes + length (table_of ds) ≡ k + length (d.bytes ++ table_of ds) =
      omega (arith, length-append d.bytes (table_of ds)) in
    ap
      (λ r.
        record { offset = k; w_value = d.w_value; w_index = d.w_index; w_length = length d.bytes }
        ∷ r)
      (index_from-append (k + length d.bytes) ds es
        ∙ ap (λ m. index_from (k + length d.bytes) ds ++ index_from m es) n)

abbrev entry_of : Proxy → Descriptor → List DescriptorIndex
entry_of p d =
    record {
      offset = length p.desc;
      w_value = d.w_value;
      w_index = d.w_index;
      w_length = length d.bytes;
    }
    ∷ []

table_of-snoc :
    (ds : List Descriptor) (d : Descriptor) (desc : List ℕ)
    → desc ≡ table_of ds
    → desc ++ d.bytes ≡ table_of (ds ++ (d ∷ []))
table_of-snoc ds d desc e =
    ap (λ r. r ++ d.bytes) e
    ∙ ap (λ r. table_of ds ++ r) (sym (append-nil d.bytes))
    ∙ sym (table_of-append ds (d ∷ []))

offset_lem : (n : ℕ) → n ≡ 0 + n
offset_lem n = omega arith

index_from-snoc :
    (ds : List Descriptor) (d : Descriptor) (p : Proxy)
    → IsIndexed ds p
    → p.desc_index ++ entry_of p d ≡ index_from 0 (ds ++ (d ∷ []))
index_from-snoc ds d p v =
    ap₂
      (λ xs n.
        xs
        ++ (record {
          offset = n;
          w_value = d.w_value;
          w_index = d.w_index;
          w_length = length d.bytes;
        }
            ∷ []))
      v.index (ap length v.table)
    ∙ ap (λ n. index_from 0 ds ++ index_from n (d ∷ [])) (offset_lem (length (table_of ds)))
    ∙ sym (index_from-append 0 ds (d ∷ []))

-- If the index is exact for the descriptors added so far, a call either adds one more and keeps it
-- exact, within both tables, or returns -1 and changes nothing.
pub add_descriptor-IsIndexed :
    (ds : List Descriptor) (d : Descriptor) (p : Proxy)
    → IsIndexed ds p
    → ((add_descriptor d p).1 ≡ pos 0) × IsIndexed (ds ++ (d ∷ [])) (add_descriptor d p).0
      ⊎ (add_descriptor d p ≡ (p, minus_one))
unfolding add_descriptor
add_descriptor-IsIndexed ds d p v =
    elim (Bool-cases (
      ltb max_descriptors_size (length p.desc + length d.bytes)
      || leb max_descriptors (length p.desc_index))) [
        | inl full ↦ rw full (inr refl)
        | inr room ↦ rw room (
            inl (
              refl,
              record {
                table = table_of-snoc ds d p.desc v.table;
                index = index_from-snoc ds d p v;
                size = ground (arith, length-append p.desc d.bytes);
                count = ground (arith, length-append p.desc_index (entry_of p d));
              },
            ))
      ]

-- The descriptors of a run of calls fit in the table and in the index together with those before them.
pub record HasRoom (ds es : List Descriptor) : Type 0 where
  pub table : length (table_of ds) + length (table_of es) ≤ max_descriptors_size
  pub count : length ds + length es ≤ max_descriptors

length-index_from : (k : ℕ) (ds : List Descriptor) → length (index_from k ds) ≡ length ds
length-index_from k [] = refl
length-index_from k (d ∷ ds) = ap suc (length-index_from (k + length d.bytes) ds)

add_descriptor-room :
    (ds : List Descriptor) (e : Descriptor) (es : List Descriptor) (p : Proxy)
    → IsIndexed ds p
    → HasRoom ds (e ∷ es)
    → ((add_descriptor e p).1 ≡ pos 0) × IsIndexed (ds ++ (e ∷ [])) (add_descriptor e p).0
unfolding add_descriptor
add_descriptor-room ds e es p v h =
    let n : length p.desc ≡ length (table_of ds) = ap length v.table in
    let m : length p.desc_index ≡ length ds = ap length v.index ∙ length-index_from 0 ds in
    let room : (ltb max_descriptors_size (length p.desc + length e.bytes)
          || leb max_descriptors (length p.desc_index))
        ≡ false =
      ground (arith, h, h.table, h.count, length-append e.bytes (table_of es)) in
    elim (add_descriptor-IsIndexed ds e p v) [
      | inl r ↦ r
      | inr bad ↦
          let zero_ret : (add_descriptor e p).1 ≡ pos 0 = rw room refl in
          let neg_ret : (add_descriptor e p).1 ≡ minus_one = ap (λ r. r.1) bad in absurd cc
    ]

-- If the index is exact for the descriptors added so far and there is room for those of a run, the calls
-- all succeed, and the index is then exact for all of them.
pub add_all-IsIndexed :
    (es ds : List Descriptor) (p : Proxy)
    → IsIndexed ds p
    → HasRoom ds es
    → ((add_all es p).1 ≡ pos 0) × IsIndexed (ds ++ es) (add_all es p).0
unfolding add_all add_descriptor
add_all-IsIndexed [] ds p v h = (refl, subst (λ l. IsIndexed l p) (sym (append-nil ds)) v)
add_all-IsIndexed (e ∷ es) ds p v h =
    let r = add_descriptor-room ds e es p v h in
    let h' : HasRoom (ds ++ (e ∷ [])) es = record {
      table = omega (
        arith,
        h.table,
        ap length (table_of-append ds (e ∷ [])),
        length-append (table_of ds) (e.bytes ++ []),
        length-append e.bytes [],
        length-append e.bytes (table_of es),
      );
      count = omega (arith, h.count, length-append ds (e ∷ []));
    } in
    let ih = add_all-IsIndexed es (ds ++ (e ∷ [])) (add_descriptor e p).0 r.1 h' in
    rw (r.0) (
      ih.0,
      subst (λ l. IsIndexed l (add_all es (add_descriptor e p).0).0) (append_assoc ds (e ∷ []) es)
          ih.1,
    )
