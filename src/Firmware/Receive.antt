-- ===== src/Firmware/Receive.antt =====
-- The serial interrupt over the packets of the PC: what the three tables hold after the start-up
-- sequence, and the acknowledgements that the PC gets.
use serialusb.Common.{
  ℕ, suc, ◌+◌, ◌≤◌, ◌≡◌, refl, ap, subst, ◌∙◌, true, false, some, List, [], ◌∷◌, ◌++◌, arith, ltb,
  le→leb, ◌==◌, length, take, concat, write_at, take-append, drop-append, take-append-drop,
  append_assoc, append-nil, length-append,
}
use serialusb.Common.Bytes.{length-write_at, write_at-write_at}
use serialusb.Protocol.{e_type_descriptors, e_type_index, e_type_endpoints, packet}
use serialusb.Firmware.{Firmware, returns, handle, isr, interrupts}
use serialusb.Adapter.Send.{packets}

-- The two tables that are filled by several packets.
pub data Region : Type 0 where
  descriptors_region index_region : Region

abbrev pub type_of : Region → ℕ
type_of descriptors_region = e_type_descriptors
type_of index_region = e_type_index

abbrev pub array : Region → Firmware → List ℕ
array descriptors_region f = f.descriptors
array index_region f = f.desc_index

abbrev pub fill : Region → Firmware → ℕ
fill descriptors_region f = f.pdesc
fill index_region f = f.pindex

-- The firmware with the bytes behind what the region holds, and with what it has sent.
abbrev pub filled : Region → List ℕ → List ℕ → Firmware → Firmware
filled descriptors_region v acks f = record f {
  descriptors = write_at f.pdesc v f.descriptors;
  pdesc = f.pdesc + length v;
  sent = f.sent ++ acks;
}
filled index_region v acks f = record f {
  desc_index = write_at f.pindex v f.desc_index;
  pindex = f.pindex + length v;
  sent = f.sent ++ acks;
}

-- One acknowledgement, of no value, for each packet.
abbrev pub acks_of : ℕ → List (List ℕ) → List ℕ
acks_of type [] = []
acks_of type (v ∷ vs) = (type ∷ 0 ∷ []) ++ acks_of type vs

-- The value is read off the line, whole.
isr-handle :
    (type : ℕ) (v rest : List ℕ) (f g : Firmware)
    → ltb 6 type ≡ false
    → (type == 3) ≡ false
    → handle type (length v) v f ≡ some g
    → isr type (length v) (v ++ rest) f ≡ returns g rest
unfolding isr
isr-handle type v rest f g known no_reset e =
    let all_there : ltb (length (v ++ rest)) (length v) ≡ false =
      ground (arith, length-append v rest) in
    rw (
      known,
      no_reset,
      all_there,
      take-append v rest (length v) refl,
      drop-append v rest (length v) refl,
      e,
    )

-- A packet for a region goes behind what the region holds, and is acknowledged.
isr-filled :
    (r : Region) (v rest : List ℕ) (f : Firmware)
    → fill r f + length v ≤ length (array r f)
    → isr (type_of r) (length v) (v ++ rest) f ≡ returns (filled r v (type_of r ∷ 0 ∷ []) f) rest
unfolding handle
isr-filled descriptors_region v rest f h =
    isr-handle 0 v rest f (filled descriptors_region v (0 ∷ 0 ∷ []) f) refl refl (rw (le→leb _ _ h))
isr-filled index_region v rest f h =
    isr-handle 1 v rest f (filled index_region v (1 ∷ 0 ∷ []) f) refl refl (rw (le→leb _ _ h))

-- Filling twice is filling once with both.
filled-filled :
    (r : Region) (a b s t : List ℕ) (f : Firmware)
    → fill r f + length a ≤ length (array r f)
    → filled r b t (filled r a s f) ≡ filled r (a ++ b) (s ++ t) f
filled-filled descriptors_region a b s t f h = ground (
  arith,
  write_at-write_at f.pdesc (f.pdesc + length a) a b f.descriptors refl h,
  length-append a b,
  append_assoc f.sent s t,
)
filled-filled index_region a b s t f h = ground (
  arith,
  write_at-write_at f.pindex (f.pindex + length a) a b f.desc_index refl h,
  length-append a b,
  append_assoc f.sent s t,
)

write_at-nil : {A : Type 0} (i : ℕ) (xs : List A) → i ≤ length xs → write_at i [] xs ≡ xs
write_at-nil i xs h =
    let e : i + 0 ≡ i = omega arith in rw (e, append-nil (take i xs)) (take-append-drop i xs)

filled-nil : (r : Region) (f : Firmware) → fill r f ≤ length (array r f) → filled r [] [] f ≡ f
filled-nil descriptors_region f h =
    ground (arith, write_at-nil f.pdesc f.descriptors h, append-nil f.sent)
filled-nil index_region f h =
    ground (arith, write_at-nil f.pindex f.desc_index h, append-nil f.sent)

-- One round of fuel for each packet.
abbrev pub rounds : {A : Type 0} → List A → ℕ → ℕ
rounds [] n = n
rounds (x ∷ xs) n = suc (rounds xs n)

fill-filled :
    (r : Region) (v s : List ℕ) (f : Firmware) → fill r (filled r v s f) ≡ fill r f + length v
fill-filled descriptors_region v s f = refl
fill-filled index_region v s f = refl

length-array :
    (r : Region) (v s : List ℕ) (f : Firmware)
    → fill r f + length v ≤ length (array r f)
    → length (array r (filled r v s f)) ≡ length (array r f)
length-array descriptors_region v s f h = length-write_at f.pdesc v f.descriptors h
length-array index_region v s f h = length-write_at f.pindex v f.desc_index h

-- The packets for a region are stored one behind the other, and acknowledged one by one, if the
-- region has room for them; the interrupt then goes on with the rest of the line.
pub interrupts-filled :
    (r : Region) (vs : List (List ℕ)) (rest : List ℕ) (fuel : ℕ) (f : Firmware)
    → fill r f + length (concat vs) ≤ length (array r f)
    → interrupts (rounds vs fuel) (concat (packets (type_of r) vs) ++ rest) f
      ≡ interrupts fuel rest (filled r (concat vs) (acks_of (type_of r) vs) f)
unfolding interrupts
interrupts-filled r [] rest fuel f h = rw (filled-nil r f (omega arith))
interrupts-filled r (v ∷ vs) rest fuel f h =
    let n = length-append v (concat vs) in
    let fits : fill r f + length v ≤ length (array r f) = omega arith in
    let next = filled r v (type_of r ∷ 0 ∷ []) f in
    rw (append_assoc v (concat (packets (type_of r) vs)) rest) (
      rw (isr-filled r v (concat (packets (type_of r) vs) ++ rest) f fits, interrupts)
        (interrupts-filled r vs rest fuel next (
            omega (
              arith,
              fill-filled r v (type_of r ∷ 0 ∷ []) f,
              length-array r v (type_of r ∷ 0 ∷ []) f fits,
            ))
          ∙ ap (interrupts fuel rest)
              (filled-filled r v (concat vs) (type_of r ∷ 0 ∷ []) (acks_of (type_of r) vs) f fits)))

-- The state after the start-up sequence, with the tables that the PC has sent.
abbrev pub configured : List (List ℕ) → List (List ℕ) → List ℕ → Firmware → Firmware
configured vs ws es f =
    let g =
      filled index_region (concat ws) (acks_of e_type_index ws)
        (filled descriptors_region (concat vs) (acks_of e_type_descriptors vs) f) in
    record g {
      endpoints = write_at 0 es f.endpoints;
      sent = g.sent ++ (e_type_endpoints ∷ 0 ∷ []);
      started = true;
    }

isr-endpoints :
    (es rest : List ℕ) (f : Firmware)
    → length es ≤ length f.endpoints
    → isr e_type_endpoints (length es) (es ++ rest) f
      ≡ returns
          (record f {
            endpoints = write_at 0 es f.endpoints;
            sent = f.sent ++ (e_type_endpoints ∷ 0 ∷ []);
            started = true;
          })
          rest
unfolding handle
isr-endpoints es rest f h =
    let h' : 0 + length es ≤ length f.endpoints = omega arith in
    isr-handle 2 es rest f _ refl refl (rw (le→leb _ _ h'))

interrupts-endpoints :
    (es : List ℕ) (f : Firmware)
    → length es ≤ length f.endpoints
    → interrupts 2 (packet e_type_endpoints (length es) es) f
      ≡ some (record f {
        endpoints = write_at 0 es f.endpoints;
        sent = f.sent ++ (e_type_endpoints ∷ 0 ∷ []);
        started = true;
      })
unfolding interrupts
interrupts-endpoints es f h =
    let out = record f {
      endpoints = write_at 0 es f.endpoints;
      sent = f.sent ++ (e_type_endpoints ∷ 0 ∷ []);
      started = true;
    } in
    let e : isr e_type_endpoints (length es) es f ≡ returns out [] =
      subst (λ l. isr e_type_endpoints (length es) l f ≡ returns out []) (append-nil es)
        (isr-endpoints es [] f h) in
    rw (e, interrupts)

-- The start-up sequence, for tables that fit the arrays: after the packets of the descriptors,
-- those of the index and the one of the endpoints, each of the first two tables holds the values
-- that were sent, joined, behind what it held, and the third the endpoints at its start; every
-- packet has been acknowledged in turn; and the firmware is started.
pub interrupts-configured :
    (vs ws : List (List ℕ)) (es : List ℕ) (f : Firmware)
    → f.pdesc + length (concat vs) ≤ length f.descriptors
    → f.pindex + length (concat ws) ≤ length f.desc_index
    → length es ≤ length f.endpoints
    → interrupts
        (rounds vs (rounds ws 2))
        (concat (packets e_type_descriptors vs)
          ++ (concat (packets e_type_index ws) ++ packet e_type_endpoints (length es) es))
        f
      ≡ some (configured vs ws es f)
unfolding interrupts
interrupts-configured vs ws es f hd hi he =
    let g = filled descriptors_region (concat vs) (acks_of e_type_descriptors vs) f in
    let k = filled index_region (concat ws) (acks_of e_type_index ws) g in
    interrupts-filled descriptors_region vs _ (rounds ws 2) f hd
    ∙ interrupts-filled index_region ws (packet e_type_endpoints (length es) es) 2 g hi
    ∙ interrupts-endpoints es k he
