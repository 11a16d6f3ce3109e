-- ===== src/Adapter/Recv.antt =====
-- `adapter_recv` for one fragment: which packet reaches the callback, and how many bytes the next
-- read asks for. The client observes the state of the serial layer by `seen`, the packets that the
-- callback has been given, and `asked`, the size of the next read.
use serialusb.Common.{
  ℕ, ◌+◌, ◌≤◌, ◌<◌, ◌≡◌, refl, ◌∙◌, sym, ap, ◌≢◌, Option, some, List, [], ◌∷◌, ◌++◌, arith, ==_iff,
  if◌then◌else◌, leb, ◌==◌, Bool, true, false, length, get_or, take, write_at, take-all, append-nil,
  length-append,
}
use serialusb.Common.Bytes.{length-write_at, take-write_at, get_or-take}
use serialusb.Common.Int.{ℤ, pos, is_neg}
use serialusb.Protocol.{max_packet_size, header_size, max_packet_value_size}
use serialusb.Adapter.{Adapter, add32, remaining, resume, deliver, recv_bytes}
use serialusb.Adapter.Line.{Serial}
use serialusb.Adapter.Framing.{wanted, get_or-append}

-- The adapter holds the bytes `got` of an unfinished packet.
pub record IsReceiving {Cb : Type 0} (cb : Cb) (a : Adapter Cb) (got : List ℕ) : Type 0 where
  pub room : length a.packet ≡ max_packet_size
  pub count : a.bread ≡ length got
  pub bytes : take (length got) a.packet ≡ got
  pub callback : a.fp_packet_cb ≡ some cb
  pub serial : is_neg a.serial ≡ false

-- The subtractions of `adapter_recv` do not wrap where the packet is not overrun.
remaining-wanted :
    {Cb : Type 0} (cb : Cb) (a : Adapter Cb) (got : List ℕ)
    → IsReceiving cb a got
    → length got ≤ max_packet_size
    → (1 < length got → length got ≤ 2 + get_or got 1 0)
    → (1 < length got → get_or got 1 0 ≤ max_packet_value_size)
    → remaining a ≡ wanted got
unfolding remaining
remaining-wanted cb a got r within over small =
    ground (arith, r.count, ap (λ s. get_or s 1 0) r.bytes, get_or-take a.packet (length got) 1 0)

module _ {Cb : Type 0} (cb : Cb) (a : Adapter Cb) (got f : List ℕ) where
  -- The adapter once the fragment is copied behind what it holds.
  abbrev extended : Adapter Cb
  extended = record a {
    packet = write_at a.bread (take (length f) f) a.packet;
    bread = add32 a.bread (length f);
  }

  module _ (r : IsReceiving cb a got) (fits : length f ≤ wanted got) (unfinished : wanted got ≢ 0)
      (small : 1 < length (got ++ f) → get_or (got ++ f) 1 0 ≤ max_packet_value_size) where
    same_head : 1 < length got → get_or (got ++ f) 1 0 ≡ get_or got 1 0
    same_head = get_or-append got f 1 0

    within : length (got ++ f) ≤ max_packet_size
    within = ground (arith, length-append got f, same_head)

    fill : take (length f) f ≡ f
    fill = take-all (length f) f (omega arith)

    extended-IsReceiving : IsReceiving cb extended (got ++ f)
    extended-IsReceiving =
        let e = length-append got f in
        let total = within in
        let fits_in : a.bread + length f ≤ length a.packet = omega (arith, r) in
        rw fill (record {
          room = length-write_at a.bread f a.packet fits_in ∙ r.room;
          count = omega (arith, r);
          bytes =
              rw (e, ← r.count)
                (take-write_at a.bread f a.packet fits_in
                  ∙ ap (λ xs. xs ++ f) (rw r.count r.bytes));
          callback = r.callback;
          serial = r.serial;
        })

    -- The sum of `adapter_recv` does not wrap, and the fragment fits the packet.
    accepted : leb (add32 a.bread (length f)) max_packet_size ≡ true
    accepted = let total = within in ground (arith, length-append got f, r.count)

    not_overrun : 1 < length (got ++ f) → length (got ++ f) ≤ 2 + get_or (got ++ f) 1 0
    not_overrun h = ground (arith, length-append got f, same_head)

    extended-remaining : remaining extended ≡ wanted (got ++ f)
    extended-remaining =
        remaining-wanted cb extended (got ++ f) extended-IsReceiving within not_overrun small

-- A complete packet is what the header in the buffer says.
whole_packet :
    {Cb : Type 0} (cb : Cb) (a : Adapter Cb) (g : List ℕ)
    → IsReceiving cb a g
    → wanted g ≡ 0
    → (1 < length g → length g ≤ 2 + get_or g 1 0)
    → take (2 + get_or a.packet 1 0) a.packet ≡ g
whole_packet cb a g r z over =
    let head = ap (λ s. get_or s 1 0) r.bytes in
    let e : 2 + get_or a.packet 1 0 ≡ length g =
      ground (arith, head, get_or-take a.packet (length g) 1 0) in
    rw e r.bytes

-- What the adapter holds after a fragment, and the packets that the fragment completes.
abbrev pub rest : List ℕ → List ℕ
rest g = if wanted g == 0 then [] else g

abbrev pub completed : List ℕ → List (List ℕ)
completed g = if wanted g == 0 then g ∷ [] else []

module _ (port : Serial) {Cb : Type 0} (call : Cb → ℕ → List ℕ → port.W → port.W × ℤ) (cb : Cb)
    (seen : port.W → List (List ℕ)) (asked : port.W → ℕ)
    (seen-call : (i : ℕ) (p : List ℕ) (w : port.W)
      → seen (call cb i p w).0 ≡ seen w ++ (take (2 + get_or p 1 0) p ∷ []))
    (seen-set : (s : ℤ) (n : ℕ) (w : port.W) → seen (port.set_read_size s n w).0 ≡ seen w)
    (asked-set : (s : ℤ) (n : ℕ) (w : port.W) → asked (port.set_read_size s n w).0 ≡ n) where
  open port use {W, set_read_size}

  -- The outcome of `adapter_recv` for a fragment after which the packet's bytes are `g`.
  pub record Received (w : W) (g : List ℕ) (out : Option (Adapter Cb × W × ℤ)) : Type 0 where
    pub adapter : Adapter Cb
    pub world : W
    pub ret : ℤ
    pub returns : out ≡ some (adapter, world, ret)
    pub holds : IsReceiving cb adapter (rest g)
    pub delivers : seen world ≡ seen w ++ completed g
    pub asks : asked world ≡ wanted (rest g)

  resume-Received :
      (i : ℕ) (a : Adapter Cb) (g : List ℕ) (w : W)
      → IsReceiving cb a g
      → remaining a ≡ wanted g
      → (1 < length g → length g ≤ 2 + get_or g 1 0)
      → (b : Bool) → (wanted g == 0) ≡ b
      → Received w g (resume port call a i w)
  unfolding resume deliver
  resume-Received i a g w r left over true done =
      rw (left, done, r.callback, deliver)
        (record {
          adapter = record a { bread = 0 };
          world = (set_read_size a.serial header_size (call cb i a.packet w).0).0;
          ret = (call cb i a.packet w).1;
          returns = refl;
          holds = rw done (record {
            room = r.room;
            count = refl;
            bytes = refl;
            callback = r.callback;
            serial = r.serial;
          });
          delivers =
              rw (seen-set, seen-call, done, whole_packet cb a g r ((==_iff _ 0).0 done) over);
          asks = rw (asked-set, done);
        })
  resume-Received i a g w r left over false done =
      rw (left, done)
        (record {
          adapter = a;
          world = (set_read_size a.serial (wanted g) w).0;
          ret = pos 0;
          returns = refl;
          holds = rw done r;
          delivers = rw (seen-set, done) (sym (append-nil (seen w)));
          asks = rw (asked-set, done);
        })

  -- A fragment no longer than what an open adapter still wants, of a packet whose value has at
  -- most 254 bytes, is taken: it completes a packet exactly when nothing is wanted after it, and
  -- the next read asks for exactly what is wanted then.
  pub recv_bytes-Received :
      (i : ℕ) (a : Adapter Cb) (got f : List ℕ) (w : W)
      → IsReceiving cb a got
      → length f ≤ wanted got
      → wanted got ≢ 0
      → (1 < length (got ++ f) → get_or (got ++ f) 1 0 ≤ max_packet_value_size)
      → Received w (got ++ f) (recv_bytes port call a i f (length f) w)
  unfolding recv_bytes
  recv_bytes-Received i a got f w r fits unfinished small =
      rw (accepted cb a got f r fits unfinished small) (
        resume-Received i (extended cb a got f) (got ++ f) w
          (extended-IsReceiving cb a got f r fits unfinished small)
          (extended-remaining cb a got f r fits unfinished small)
          (not_overrun cb a got f r fits unfinished small) _ refl)
