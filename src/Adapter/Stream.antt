-- ===== src/Adapter/Stream.antt =====
-- `adapter_recv` over a whole stream of packets, which the serial line delivers in fragments.
use serialusb.Common.{
  All, ℕ, ◌+◌, ◌<◌, ◌≤◌, ◌≡◌, refl, ◌∙◌, sym, inl, inr, ◌≢◌, Option, none, some, List, [], ◌∷◌,
  ◌++◌, arith, Bool-cases, ==_iff, ◌==◌, false, length, get_or, take, set, concat, subst,
  append_assoc, append-nil, get_or-set_self, length-set,
}
use serialusb.Common.Int.{ℤ, pos, is_neg}
use serialusb.Adapter.{
  Adapter, Table, entry, max_adapters, adapter_check, adapter_recv, free_adapter, recv_bytes,
}
use serialusb.Adapter.Line.{Serial}
use serialusb.Adapter.Framing.{wanted, IsPacket, cut_first, small_head, wanted-whole}
use serialusb.Adapter.Recv.{IsReceiving, Received, recv_bytes-Received, rest, completed}

-- The line delivers the fragments one by one to the adapter `i`.
unfoldable pub recv_all :
    (port : Serial) {Cb : Type 0} (call : Cb → ℕ → List ℕ → port.W → port.W × ℤ)
    → Table Cb
    → ℕ
    → List (List ℕ)
    → port.W
    → Option (Table Cb × port.W)
recv_all port call t i [] w = some (t, w)
recv_all port call t i (f ∷ fs) w = elim (adapter_recv port call t (pos i) f (pos (length f)) w) [
  | none ↦ none
  | some (t', w', ret) ↦ recv_all port call t' i fs w'
]

-- Each fragment that the line delivers has at most as many bytes as were asked for by then.
unfoldable pub FitsAsked :
    (port : Serial) (asked : port.W → ℕ) {Cb : Type 0}
    (call : Cb → ℕ → List ℕ → port.W → port.W × ℤ)
    → Table Cb
    → ℕ
    → List (List ℕ)
    → port.W
    → Type 0
FitsAsked port asked call t i [] w = Unit {0}
FitsAsked port asked call t i (f ∷ fs) w =
    (length f ≤ asked w) × (elim (adapter_recv port call t (pos i) f (pos (length f)) w) [
      | none ↦ Unit {0}
      | some (t', w', ret) ↦ FitsAsked port asked call t' i fs w'
    ])

-- An adapter of the table that holds the bytes `got` of an unfinished packet.
pub record IsListening {Cb : Type 0} (cb : Cb) (t : Table Cb) (i : ℕ) (got : List ℕ) : Type 0 where
  pub in_table : i < max_adapters
  pub size : length t ≡ max_adapters
  pub receiving : IsReceiving cb (entry t i) got

pub adapter_check-open :
    {Cb : Type 0} (t : Table Cb) (i : ℕ)
    → i < max_adapters
    → is_neg (entry t i).serial ≡ false
    → adapter_check t (pos i) ≡ pos 0
unfolding adapter_check
adapter_check-open t i h e = ground arith

module _ (port : Serial) {Cb : Type 0} (call : Cb → ℕ → List ℕ → port.W → port.W × ℤ) (cb : Cb)
    (seen : port.W → List (List ℕ)) (asked : port.W → ℕ)
    (seen-call : (i : ℕ) (p : List ℕ) (w : port.W)
      → seen (call cb i p w).0 ≡ seen w ++ (take (2 + get_or p 1 0) p ∷ []))
    (seen-set : (s : ℤ) (n : ℕ) (w : port.W) → seen (port.set_read_size s n w).0 ≡ seen w)
    (asked-set : (s : ℤ) (n : ℕ) (w : port.W) → asked (port.set_read_size s n w).0 ≡ n) where
  abbrev Took : port.W → List ℕ → Option (Adapter Cb × port.W × ℤ) → Type 0
  Took = Received port call cb seen asked seen-call seen-set asked-set

  -- The outcome of one call of `adapter_recv`.
  record Heard (t : Table Cb) (i : ℕ) (w : port.W) (g : List ℕ)
      (out : Option (Table Cb × port.W × ℤ)) : Type 0 where
    table : Table Cb
    world : port.W
    ret : ℤ
    returns : out ≡ some (table, world, ret)
    listening : IsListening cb table i (rest g)
    delivers : seen world ≡ seen w ++ completed g
    asks : asked world ≡ wanted (rest g)

  adapter_recv-Heard :
      (t : Table Cb) (i : ℕ) (got f : List ℕ) (w : port.W)
      → IsListening cb t i got
      → Took w (got ++ f) (recv_bytes port call (entry t i) i f (length f) w)
      → Heard t i w (got ++ f) (adapter_recv port call t (pos i) f (pos (length f)) w)
  unfolding adapter_recv
  adapter_recv-Heard t i got f w l r =
      rw (adapter_check-open t i l.in_table l.receiving.serial, r.returns)
        (record {
          table = set t i r.adapter;
          world = r.world;
          ret = r.ret;
          returns = refl;
          listening = record {
            in_table = l.in_table;
            size = length-set t i r.adapter ∙ l.size;
            receiving = rw (get_or-set_self t i r.adapter free_adapter (omega (arith, l))) r.holds;
          };
          delivers = r.delivers;
          asks = r.asks;
        })

  -- What a run over a stream comes to.
  pub record Delivered (t : Table Cb) (i : ℕ) (w : port.W) (ps : List (List ℕ))
      (out : Option (Table Cb × port.W)) : Type 0 where
    pub table : Table Cb
    pub world : port.W
    pub returns : out ≡ some (table, world)
    pub listening : IsListening cb table i []
    pub delivers : seen world ≡ seen w ++ ps

  recv_all-cons :
      (t : Table Cb) (i : ℕ) (g f : List ℕ) (fs ps qs : List (List ℕ)) (w : port.W)
      → (h : Heard t i w g (adapter_recv port call t (pos i) f (pos (length f)) w))
      → completed g ++ qs ≡ ps
      → Delivered h.table i h.world qs (recv_all port call h.table i fs h.world)
      → Delivered t i w ps (recv_all port call t i (f ∷ fs) w)
  unfolding recv_all
  recv_all-cons t i g f fs ps qs w h e d = record {
    table = d.table;
    world = d.world;
    returns = rw (recv_all, h.returns) d.returns;
    listening = d.listening;
    delivers = d.delivers ∙ rw (h.delivers, ← e) (append_assoc (seen w) (completed g) qs);
  }

  -- On an open adapter with a callback, if the size asked for is that of the missing part of a packet,
  -- then however the line cuts a stream of packets into reads of at most the size that is asked for at
  -- the time, the callback is given exactly the packets of the stream, in order, and the adapter is left between packets.
  pub adapter_recv-packets :
      (fs : List (List ℕ)) (got : List ℕ) (ps : List (List ℕ)) (t : Table Cb) (i : ℕ) (w : port.W)
      → IsListening cb t i got
      → All IsPacket ps
      → got ++ concat fs ≡ concat ps
      → wanted got ≢ 0
      → asked w ≡ wanted got
      → FitsAsked port asked call t i fs w
      → Delivered t i w ps (recv_all port call t i fs w)
  unfolding recv_all FitsAsked
  adapter_recv-packets [] got [] t i w l v e u a fit = record {
    table = t;
    world = w;
    returns = refl;
    listening = subst (λ g. IsListening cb t i g) (sym (append-nil got) ∙ e) l;
    delivers = sym (append-nil (seen w));
  }
  adapter_recv-packets [] got (p ∷ ps) t i w l v e u a fit =
      absurd (u (wanted-whole got p (concat ps) (sym (append-nil got) ∙ e) v.0))
  adapter_recv-packets (f ∷ fs) got ps t i w l v e u a fit =
      let e' = append_assoc got f (concat fs) ∙ e in
      let fits : length f ≤ wanted got = omega (arith, fit.0, a) in
      let h = adapter_recv-Heard t i got f w l (
        recv_bytes-Received port call cb seen asked seen-call seen-set asked-set i (entry t i) got f
          w l.receiving fits u (small_head (got ++ f) (concat fs) ps v e')) in
      let later_fit = rw h.returns at fit.1 in
      elim (Bool-cases (wanted (got ++ f) == 0)) [
        | inl done ↦
            let (qs, eq, vs, later) = cut_first got f fs ps v e' u fits ((==_iff _ 0).0 done) in
            recv_all-cons t i (got ++ f) f fs ps qs w h (rw done (sym eq)) (
              adapter_recv-packets fs [] qs h.table i h.world (rw done at h.listening) vs later
                (omega arith) (rw done at h.asks) later_fit)
        | inr more ↦ recv_all-cons t i (got ++ f) f fs ps ps w h (rw more) (
            adapter_recv-packets fs (got ++ f) ps h.table i h.world (rw more at h.listening) v e'
              (ground arith) (rw more at h.asks) later_fit)
      ]
