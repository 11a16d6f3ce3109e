-- ===== src/Proxy/Endpoints/Inverse.antt =====
-- The loop of `fix_endpoints` over the descriptors of a configuration, and the room that it takes.
use serialusb.Common.{
  ℕ, suc, ◌+◌, ◌%◌, ◌≤◌, ◌<◌, ◌≡◌, ◌≢◌, refl, Bool, true, false, ◌||◌, inl, inr, Option, some, List,
  [], ◌∷◌, arith, if◌then◌else◌, ltb, length, Bool-cases, All,
}
use serialusb.Protocol.{max_endpoints}
use serialusb.Proxy.State.{Proxy}
use serialusb.Proxy.Endpoints.{
  enter, next_number, new_address, is_skipped, dir_in, fix_configuration,
}
use serialusb.Gasync.Usb.{EndpointDescriptor}
use serialusb.Proxy.Endpoints.Routing.{IsRouted, IsNew, enter-Entered}

-- An endpoint address as the standard has it, of an endpoint other than 0.
abbrev pub IsEndpoint : EndpointDescriptor → Type 0
IsEndpoint e = (e.b_endpoint_address % 16 ≢ 0) × (e.b_endpoint_address < 256)

-- With a renumbering the numbers given bound the list; without one the descriptors do.
abbrev pub HasPlaces : Bool → ℕ → Proxy → ℕ → Type 0
HasPlaces true number p count = (length p.endpoints ≤ number) × (number + count ≤ 255)
HasPlaces false number p count =
    (length p.endpoints + count ≤ max_endpoints) × (number ≤ max_endpoints)

last_false : (a b : Bool) → (a || b) ≡ false → b ≡ false
last_false true b e = cc
last_false false b e = e

new_address-IsNew :
    (r : Bool) (e : EndpointDescriptor) (k : ℕ)
    → IsEndpoint e
    → k ≤ 254
    → next_number r k ≤ max_endpoints
    → (new_address r e (next_number r k) % 16 ≢ 0)
      × (new_address r e (next_number r k) < 256)
      × IsNew r k (next_number r k) (new_address r e (next_number r k)) e.b_endpoint_address
new_address-IsNew false e k v h small = (v.0, v.1, refl)
new_address-IsNew true e k v h small =
    let n : (k + 1) % 256 ≡ k + 1 = omega arith in
    let below : ltb ((k + 1) % 256) 128 ≡ true = ground arith in
    elim (Bool-cases (dir_in e.b_endpoint_address)) [
      | inl a ↦ rw (a, below) (omega arith, omega arith, (omega arith, omega arith, small))
      | inr a ↦ rw a (omega arith, omega arith, (omega arith, omega arith, small))
    ]

later-IsRouted :
    (r : Bool) (k : ℕ) (p : Proxy) → k ≤ 254 → IsRouted r k p → IsRouted r (next_number r k) p
later-IsRouted false k p h v = v
later-IsRouted true k p h v = record {
  to_serial = v.to_serial;
  to_usb = v.to_usb;
  linked = λ i y e nz.
      let l = v.linked i y e nz in
      record {
        place = l.place;
        original = l.original;
        at = l.at;
        held = l.held;
        back = l.back;
        given = omega (arith, l.given);
      };
}

places-number : (r : Bool) (k : ℕ) (p : Proxy) (n : ℕ) → HasPlaces r k p (suc n) → k ≤ 254
places-number true k p n h = omega arith
places-number false k p n h = omega arith

places-open :
    (r : Bool) (k : ℕ) (p : Proxy) (n : ℕ)
    → HasPlaces r k p (suc n)
    → next_number r k ≤ max_endpoints
    → length p.endpoints < max_endpoints
places-open true k p n h small = omega arith
places-open false k p n h small = omega arith

places-skip :
    (r : Bool) (k : ℕ) (p : Proxy) (n : ℕ)
    → HasPlaces r k p (suc n)
    → HasPlaces r (next_number r k) p n
places-skip true k p n h = (omega arith, omega arith)
places-skip false k p n h = (omega arith, omega arith)

places-enter :
    (r : Bool) (k : ℕ) (p q : Proxy) (n : ℕ)
    → length q.endpoints ≡ length p.endpoints + 1
    → HasPlaces r k p (suc n)
    → HasPlaces r (next_number r k) q n
places-enter true k p q n e h = (omega arith, omega arith)
places-enter false k p q n e h = (omega arith, omega arith)

-- The loop ends with routed tables.
pub record Fixed (r : Bool) (out : Option (List EndpointDescriptor × Proxy)) : Type 0 where
  pub descriptors : List EndpointDescriptor
  pub state : Proxy
  pub number : ℕ
  pub returns : out ≡ some (descriptors, state)
  pub routed : IsRouted r number state

module _ (first : Bool) (r : Bool) where
  Fixed-cons :
      (e : EndpointDescriptor) (es : List EndpointDescriptor) (k : ℕ) (p q : Proxy)
      → (if is_skipped first e (next_number r k)
          then some p
          else enter e (new_address r e (next_number r k)) p)
        ≡ some q
      → Fixed r (fix_configuration first r es (next_number r k) q)
      → Fixed r (fix_configuration first r (e ∷ es) k p)
  unfolding fix_configuration
  Fixed-cons e es k p q h f =
      rw (h, f.returns)
        (record {
          descriptors =
              record e { b_endpoint_address = new_address r e (next_number r k) } ∷ f.descriptors;
          state = f.state;
          number = f.number;
          returns = refl;
          routed = f.routed;
        })

  pub fix_configuration-Fixed :
      (es : List EndpointDescriptor) (k : ℕ) (p : Proxy)
      → All IsEndpoint es
      → HasPlaces r k p (length es)
      → IsRouted r k p
      → Fixed r (fix_configuration first r es k p)
  unfolding fix_configuration
  fix_configuration-Fixed [] k p a h v = record {
    descriptors = [];
    state = p;
    number = k;
    returns = refl;
    routed = v;
  }
  fix_configuration-Fixed (e ∷ es) k p a h v =
      let n = next_number r k in
      let small = places-number r k p (length es) h in
      elim (Bool-cases (is_skipped first e n)) [
        | inl skipped ↦ Fixed-cons e es k p p (rw skipped refl) (
            fix_configuration-Fixed es n p a.1 (places-skip r k p (length es) h)
              (later-IsRouted r k p small v))
        | inr kept ↦
            let low : n ≤ max_endpoints =
              (let b = last_false _ (ltb max_endpoints n) kept in ground arith) in
            let (x, y, z) = new_address-IsNew r e k a.0 small low in
            let t =
              enter-Entered r k n e (new_address r e n) p v a.0.0 a.0.1 x y z
                (places-open r k p (length es) h low) in
            Fixed-cons e es k p t.state (rw kept t.returns) (
              fix_configuration-Fixed es n t.state a.1
                (places-enter r k p t.state (length es) t.count h) t.routed)
      ]
