-- ===== src/Proxy/Endpoints/Whole.antt =====
-- `fix_endpoints` as a whole, from the tables as they are before `main`.
use serialusb.Common.{
  ℕ, zero, suc, ◌≤◌, ◌≡◌, ◌≢◌, refl, sym, ap, ◌∙◌, Bool, true, false, inl, inr, Option, some, List,
  [], ◌∷◌, arith, get_elem?, set, length, ◌>>=◌, Option-cases, All, length-set, replicate,
  get_elem?-eq-get_or, get_or,
}
use serialusb.Protocol.{max_endpoints}
use serialusb.Proxy.State.{Proxy, cell, read_table, addr_to_index}
use serialusb.Proxy.Endpoints.{
  Properties, no_properties, with_descriptor, target_properties, next_number, new_address,
  is_skipped, get_endpoint_properties, compare_endpoint_properties, fix_configuration, fix_from,
  fix_endpoints,
}
use serialusb.Gasync.Usb.{EndpointDescriptor}
use serialusb.Proxy.Endpoints.Routing.{IsRouted}
use serialusb.Proxy.Endpoints.Inverse.{IsEndpoint, HasPlaces, fix_configuration-Fixed}

-- The properties of endpoints other than 0 stay in their table.
get_endpoint_properties-some :
    (es : List EndpointDescriptor) (props : List Properties)
    → length props ≡ 15
    → All IsEndpoint es
    → (out : List Properties) × (get_endpoint_properties es props ≡ some out)
unfolding get_endpoint_properties
get_endpoint_properties-some [] props h v = (props, refl)
get_endpoint_properties-some (e ∷ es) props h v =
    let i = addr_to_index e.b_endpoint_address in
    let q = get_elem?-eq-get_or props i no_properties (omega (arith, v.0)) in
    let next = set props i (with_descriptor e (get_or props i no_properties)) in
    let (out, r) = get_endpoint_properties-some es next (length-set props i _ ∙ h) v.1 in
    (out, rw q r)

-- A configuration after the first is renumbered at most: the tables stay.
fix_configuration-later :
    (r : Bool) (es : List EndpointDescriptor) (k : ℕ) (p : Proxy)
    → (es' : List EndpointDescriptor) × (fix_configuration false r es k p ≡ some (es', p))
unfolding fix_configuration
fix_configuration-later r [] k p = ([], refl)
fix_configuration-later r (e ∷ es) k p =
    let n = next_number r k in
    let skip : is_skipped false e n ≡ true = ground arith in
    let (es', h) = fix_configuration-later r es n p in
    (record e { b_endpoint_address = new_address r e n } ∷ es', rw (skip, h) refl)

fix_from-later :
    (ess : List (List EndpointDescriptor)) (p : Proxy)
    → All (All IsEndpoint) ess
    → (out : List (List EndpointDescriptor)) × (fix_from false ess p ≡ some (out, p))
unfolding fix_from
fix_from-later [] p v = ([], refl)
fix_from-later (es ∷ ess) p v =
    let (props, h) = get_endpoint_properties-some es (replicate 15 no_properties) refl v.0 in
    let (es', g) =
      fix_configuration-later (compare_endpoint_properties props target_properties) es 0 p in
    let (out, f) = fix_from-later ess p v.1 in (es' ∷ out, rw (h, g, f) refl)

-- The serial address that the table gives an endpoint of the device leads back to it.
pub record Routes (out : Option (List (List EndpointDescriptor) × Proxy)) : Type 0 where
  pub configurations : List (List EndpointDescriptor)
  pub state : Proxy
  pub returns : out ≡ some (configurations, state)
  pub back :
      (endpoint address : ℕ)
      → read_table state.usb_to_serial endpoint ≡ some address
      → address ≢ 0
      → (read_table state.serial_to_usb address >>= cell) ≡ cell endpoint

IsRouted-inverse :
    (r : Bool) (n : ℕ) (p : Proxy) (endpoint address : ℕ)
    → IsRouted r n p
    → read_table p.usb_to_serial endpoint ≡ some address
    → address ≢ 0
    → (read_table p.serial_to_usb address >>= cell) ≡ cell endpoint
IsRouted-inverse r n p endpoint address v h nz = elim (Option-cases (cell endpoint)) [
  | inl e ↦ let bad = rw e at h in absurd cc
  | inr (i, e) ↦ let l = v.linked i address (rw e at h) nz in rw (l.at, l.held, l.back, e) refl
]

pub zeros-none : (n i y : ℕ) → get_elem? (replicate n 0) i ≡ some y → y ≡ 0
zeros-none zero i y h = cc
zeros-none (suc n) zero y h = cc
zeros-none (suc n) (suc i) y h = zeros-none n i y h

-- For configurations without a descriptor of endpoint 0, and at most six descriptors in the first, the
-- fixing of the endpoints stays within its arrays, and leaves tables in which the serial address of an
-- endpoint of the device leads back to that endpoint.
pub fix_endpoints-Routes :
    (es : List EndpointDescriptor) (ess : List (List EndpointDescriptor)) (p : Proxy)
    → All IsEndpoint es
    → All (All IsEndpoint) ess
    → length es ≤ max_endpoints
    → p.usb_to_serial ≡ replicate 30 0
    → p.serial_to_usb ≡ replicate 30 0
    → Routes (fix_endpoints (es ∷ ess) p)
unfolding fix_endpoints fix_from
fix_endpoints-Routes es ess p v vs h u s =
    let (props, a) = get_endpoint_properties-some es (replicate 15 no_properties) refl v in
    let r = compare_endpoint_properties props target_properties in
    let start = record p { endpoints = [] } in
    let zero_routed : IsRouted r 0 start = record {
      to_serial = ap length u;
      to_usb = ap length s;
      linked = λ i y e nz. absurd (nz (zeros-none 30 i y (sym (ap (λ t. get_elem? t i) u) ∙ e)));
    } in
    let f = fix_configuration-Fixed true r es 0 start v (places r start h refl) zero_routed in
    let (out, g) = fix_from-later ess f.state vs in
    rw (a, f.returns, g)
      (record {
        configurations = f.descriptors ∷ out;
        state = f.state;
        returns = refl;
        back = λ endpoint address. IsRouted-inverse r f.number f.state endpoint address f.routed;
      })
  where
    places :
        (r : Bool) (p : Proxy) {n : ℕ}
        → n ≤ max_endpoints
        → length p.endpoints ≡ 0
        → HasPlaces r 0 p n
    places true p h e = (omega arith, omega arith)
    places false p h e = (omega arith, omega arith)
