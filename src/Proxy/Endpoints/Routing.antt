-- ===== src/Proxy/Endpoints/Routing.antt =====
-- The entering of an endpoint: from its place in the table to the serial line, and back by the other one.
use serialusb.Common.{
  ℕ, ◌+◌, ◌-◌, ◌*◌, ◌/◌, ◌%◌, ◌≤◌, ◌<◌, ◌≡◌, ◌≢◌, refl, sym, ap, ◌∙◌, subst, Bool, true, false, inl,
  inr, Option, some, [], ◌∷◌, ◌++◌, arith, ltb, ◌==◌, get_elem?, set, length, Bool-cases,
  length-set, length-append, get_elem?-set_self, get_elem?-set_ne,
}
use serialusb.Protocol.{max_endpoints}
use serialusb.Proxy.State.{Proxy, cell}
use serialusb.Proxy.Endpoints.{enter}
use serialusb.Gasync.Usb.{EndpointDescriptor}

-- What is known of a serial address in the place `i` of the table: after a renumbering, its number is
-- one of those given so far; otherwise it is the device's own.
abbrev pub Given : Bool → ℕ → ℕ → ℕ → Type 0
Given true number i address = address % 16 ≤ number
Given false number i address = cell address ≡ some i

-- The place of the serial address leads back to the place of the device's address.
pub record Linked (renumber : Bool) (number : ℕ) (p : Proxy) (i address : ℕ) : Type 0 where
  pub place : ℕ
  pub original : ℕ
  pub at : cell address ≡ some place
  pub held : get_elem? p.serial_to_usb place ≡ some original
  pub back : cell original ≡ some i
  pub given : Given renumber number i address

pub record IsRouted (renumber : Bool) (number : ℕ) (p : Proxy) : Type 0 where
  pub to_serial : length p.usb_to_serial ≡ 30
  pub to_usb : length p.serial_to_usb ≡ 30
  pub linked :
      (i address : ℕ)
      → get_elem? p.usb_to_serial i ≡ some address
      → address ≢ 0
      → Linked renumber number p i address

cell-some :
    (a : ℕ)
    → a % 16 ≢ 0
    → a < 256
    → (i : ℕ) × (cell a ≡ some i) × (i < 30) × (i + 1 ≡ a / 128 * 15 + a % 16)
unfolding cell
cell-some a h b = (a / 128 * 15 + a % 16 - 1, ground arith, omega arith, omega arith)

cell-value : (a i : ℕ) → cell a ≡ some i → i + 1 ≡ a / 128 * 15 + a % 16
unfolding cell
cell-value a i e = ground arith

-- The new serial address of a descriptor: a number not given so far, or the device's own.
abbrev pub IsNew : Bool → ℕ → ℕ → ℕ → ℕ → Type 0
IsNew true k n address own = (k < address % 16) × (address % 16 ≤ n) × (n ≤ max_endpoints)
IsNew false k n address own = address ≡ own

Given-later :
    (r : Bool) (k n i y address own : ℕ) → IsNew r k n address own → Given r k i y → Given r n i y
Given-later true k n i y address own f g = omega arith
Given-later false k n i y address own f g = g

Given-new :
    (r : Bool) (k n i address own : ℕ)
    → IsNew r k n address own
    → cell own ≡ some i
    → Given r n i address
Given-new true k n i address own f e = f.1
Given-new false k n i address own f e = ap cell f ∙ e

some_injective : (a b : ℕ) → some a ≡ some b → a ≡ b
some_injective a b e = cc

-- A new address takes no place that leads back to another endpoint.
other_place :
    (r : Bool) (k n i j c d y address own : ℕ)
    → IsNew r k n address own
    → Given r k i y
    → cell y ≡ some j
    → cell own ≡ some c
    → cell address ≡ some d
    → i ≢ c
    → d ≢ j
other_place true k n i j c d y address own f g ey ec ed ne same =
    let a = cell-value y j ey in let b = cell-value address d ed in absurd (omega arith)
other_place false k n i j c d y address own f g ey ec ed ne same =
    let ij = some_injective i j (sym g ∙ ey) in
    let cd = some_injective c d (sym ec ∙ sym (ap cell f) ∙ ed) in ne (ij ∙ sym same ∙ sym cd)

pub record Entered (r : Bool) (n : ℕ) (p : Proxy) (out : Option Proxy) : Type 0 where
  pub state : Proxy
  pub returns : out ≡ some state
  pub routed : IsRouted r n state
  pub count : length state.endpoints ≡ length p.endpoints + 1

module _ (r : Bool) (k n : ℕ) (e : EndpointDescriptor) (address : ℕ) (p : Proxy)
    (v : IsRouted r k p) (number : e.b_endpoint_address % 16 ≢ 0)
    (byte : e.b_endpoint_address < 256) (number' : address % 16 ≢ 0) (byte' : address < 256)
    (new : IsNew r k n address e.b_endpoint_address)
    (room : length p.endpoints < max_endpoints) where
  abbrev own : ℕ
  own = e.b_endpoint_address

  c : (i : ℕ) × (cell own ≡ some i) × (i < 30) × (i + 1 ≡ own / 128 * 15 + own % 16)
  c = cell-some own number byte

  d : (i : ℕ) × (cell address ≡ some i) × (i < 30) × (i + 1 ≡ address / 128 * 15 + address % 16)
  d = cell-some address number' byte'

  abbrev entered : Proxy
  entered = record p {
    usb_to_serial = set p.usb_to_serial c.0 address;
    serial_to_usb = set p.serial_to_usb d.0 own;
    endpoints =
        p.endpoints
        ++ (record {
          number = address;
          type = e.bm_attributes % 4;
          size = e.w_max_packet_size % 256;
        }
            ∷ []);
  }

  entered-Linked :
      (i y : ℕ) → get_elem? entered.usb_to_serial i ≡ some y → y ≢ 0 → Linked r n entered i y
  entered-Linked i y h nz = elim (Bool-cases (c.0 == i)) [
    | inl here ↦
        let ci : c.0 ≡ i = ground arith in
        let self = get_elem?-set_self p.usb_to_serial c.0 address (omega (arith, v, c)) in
        let y_new : address ≡ y =
          some_injective address y (sym self ∙ ap (get_elem? entered.usb_to_serial) ci ∙ h) in
        record {
          place = d.0;
          original = own;
          at = ap cell (sym y_new) ∙ d.1;
          held = get_elem?-set_self p.serial_to_usb d.0 own (omega (arith, v, d));
          back = c.1 ∙ ap some ci;
          given = subst (Given r n i) y_new (Given-new r k n i address own new (c.1 ∙ ap some ci));
        }
    | inr elsewhere ↦
        let ne : c.0 ≢ i = ground arith in
        let old = v.linked i y (sym (get_elem?-set_ne p.usb_to_serial c.0 i address ne) ∙ h) nz in
        let apart =
          other_place r k n i old.place c.0 d.0 y address own new old.given old.at c.1 d.1
            (λ x. ne (sym x)) in
        record {
          place = old.place;
          original = old.original;
          at = old.at;
          held = get_elem?-set_ne p.serial_to_usb d.0 old.place own apart ∙ old.held;
          back = old.back;
          given = Given-later r k n i y address own new old.given;
        }
  ]

  pub enter-Entered : Entered r n p (enter e address p)
  unfolding enter
  enter-Entered =
      let open_place : ltb (length p.endpoints) max_endpoints ≡ true = ground arith in
      rw (c.1, d.1, open_place)
        (record {
          state = entered;
          returns = refl;
          routed = record {
            to_serial = length-set p.usb_to_serial c.0 address ∙ v.to_serial;
            to_usb = length-set p.serial_to_usb d.0 own ∙ v.to_usb;
            linked = entered-Linked;
          };
          count = length-append p.endpoints _;
        })
