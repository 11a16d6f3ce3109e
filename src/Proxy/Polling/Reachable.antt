-- ===== src/Proxy/Polling/Reachable.antt =====
-- Where the endpoints are along any steps: read, queued or pending; and the room that this leaves in
-- the queue of IN packets.
use serialusb.Common.{
  ℕ, ◌+◌, ◌%◌, ◌≤◌, ◌≡◌, ◌≢◌, refl, sym, ap, ◌∙◌, inl, inr, Bool, true, false, Option, some, none,
  List, [], ◌∷◌, ◌++◌, ◌==◌, ==_iff, arith, Option-cases, length, length-take, take, subst,
  if◌then◌else◌,
}
use serialusb.Common.Int.{ℤ, pos, negsuc}
use serialusb.Protocol.{max_endpoints, max_payload_size_ep}
use serialusb.Proxy.State.{Proxy, Request, read_table, addr_to_index}
use serialusb.Proxy.Fifo.Queue.{queued, HasNumber, IsFresh, IsQueue}
use serialusb.Proxy.Callbacks.{in_data}
use serialusb.Proxy.Delivery.{Extended, in_data-Extended}
use serialusb.Proxy.Polling.{
  Reading, Step, data_read, read_ended, taken, taken_idle, Steps, stay, step,
}
use serialusb.Proxy.Polling.Tally.{
  tally, tally-middle, tally-length, tally-none, has_index, tally-IsFresh, tally-yes, tally-fewer,
  tally-one,
}
use serialusb.Proxy.Polling.Table.{option_first}
use serialusb.Proxy.Polling.Keeping.{
  pending_of, in_data-KeepsQueue, acknowledged-Takes, acknowledged-idle,
}

abbrev no_number : ℕ → Bool
no_number e = e % 16 == 0

abbrev lacks : Option ℕ → Bool
lacks none = true
lacks (some _) = false

abbrev not_mapped : List ℕ → ℕ → Bool
not_mapped t e = lacks (read_table t e)

-- The endpoints that are polled at the start: at most six, with different numbers, none of them 0, each
-- with a serial endpoint in the table.
pub record IsPolled (endpoints : List ℕ) (table : List ℕ) : Type 0 where
  pub few : length endpoints ≤ max_endpoints
  pub once : (k : ℕ) → tally (has_index k) endpoints ≤ 1
  pub numbers : tally no_number endpoints ≤ 0
  pub mapped : tally (not_mapped table) endpoints ≤ 0

-- Each endpoint is at one place at most: read, queued or pending.
pub record InFlight (endpoints : List ℕ) (table : List ℕ) (r : Reading) : Type 0 where
  pub valid : IsQueue r.proxy
  pub same_table : r.proxy.usb_to_serial ≡ table
  pub shared :
      (f : ℕ → Bool)
      → tally f r.outstanding + tally f (queued r.proxy) + tally f (pending_of r.proxy)
        ≤ tally f endpoints

ended-same :
    (answer : List Request → Request → ℤ) (endpoint n : ℕ) (buf : List ℕ) (p q : Proxy)
    → in_data answer endpoint buf (negsuc n) p ≡ some (q, pos 0)
    → p ≡ q
unfolding in_data
ended-same answer endpoint n buf p q e = option_first e

-- What the data of an endpoint needs to be queued.
record Ready (p : Proxy) (endpoint : ℕ) : Type 0 where
  number : HasNumber endpoint
  room : p.nb_in_ep_fifo ≢ max_endpoints
  fresh : IsFresh endpoint (queued p)
  serial : ℕ
  has_serial : read_table p.usb_to_serial endpoint ≡ some serial

module _ (endpoints : List ℕ) (table : List ℕ) (polled : IsPolled endpoints table) where
  outstanding-Ready :
      (before after : List ℕ) (endpoint : ℕ) (p : Proxy)
      → InFlight endpoints table (record { outstanding = before ++ (endpoint ∷ after); proxy = p })
      → Ready p endpoint
  outstanding-Ready before after endpoint p inv =
      let rest = before ++ after in
      let own = has_index (addr_to_index endpoint) in
      let all : ℕ → Bool = λ x. true in
      let middle = λ (f : ℕ → Bool). tally-middle f before after endpoint in
      let no : no_number endpoint ≡ false =
        tally-none no_number endpoint rest
          (omega (arith, inv.shared no_number, middle no_number, polled.numbers)) in
      let here : not_mapped table endpoint ≡ false =
        tally-none (not_mapped table) endpoint rest (
          omega (arith, inv.shared (not_mapped table), middle (not_mapped table), polled.mapped)) in
      let own_yes =
        tally-yes own endpoint rest
          ((==_iff (addr_to_index endpoint) (addr_to_index endpoint)).1 refl) in
      let size = length-take p.nb_in_ep_fifo p.in_ep_fifo in
      let total = tally-length (queued p) in
      let whole = tally-length endpoints in
      let all_yes = tally-yes all endpoint rest refl in
      elim (Option-cases (read_table table endpoint)) [
        | inl e ↦ absurd (let bad = rw e at here in cc)
        | inr (s, e) ↦ record {
          number = λ z. absurd (ground arith);
          room = λ full. absurd (
              omega (
                arith,
                inv.shared all,
                middle all,
                all_yes,
                size,
                total,
                whole,
                polled.few,
                inv.valid.fifo,
                full,
              ));
          fresh = tally-IsFresh endpoint (queued p) (
              omega
                (arith, inv.shared own, middle own, own_yes, polled.once (addr_to_index endpoint)));
          serial = s;
          has_serial = ap (λ t. read_table t endpoint) inv.same_table ∙ e;
        }
      ]

  start-InFlight :
      (p : Proxy)
      → IsQueue p
      → p.usb_to_serial ≡ table
      → p.nb_in_ep_fifo ≡ 0
      → p.in_pending ≡ 0
      → InFlight endpoints table (record { outstanding = endpoints; proxy = p })
  start-InFlight p v t none_queued none_pending = record {
    valid = v;
    same_table = t;
    shared = λ f.
        let queue : tally f (queued p) ≡ 0 =
          ap (λ n. tally f (take n p.in_ep_fifo)) none_queued ∙ refl in
        let pending : tally f (pending_of p) ≡ 0 =
          ap (λ n. tally f (if n == 0 then [] else n ∷ [])) none_pending in
        omega (arith, queue, pending);
  }

  module _ (answer : List Request → Request → ℤ) where
    InFlight-Step :
        (r s : Reading) → InFlight endpoints table r → Step answer r s → InFlight endpoints table s
    InFlight-Step r s inv (data_read before after endpoint buf p q fits e) =
        let ready = outstanding-Ready before after endpoint p inv in
        let kept =
          in_data-KeepsQueue answer p q endpoint buf ready.serial inv.valid ready.number fits
            ready.room ready.fresh ready.has_serial e in
        record {
          valid = kept.valid;
          same_table = kept.same_table ∙ inv.same_table;
          shared = λ f. omega (
            arith,
            inv.shared f,
            kept.moved f,
            tally-middle f before after endpoint,
            tally-one f endpoint (before ++ after),
          );
        }
    InFlight-Step r s inv (read_ended before after endpoint n buf p q e) =
        let same : p ≡ q = ended-same answer endpoint n buf p q e in
        subst
          (λ (x : Proxy).
            InFlight endpoints table (record { outstanding = before ++ after; proxy = x }))
          same
          (record {
            valid = inv.valid;
            same_table = inv.same_table;
            shared = λ f. omega (
              arith,
              inv.shared f,
              tally-middle f before after endpoint,
              tally-fewer f endpoint (before ++ after),
            );
          })
    InFlight-Step r s inv (taken outstanding p q h e) =
        let kept = acknowledged-Takes answer p q inv.valid h e in
        record {
          valid = kept.valid;
          same_table = kept.same_table ∙ inv.same_table;
          shared =
              λ f. omega (arith, inv.shared f, kept.moved f, tally-one f p.in_pending outstanding);
        }
    InFlight-Step r s inv (taken_idle outstanding p q z e) =
        subst
          (λ (x : Proxy).
            InFlight endpoints table (record { outstanding = outstanding; proxy = x }))
          (acknowledged-idle answer p q z e) inv

    InFlight-Steps :
        (r s : Reading) → InFlight endpoints table r → Steps answer r s → InFlight endpoints table s
    InFlight-Steps r s inv (stay _) = inv
    InFlight-Steps r s inv (step _ m _ before last) =
        InFlight-Step m s (InFlight-Steps r m inv before) last

    -- Let at most six endpoints be polled, with different numbers, none of them 0, each with a serial
    -- endpoint in the table, and let the queue be valid and hold nothing. After any sequence of reads
    -- that end, with at most 64 bytes or without data, and of acknowledgements, each of which succeeds
    -- and in any order, at most 64 bytes of any endpoint whose read is still outstanding join the end
    -- of the line of packets behind the serial endpoint of the table, or a request has failed: the
    -- queue of six packets is never full when data comes, and no packet that waits is overwritten.
    pub in_data-Steps :
        (p : Proxy)
        → IsQueue p
        → p.usb_to_serial ≡ table
        → p.nb_in_ep_fifo ≡ 0
        → p.in_pending ≡ 0
        → (q : Proxy) (before after : List ℕ) (endpoint : ℕ)
        → Steps answer
            (record { outstanding = endpoints; proxy = p })
            (record { outstanding = before ++ (endpoint ∷ after); proxy = q })
        → (buf : List ℕ) → length buf ≤ max_payload_size_ep
        → (serial : ℕ) × (read_table table endpoint ≡ some serial)
          × Extended answer q
              ((serial ∷ buf) ∷ [])
              (in_data answer endpoint buf (pos (length buf)) q)
    in_data-Steps p v t none_queued none_pending q before after endpoint path buf fits =
        let inv = InFlight-Steps _ _ (start-InFlight p v t none_queued none_pending) path in
        let ready = outstanding-Ready before after endpoint q inv in
        (
          ready.serial,
          ap (λ t. read_table t endpoint) (sym inv.same_table) ∙ ready.has_serial,
          in_data-Extended answer q inv.valid endpoint buf ready.serial ready.number fits ready.room
              ready.fresh ready.has_serial,
        )
