-- ===== src/Proxy/Fifo/Order.antt =====
-- `queue_in_packet` and `send_next_in_packet` against a first-in first-out queue of packets.
use native.Mathlib.Numerals.{add-one}
use serialusb.Common.{
  ℕ, ◌+◌, ◌≤◌, ◌<◌, ◌≡◌, ◌≢◌, refl, ap, ap₂, ◌∙◌, List, [], ◌∷◌, ◌++◌, map, arith, length, get_or,
  set, take, write_at, take-append, length-set, get_or-set_self, Option, some, All-append, All-set,
  All-get, le→leb, ◌==◌, false, take-all, get_elem?-eq-get_or,
}
use serialusb.Common.Bytes.{length-write_at}
use serialusb.Common.Int.{ℤ, pos, minus_one}
use serialusb.Protocol.{max_endpoints, max_payload_size_ep}
use serialusb.Proxy.State.{Proxy, InPacket, addr_to_index, read_table}
use serialusb.Proxy.Fifo.{packet_value, queue_in_packet}
use serialusb.Proxy.Fifo.Queue.{
  no_packet, queued, value_of, values, HasNumber, IsFresh, IsQueue, take-set, map-append_one,
  values-set,
}

-- The new packet of the endpoint is its serial endpoint, then its data.
pub record Queued (p : Proxy) (endpoint : ℕ) (buf : List ℕ) (serial : ℕ) (out : Option (Proxy × ℤ))
    : Type 0 where
  pub state : Proxy
  pub returns : out ≡ some (state, pos 0)
  pub appends : values state ≡ values p ++ ((serial ∷ buf) ∷ [])
  pub order : queued state ≡ queued p ++ (endpoint ∷ [])
  pub same_pending : state.in_pending ≡ p.in_pending
  pub same_log : state.log ≡ p.log
  pub valid : IsQueue state

module _ (p : Proxy) (endpoint : ℕ) (buf : List ℕ) (v : IsQueue p) (number : HasNumber endpoint)
    (fits : length buf ≤ max_payload_size_ep) (room : p.nb_in_ep_fifo ≢ max_endpoints) where
  index_in : addr_to_index endpoint < length p.in_packets
  index_in = omega (arith, v)

  abbrev stored : InPacket → ℕ → InPacket
  stored old serial = record {
    size = length buf + 1;
    endpoint = serial;
    payload = write_at 0 (take (length buf) buf) old.payload;
  }

  abbrev after : InPacket → ℕ → Proxy
  after old serial = record p {
    in_packets = set p.in_packets (addr_to_index endpoint) (stored old serial);
    in_ep_fifo = set p.in_ep_fifo p.nb_in_ep_fifo endpoint;
    nb_in_ep_fifo = p.nb_in_ep_fifo + 1;
  }

  stored-value : (old : InPacket) (serial : ℕ) → packet_value (stored old serial) ≡ serial ∷ buf
  stored-value old serial =
      rw (add-one, take-all (length buf) buf (omega arith))
        (ap (λ r. serial ∷ r) (take-append buf _ (length buf) refl))

  after-queued :
      (old : InPacket) (serial : ℕ) → queued (after old serial) ≡ queued p ++ (endpoint ∷ [])
  after-queued old serial =
      rw add-one (take-set p.in_ep_fifo p.nb_in_ep_fifo endpoint (omega (arith, v)))

  after-values :
      (old : InPacket) (serial : ℕ)
      → IsFresh endpoint (queued p)
      → values (after old serial) ≡ values p ++ ((serial ∷ buf) ∷ [])
  after-values old serial fresh =
      let f = value_of (after old serial).in_packets in
      let new : f endpoint ≡ serial ∷ buf =
        ap packet_value (
          get_or-set_self p.in_packets (addr_to_index endpoint) (stored old serial) no_packet
            index_in)
        ∙ stored-value old serial in
      ap (map f) (after-queued old serial)
      ∙ map-append_one f (queued p) endpoint
      ∙ ap₂ (λ a b. a ++ (b ∷ []))
          (values-set p.in_packets (stored old serial) endpoint (queued p) fresh) new

  after-IsQueue :
      (old : InPacket) (serial : ℕ)
      → length old.payload ≡ max_payload_size_ep
      → IsQueue (after old serial)
  after-IsQueue old serial h = record {
    packets = length-set p.in_packets (addr_to_index endpoint) (stored old serial) ∙ v.packets;
    fifo = length-set p.in_ep_fifo p.nb_in_ep_fifo endpoint ∙ v.fifo;
    count = omega (arith, v);
    numbers =
        rw (after-queued old serial)
          (All-append HasNumber (queued p) (endpoint ∷ []) v.numbers (number, tt));
    payloads =
        All-set (λ (k : InPacket). length k.payload ≡ max_payload_size_ep) p.in_packets
          (addr_to_index endpoint) (stored old serial) v.payloads
          (rw (take-all (length buf) buf (omega arith))
            (length-write_at 0 buf old.payload (omega arith) ∙ h));
  }

  -- In a valid queue with room, data of at most 64 bytes of an endpoint that has a number, a serial
  -- endpoint and no packet in the queue goes to the end of the queue. The packets before it, the
  -- pending packet and the requests made are the same, and the queue stays valid.
  pub queue_in_packet-Queued :
      (serial : ℕ)
      → IsFresh endpoint (queued p)
      → read_table p.usb_to_serial endpoint ≡ some serial
      → Queued p endpoint buf serial (queue_in_packet endpoint buf (length buf) p)
  unfolding queue_in_packet
  queue_in_packet-Queued serial fresh mapped =
      let i = addr_to_index endpoint in
      let old = get_or p.in_packets i no_packet in
      let found = get_elem?-eq-get_or p.in_packets i no_packet index_in in
      let not_full : (p.nb_in_ep_fifo == max_endpoints) ≡ false = ground arith in
      rw (not_full, found, mapped, le→leb _ _ fits)
        (record {
          state = after old serial;
          returns = refl;
          appends = after-values old serial fresh;
          order = after-queued old serial;
          same_pending = refl;
          same_log = refl;
          valid = after-IsQueue old serial (
              All-get (λ (k : InPacket). length k.payload ≡ max_payload_size_ep) p.in_packets i old
                v.payloads found);
        })

-- A full queue refuses the packet, and nothing changes.
pub queue_in_packet-full :
    (endpoint : ℕ) (buf : List ℕ) (n : ℕ) (p : Proxy)
    → p.nb_in_ep_fifo ≡ max_endpoints
    → queue_in_packet endpoint buf n p ≡ some (p, minus_one)
unfolding queue_in_packet
queue_in_packet-full endpoint buf n p e = ground arith
