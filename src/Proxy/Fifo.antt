-- ===== src/Proxy/Fifo.antt =====
-- The queue of IN packets of sw/proxy.c: `send_next_in_packet` and `queue_in_packet`.
pub mod Queue
pub mod Order
pub mod Sending
use serialusb.Common.{
  ℕ, ◌+◌, ◌-◌, Bool, true, false, Option, none, some, List, [], ◌∷◌, if◌then◌else◌, ltb, leb, ◌==◌,
  get_elem?, set, take, drop, length, write_at, inside, ◌>>=◌, ◌>>◌,
}
use serialusb.Common.Int.{ℤ, pos, minus_one, is_neg}
use serialusb.Protocol.{max_endpoints, max_payload_size_ep, e_type_in}
use serialusb.Proxy.State.{Proxy, InPacket, Request, send, request, addr_to_index, read_table}

-- The first queued packet has been sent: it is pending, and the queue moves up (`memmove`).
abbrev pub shifted : ℕ → Proxy → Proxy
shifted endpoint p = record p {
  in_pending = endpoint;
  nb_in_ep_fifo = p.nb_in_ep_fifo - 1;
  in_ep_fifo = write_at 0 (take (p.nb_in_ep_fifo - 1) (drop 1 p.in_ep_fifo)) p.in_ep_fifo;
}

-- The bytes of `inPackets[i].packet` that are sent.
abbrev pub packet_value : InPacket → List ℕ
packet_value k = take k.size (k.endpoint ∷ k.payload)

module _ (answer : List Request → Request → ℤ) where
  unfoldable pub send_first : Proxy → Option (Proxy × ℤ)
  send_first p = do
    endpoint ← get_elem? p.in_ep_fifo 0
    k ← get_elem? p.in_packets (addr_to_index endpoint)
    let (p', ret) = request answer (send e_type_in (packet_value k)) p
    some (if is_neg ret then (p', minus_one) else (shifted endpoint p', pos 0))

  unfoldable pub send_next_in_packet : Proxy → Option (Proxy × ℤ)
  unfolding send_first
  send_next_in_packet p =
      if p.in_pending == 0
      then (if ltb 0 p.nb_in_ep_fifo then send_first p else some (p, pos 0))
      else some (p, pos 0)

-- `none` is a write outside `inPackets` or outside the payload of its entry.
unfoldable pub queue_in_packet : ℕ → List ℕ → ℕ → Proxy → Option (Proxy × ℤ)
queue_in_packet endpoint buf transfered p =
    if p.nb_in_ep_fifo == max_endpoints then some (p, minus_one) else do
      old ← get_elem? p.in_packets (addr_to_index endpoint)
      serial ← read_table p.usb_to_serial endpoint
      inside (leb transfered max_payload_size_ep)
      some (
        record p {
          in_packets = set p.in_packets (addr_to_index endpoint) (record {
            size = transfered + 1;
            endpoint = serial;
            payload = write_at 0 (take transfered buf) old.payload;
          });
          in_ep_fifo = set p.in_ep_fifo p.nb_in_ep_fifo endpoint;
          nb_in_ep_fifo = p.nb_in_ep_fifo + 1;
        },
        pos 0,
      )
