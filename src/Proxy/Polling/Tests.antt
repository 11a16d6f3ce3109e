-- ===== src/Proxy/Polling/Tests.antt =====
-- The reads of the IN endpoints 0x81 and 0x83 of a device, with the serial endpoints 0x82 and 0x84.
use serialusb.Common.{
  ℕ, ◌≡◌, ◌≤◌, refl, inl, inr, arith, Bool-cases, List, [], ◌∷◌, some, set, length, replicate,
  All-replicate, ◌==◌, ==_iff,
}
use serialusb.Common.Int.{ℤ, pos}
use serialusb.Protocol.{max_payload_size_ep, e_type_in}
use serialusb.Proxy.State.{Proxy, InPacket, Request, send, initial, cell, read_table}
use serialusb.Proxy.Fifo.{queue_in_packet, send_first, send_next_in_packet}
use serialusb.Proxy.Fifo.Queue.{IsQueue}
use serialusb.Proxy.Callbacks.{in_data}
use serialusb.Proxy.Delivery.{Extended}
use serialusb.Proxy.Polling.{data_read, stay, step}
use serialusb.Proxy.Polling.Tally.{tally, has_index}
use serialusb.Proxy.Polling.Reachable.{IsPolled, in_data-Steps}

abbrev answer : List Request → Request → ℤ
answer log r = pos 0

abbrev table : List ℕ
table = set (set (replicate 30 0) 15 130) 17 132

abbrev polling : Proxy
polling = record initial { usb_to_serial = table }

polling-IsQueue : IsQueue polling
polling-IsQueue = record {
  packets = refl;
  fifo = refl;
  count = omega arith;
  numbers = tt;
  payloads =
      All-replicate (λ (k : InPacket). length k.payload ≡ max_payload_size_ep) 15
        (record { size = 0; endpoint = 0; payload = replicate 64 0 }) refl;
}

-- The two endpoints have the numbers 1 and 3.
different : (k : ℕ) → tally (has_index k) (129 ∷ 131 ∷ []) ≤ 1
different k = elim (Bool-cases (0 == k)) [
  | inl e ↦ elim (Bool-cases (2 == k)) [
    | inl f ↦ absurd (let a = (==_iff 0 k).0 e in let b = (==_iff 2 k).0 f in omega arith)
    | inr f ↦ rw (e, f) (omega arith)
  ]
  | inr e ↦ elim (Bool-cases (2 == k)) [
    | inl f ↦ rw (e, f) (omega arith)
    | inr f ↦ rw (e, f) (omega arith)
  ]
]

two-IsPolled : IsPolled (129 ∷ 131 ∷ []) table
unfolding cell
two-IsPolled = record {
  few = omega arith;
  once = different;
  numbers = omega arith;
  mapped = omega arith;
}

-- The data of the endpoint 0x81 has been sent.
abbrev first_sent : Proxy
first_sent = record polling {
  in_packets =
      set polling.in_packets 0 (record { size = 2; endpoint = 130; payload = 7 ∷ replicate 63 0 });
  in_ep_fifo = 129 ∷ replicate 5 0;
  in_pending = 129;
  log = send e_type_in (130 ∷ 7 ∷ []) ∷ [];
}

first_read : in_data answer 129 (7 ∷ []) (pos 1) polling ≡ some (first_sent, pos 0)
unfolding in_data queue_in_packet send_next_in_packet send_first cell
first_read = refl

in_data-Steps_example :
    (serial : ℕ) × (read_table table 131 ≡ some serial)
    × Extended answer first_sent
        ((serial ∷ 8 ∷ 9 ∷ []) ∷ [])
        (in_data answer 131 (8 ∷ 9 ∷ []) (pos 2) first_sent)
in_data-Steps_example =
    in_data-Steps (129 ∷ 131 ∷ []) table two-IsPolled answer polling polling-IsQueue refl refl refl
      first_sent [] [] 131
      (step _ _ _ (stay _)
        (data_read [] (131 ∷ []) 129 (7 ∷ []) polling first_sent (omega arith) first_read))
      (8 ∷ 9 ∷ []) (omega arith)
