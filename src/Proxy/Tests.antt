-- ===== src/Proxy/Tests.antt =====
-- sw/proxy.c with the IN endpoint 0x81 of the device mapped to the serial endpoint 0x82, and requests
-- that all succeed.
use serialusb.Common.{
  arith, ◌⊎◌, ◌≡◌, refl, List, [], ◌∷◌, ◌++◌, some, set, length, replicate, All-replicate,
}
use serialusb.Common.Int.{ℤ, pos, minus_one}
use serialusb.Protocol.{max_payload_size_ep}
use serialusb.Proxy.State.{Proxy, InPacket, Request, initial, cell, read_table}
use serialusb.Proxy.Fifo.{queue_in_packet, send_next_in_packet}
use serialusb.Proxy.Fifo.Queue.{IsQueue}
use serialusb.Proxy.Fifo.Order.{Queued, queue_in_packet-Queued}
use serialusb.Proxy.Fifo.Sending.{Next, send_next_in_packet-Next}
use serialusb.Proxy.Callbacks.{in_data}
use serialusb.Proxy.Dispatch.{acknowledged}
use serialusb.Proxy.Delivery.{Extended, in_data-Extended, acknowledged-Extended}
use serialusb.Proxy.Descriptors.{add_descriptor, add_all}
use serialusb.Gasync.Usb.{Descriptor}
use serialusb.Proxy.Descriptors.Index.{IsIndexed, add_descriptor-IsIndexed, add_all-IsIndexed}

abbrev answer : List Request → Request → ℤ
answer log r = pos 0

abbrev mapped : Proxy
mapped = record initial { usb_to_serial = set (replicate 30 0) 15 130 }

-- The endpoint has the place 15 of the table.
serial_of : read_table mapped.usb_to_serial 129 ≡ some 130
unfolding cell
serial_of = refl

mapped-IsQueue : IsQueue mapped
mapped-IsQueue = record {
  packets = refl;
  fifo = refl;
  count = omega arith;
  numbers = tt;
  payloads =
      All-replicate (λ (k : InPacket). length k.payload ≡ max_payload_size_ep) 15
        (record { size = 0; endpoint = 0; payload = replicate 64 0 }) refl;
}

queue_in_packet-Queued_example :
    Queued mapped 129 (7 ∷ 8 ∷ []) 130 (queue_in_packet 129 (7 ∷ 8 ∷ []) 2 mapped)
queue_in_packet-Queued_example =
    queue_in_packet-Queued mapped 129 (7 ∷ 8 ∷ []) mapped-IsQueue (omega arith) (omega arith)
      (omega arith) 130 tt serial_of

-- One packet waits in the queue.
abbrev waiting : Proxy
waiting = record mapped {
  in_packets =
      set mapped.in_packets 0
        (record { size = 3; endpoint = 130; payload = 7 ∷ 8 ∷ replicate 62 0 });
  in_ep_fifo = 129 ∷ replicate 5 0;
  nb_in_ep_fifo = 1;
}

waiting-IsQueue : IsQueue waiting
waiting-IsQueue = record {
  packets = refl;
  fifo = refl;
  count = omega arith;
  numbers = (omega arith, tt);
  payloads = (refl, mapped-IsQueue.payloads.1);
}

send_next_in_packet-Next_example : Next answer waiting (send_next_in_packet answer waiting)
send_next_in_packet-Next_example = send_next_in_packet-Next answer waiting waiting-IsQueue

in_data-Extended_example :
    Extended answer mapped
      ((130 ∷ 7 ∷ 8 ∷ []) ∷ [])
      (in_data answer 129 (7 ∷ 8 ∷ []) (pos 2) mapped)
in_data-Extended_example =
    in_data-Extended answer mapped mapped-IsQueue 129 (7 ∷ 8 ∷ []) 130 (omega arith) (omega arith)
      (omega arith) tt serial_of

-- The packet waits behind one that the firmware has taken.
abbrev pending : Proxy
pending = record waiting { in_pending = 130 }

pending-IsQueue : IsQueue pending
pending-IsQueue = record {
  packets = refl;
  fifo = refl;
  count = omega arith;
  numbers = (omega arith, tt);
  payloads = waiting-IsQueue.payloads;
}

acknowledged-Extended_example : Extended answer pending [] (acknowledged answer pending)
acknowledged-Extended_example = acknowledged-Extended answer pending pending-IsQueue

abbrev device : Descriptor
device = record { w_value = 256; w_index = 0; bytes = 18 ∷ 1 ∷ [] }

initial-IsIndexed : IsIndexed [] initial
initial-IsIndexed = record { table = refl; index = refl; size = omega arith; count = omega arith }

add_all-IsIndexed_example :
    ((add_all (device ∷ []) initial).1 ≡ pos 0)
    × IsIndexed (device ∷ []) (add_all (device ∷ []) initial).0
add_all-IsIndexed_example =
    add_all-IsIndexed (device ∷ []) [] initial initial-IsIndexed
      (record { table = omega arith; count = omega arith })

add_descriptor-IsIndexed_example :
    ((add_descriptor device initial).1 ≡ pos 0)
      × IsIndexed ([] ++ (device ∷ [])) (add_descriptor device initial).0
    ⊎ (add_descriptor device initial ≡ (initial, minus_one))
add_descriptor-IsIndexed_example = add_descriptor-IsIndexed [] device initial initial-IsIndexed
