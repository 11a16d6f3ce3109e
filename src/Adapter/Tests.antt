-- ===== src/Adapter/Tests.antt =====
-- sw/adapter.c on a concrete serial line, which records what is written to it, what the callback has
-- been given and the size of the next read.
use serialusb.Common.{
  arith, ℕ, ◌+◌, refl, List, [], ◌∷◌, ◌++◌, some, length, get_or, take, set, replicate,
}
use serialusb.Common.Int.{ℤ, pos}
use serialusb.Adapter.{
  Adapter, Table, free_adapter, adapter_check, remaining, deliver, resume, recv_bytes, put_back,
  adapter_recv, adapter_send, adapter_open,
}
use serialusb.Adapter.Line.{Serial}
use serialusb.Adapter.Recv.{Received, recv_bytes-Received, IsReceiving}
use serialusb.Adapter.Stream.{Delivered, IsListening, FitsAsked, recv_all, adapter_recv-packets}
use serialusb.Adapter.Send.{Sent, adapter_send-Sent}
use serialusb.Adapter.Failure.{Wrote, adapter_send-Wrote}
use serialusb.Adapter.Open.{Opened, adapter_open-Opened}

record World : Type 0 where
  written : List (List ℕ)
  given : List (List ℕ)
  asked : ℕ

abbrev quiet : World
quiet = record { written = []; given = []; asked = 2 }

abbrev line : Serial
line = record {
  W = World;
  open_port = λ path baudrate w. (w, pos 5);
  close_port = λ s w. (w, pos 0);
  register = λ s user w. (w, pos 0);
  write = λ s bs w. (record w { written = w.written ++ (bs ∷ []) }, pos (length bs));
  set_read_size = λ s n w. (record w { asked = n }, pos 0);
  sent = λ s w. w.written;
  IsOpen = λ s w. Unit {0};
  write-IsOpen = λ s bs w o. tt;
  sent-write = λ s bs w o. refl;
}

-- The client is known by the number 9, and keeps the packets that it is given.
abbrev call : ℕ → ℕ → List ℕ → World → World × ℤ
call cb i p w = (record w { given = w.given ++ (take (2 + get_or p 1 0) p ∷ []) }, pos 0)

abbrev client : Adapter ℕ
client = record { packet = replicate 256 0; bread = 0; serial = pos 5; fp_packet_cb = some 9 }

-- Entry 1 is the client's, and the others are free.
abbrev table : Table ℕ
table = set (replicate 7 free_adapter) 1 client

client-IsReceiving : IsReceiving 9 client []
client-IsReceiving = record {
  room = refl;
  count = refl;
  bytes = refl;
  callback = refl;
  serial = refl;
}

table-IsListening : IsListening 9 table 1 []
table-IsListening = record { in_table = omega arith; size = refl; receiving = client-IsReceiving }

abbrev fragments : List (List ℕ)
fragments = (4 ∷ 1 ∷ []) ∷ (7 ∷ []) ∷ (6 ∷ []) ∷ (0 ∷ []) ∷ []

fragments-FitsAsked : FitsAsked line (λ w. w.asked) call table 1 fragments quiet
unfolding FitsAsked adapter_recv adapter_check recv_bytes resume deliver remaining put_back
fragments-FitsAsked = (omega arith, (omega arith, (omega arith, (omega arith, tt))))

adapter_recv-packets_example :
    Delivered line call 9
      (λ w. w.given)
      (λ w. w.asked)
      (λ i p w. refl)
      (λ s n w. refl)
      (λ s n w. refl)
      table
      1
      quiet
      ((4 ∷ 1 ∷ 7 ∷ []) ∷ (6 ∷ 0 ∷ []) ∷ [])
      (recv_all line call table 1 fragments quiet)
adapter_recv-packets_example =
    adapter_recv-packets line call 9 (λ w. w.given) (λ w. w.asked) (λ i p w. refl) (λ s n w. refl)
      (λ s n w. refl) fragments [] ((4 ∷ 1 ∷ 7 ∷ []) ∷ (6 ∷ 0 ∷ []) ∷ []) table 1 quiet
      table-IsListening ((omega arith, refl, omega arith), ((omega arith, refl, omega arith), tt))
      refl (omega arith) refl fragments-FitsAsked

recv_bytes-Received_example :
    Received line call 9
      (λ w. w.given)
      (λ w. w.asked)
      (λ i p w. refl)
      (λ s n w. refl)
      (λ s n w. refl)
      quiet
      (4 ∷ 1 ∷ [])
      (recv_bytes line call client 1 (4 ∷ 1 ∷ []) 2 quiet)
recv_bytes-Received_example =
    recv_bytes-Received line call 9 (λ w. w.given) (λ w. w.asked) (λ i p w. refl) (λ s n w. refl)
      (λ s n w. refl) 1 client [] (4 ∷ 1 ∷ []) quiet client-IsReceiving (omega arith) (omega arith)
      (λ h. omega arith)

adapter_send-Sent_example :
    Sent line
      (pos 5)
      4
      (7 ∷ 8 ∷ [])
      quiet
      (adapter_send line table (pos 1) 4 (some (7 ∷ 8 ∷ [])) 2 quiet)
adapter_send-Sent_example =
    adapter_send-Sent line table 1 4 (7 ∷ 8 ∷ []) quiet (omega arith) refl (λ bs v. refl) tt

adapter_send-Wrote_example :
    Wrote line
      (pos 5)
      4
      (7 ∷ 8 ∷ [])
      quiet
      (adapter_send line table (pos 1) 4 (some (7 ∷ 8 ∷ [])) 2 quiet)
adapter_send-Wrote_example =
    adapter_send-Wrote line table 1 4 (7 ∷ 8 ∷ []) quiet (omega arith) refl tt

adapter_open-Opened_example :
    Opened line table
      (116 ∷ 116 ∷ 121 ∷ [])
      9
      quiet
      (adapter_open line table (116 ∷ 116 ∷ 121 ∷ []) 9 quiet)
adapter_open-Opened_example = adapter_open-Opened line table (116 ∷ 116 ∷ 121 ∷ []) 9 quiet
