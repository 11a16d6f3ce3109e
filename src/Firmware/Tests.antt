-- ===== src/Firmware/Tests.antt =====
-- fw/emu.c from power-on, and after a short start-up.
use serialusb.Common.{
  ℕ, zero, suc, All, All-replicate, get_or, arith, ◌+◌, ◌*◌, ◌%◌, ◌≡◌, refl, List, [], ◌∷◌, ◌++◌,
  some, replicate, concat, true, map, ◌≤◌,
}
use serialusb.Protocol.{max_payload_size_ep, DescriptorIndex, EndpointConfig, index_bytes, packet}
use serialusb.Adapter.Send.{packets}
use serialusb.Firmware.{Firmware, booted, endpoint_entry, interrupts, callback_usb_get_descriptor}
use serialusb.Firmware.Receive.{
  descriptors_region, filled, configured, acks_of, interrupts-filled, interrupts-configured,
}
use serialusb.Firmware.Lookup.{lookup_entry, callback_usb_get_descriptor-lookup}
use serialusb.Firmware.Control.{ControlRequest, event_usb_device_unhandled_control_request}
use serialusb.Firmware.Control.Framing.{Forwarded, control_request-Forwarded}
use serialusb.Firmware.Output.{OutState, out_length, selected, receive_next_output}
use serialusb.Firmware.Output.Turns.{
  Output, HasSmallSizes, receive_all, receive_next_output-Output, receive_all-turn,
}

interrupts-filled_example :
    interrupts 3 (concat (packets 0 ((18 ∷ 1 ∷ []) ∷ (9 ∷ []) ∷ [])) ++ []) booted
    ≡ interrupts 1 [] (
        filled descriptors_region
          (concat ((18 ∷ 1 ∷ []) ∷ (9 ∷ []) ∷ []))
          (acks_of 0 ((18 ∷ 1 ∷ []) ∷ (9 ∷ []) ∷ []))
          booted)
interrupts-filled_example =
    interrupts-filled descriptors_region ((18 ∷ 1 ∷ []) ∷ (9 ∷ []) ∷ []) [] 1 booted (omega arith)

interrupts-configured_example :
    interrupts 4
      (concat (packets 0 ((18 ∷ 1 ∷ []) ∷ []))
        ++ (concat (packets 1 ((0 ∷ 0 ∷ 0 ∷ 1 ∷ 0 ∷ 0 ∷ 2 ∷ 0 ∷ []) ∷ []))
            ++ packet 2 3 (129 ∷ 3 ∷ 8 ∷ [])))
      booted
    ≡ some (
        configured
          ((18 ∷ 1 ∷ []) ∷ [])
          ((0 ∷ 0 ∷ 0 ∷ 1 ∷ 0 ∷ 0 ∷ 2 ∷ 0 ∷ []) ∷ [])
          (129 ∷ 3 ∷ 8 ∷ [])
          booted)
interrupts-configured_example =
    interrupts-configured ((18 ∷ 1 ∷ []) ∷ []) ((0 ∷ 0 ∷ 0 ∷ 1 ∷ 0 ∷ 0 ∷ 2 ∷ 0 ∷ []) ∷ [])
      (129 ∷ 3 ∷ 8 ∷ []) booted (omega arith) (omega arith) (omega arith)

abbrev entries : List DescriptorIndex
entries =
    record { offset = 0; w_value = 256; w_index = 0; w_length = 18 }
    ∷ record { offset = 18; w_value = 769; w_index = 1033; w_length = 4 }
    ∷ []

abbrev indexed : Firmware
indexed = record booted { desc_index = concat (map index_bytes entries) ++ replicate 240 0 }

callback_usb_get_descriptor-lookup_example :
    callback_usb_get_descriptor 769 1033 indexed ≡ lookup_entry 769 1033 entries
callback_usb_get_descriptor-lookup_example =
    callback_usb_get_descriptor-lookup entries 769 1033 (replicate 240 0) indexed (omega arith)
      (
        record {
          offset = omega arith;
          value = omega arith;
          index = omega arith;
          size = omega arith;
          marked = omega arith;
        },
        (
          record {
            offset = omega arith;
            value = omega arith;
            index = omega arith;
            size = omega arith;
            marked = omega arith;
          },
          tt,
        ),
      )
      refl refl refl

-- SET_REPORT with two bytes.
abbrev set_report : ControlRequest
set_report = record {
  setup = 33 ∷ 9 ∷ 0 ∷ 2 ∷ 0 ∷ 0 ∷ 2 ∷ 0 ∷ [];
  bm_request_type = 33;
  w_length = 2;
}

abbrev replied : Firmware → Firmware
replied f = record f { control_reply = true }

control_request-Forwarded_example :
    Forwarded set_report
      (5 ∷ 6 ∷ [])
      replied
      booted
      (event_usb_device_unhandled_control_request set_report (some (5 ∷ 6 ∷ [])) replied booted)
control_request-Forwarded_example =
    control_request-Forwarded set_report (5 ∷ 6 ∷ []) replied booted refl (omega arith) refl

-- Two OUT endpoints, 1 and 2, of 8 bytes.
abbrev two_outputs : Firmware
two_outputs = record booted {
  endpoints = 1 ∷ 3 ∷ 8 ∷ 2 ∷ 3 ∷ 8 ∷ replicate 12 0;
  out_endpoints = 0 ∷ 1 ∷ replicate 4 0;
  out_endpoint_number = 2;
}

abbrev ask : EndpointConfig → OutState
ask e = record {
  received = true;
  allowed = true;
  no_error = true;
  bytes = replicate 8 e.number;
  processed = 8;
}

bytes_of_output : out_length (selected two_outputs) (ask (selected two_outputs)) ≤ 8
unfolding out_length endpoint_entry
bytes_of_output = omega arith

receive_next_output-Output_example : Output ask two_outputs (receive_next_output ask two_outputs)
receive_next_output-Output_example = receive_next_output-Output ask two_outputs bytes_of_output

get_or-small : (xs : List ℕ) (i : ℕ) → All (λ x. x ≤ max_payload_size_ep) xs → get_or xs i 0 ≤ 64
get_or-small [] i h = omega arith
get_or-small (x ∷ xs) zero h = h.0
get_or-small (x ∷ xs) (suc i) h = get_or-small xs i h.1

two_outputs-HasSmallSizes : HasSmallSizes two_outputs
unfolding endpoint_entry
two_outputs-HasSmallSizes i =
    get_or-small two_outputs.endpoints (3 * i + 2) (
      omega arith,
      (omega arith, (omega arith, (omega arith, (omega arith, (omega arith, zeros))))),
    )
  where
    zeros : All (λ x. x ≤ max_payload_size_ep) (replicate 12 0)
    zeros = All-replicate (λ x. x ≤ max_payload_size_ep) 12 0 (omega arith)

receive_all-turn_example :
    (g : Firmware) × (receive_all (ask ∷ ask ∷ ask ∷ []) two_outputs ≡ some g)
    × (g.selected_out_endpoint ≡ (0 + 3) % 2)
receive_all-turn_example =
    receive_all-turn (ask ∷ ask ∷ ask ∷ []) two_outputs (omega arith) two_outputs-HasSmallSizes
      ((λ e. omega arith), ((λ e. omega arith), ((λ e. omega arith), tt)))
