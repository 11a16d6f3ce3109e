-- ===== src/Proxy/Dispatch.antt =====
-- `process_packet` of sw/proxy.c, which the adapter calls for each packet of the firmware, and the
-- functions that it dispatches to.
use serialusb.Common.{
  ℕ, zero, suc, ◌+◌, ◌-◌, ◌%◌, ◌^◌, Bool, true, ◌&&◌, not, Option, some, List, [], map,
  if◌then◌else◌, ltb, ◌==◌, get_or, drop, concat, write_at, ◌>>=◌,
}
use serialusb.Common.Int.{ℤ, pos, minus_one, is_neg, is_minus_one}
use serialusb.Common.Bytes.{le16, from_le16}
use serialusb.Protocol.{
  e_type_descriptors, e_type_index, e_type_endpoints, e_type_reset, e_type_control,
  e_type_control_stall, e_type_in, e_type_out, index_bytes, endpoint_bytes,
}
use serialusb.Proxy.State.{
  Proxy, Request, send, poll, write, close_timer, request, read_table, endpoint_max_number,
}
use serialusb.Proxy.Fifo.{send_next_in_packet}

module _ (answer : List Request → Request → ℤ) where
  unfoldable pub send_index : Proxy → Proxy × ℤ
  send_index p =
      if p.desc_index_sent
      then (p, pos 0)
      else request answer (send e_type_index (concat (map index_bytes p.desc_index)))
          (record p { desc_index_sent = true })

  unfoldable pub send_endpoints : Proxy → Proxy × ℤ
  send_endpoints p =
      if p.endpoints_sent
      then (p, pos 0)
      else request answer (send e_type_endpoints (concat (map endpoint_bytes p.endpoints)))
          (record p { endpoints_sent = true })

  -- The loop of `poll_all_endpoints` over the `n` indices from `i` on.
  unfoldable pub poll_from : ℕ → ℕ → Proxy → ℤ → Option (Proxy × ℤ)
  poll_from zero i p ret = some (p, ret)
  poll_from (suc n) i p ret =
      if is_neg ret
      then some (p, ret)
      else (read_table p.serial_to_usb (128 + i) >>= λ endpoint.
          let (q, r) = if endpoint == 0 then (p, ret) else request answer (poll endpoint) p in
          poll_from n (i + 1) q r)

  unfoldable pub poll_all_endpoints : Proxy → Option (Proxy × ℤ)
  unfolding poll_from
  poll_all_endpoints p = poll_from endpoint_max_number 0 p (pos 0)

  -- The last three take the bytes of the packet's `value`, and its `length`.
  unfoldable pub send_out_packet : List ℕ → ℕ → Proxy → Option (Proxy × ℤ)
  send_out_packet value len p = do
    usb_endpoint ← read_table p.serial_to_usb (get_or value 0 0)
    some (request answer (write usb_endpoint (drop 1 value) ((len + 2 ^ 32 - 1) % 2 ^ 32)) p)

  -- The setup with the serial endpoint of its `wIndex` replaced by the device's.
  unfoldable pub fix_setup : List ℕ → Proxy → Option (List ℕ)
  fix_setup value p =
      let w_index = from_le16 (get_or value 4 0) (get_or value 5 0) in
      if get_or value 0 0 % 32 == 2 && not (w_index == 0)
      then (read_table p.serial_to_usb w_index >>= λ e. some (write_at 4 (le16 e) value))
      else some value

  -- A GET_DESCRIPTOR of the device qualifier descriptor.
  abbrev pub is_qualifier : List ℕ → Bool
  is_qualifier value =
      (get_or value 0 0 == 128) && (get_or value 1 0 == 6) && (get_or value 3 0 == 6)

  unfoldable pub send_control_packet : List ℕ → ℕ → Proxy → Option (Proxy × ℤ)
  unfolding fix_setup
  send_control_packet value len p = do
    setup ← fix_setup value p
    some (
        request answer
          (if is_qualifier setup then send e_type_control_stall [] else write 0 setup len) p)

  -- The pending packet has been taken: its endpoint is polled again, and the next packet is sent.
  unfoldable pub acknowledged : Proxy → Option (Proxy × ℤ)
  acknowledged p =
      if ltb 0 p.in_pending
      then (let (q, ret) = request answer (poll p.in_pending) p in
          let q' = record q { in_pending = 0 } in
          if is_minus_one ret then some (q', ret) else send_next_in_packet answer q')
      else some (p, pos 0)

  unfoldable pub started : Proxy → Option (Proxy × ℤ)
  started p =
      poll_all_endpoints
        (record (request answer (close_timer p.init_timer) p).0 { init_timer = minus_one })

  -- The `switch` on the packet's type.
  unfoldable pub dispatch : ℕ → List ℕ → ℕ → Proxy → Option (Proxy × ℤ)
  unfolding send_index send_endpoints started acknowledged send_out_packet send_control_packet
  dispatch type value len p =
      if type == e_type_descriptors
      then some (send_index p)
      else (if type == e_type_index
          then some (send_endpoints p)
          else (if type == e_type_endpoints
              then started p
              else (if type == e_type_in
                  then acknowledged p
                  else (if type == e_type_out
                      then send_out_packet value len p
                      else (if type == e_type_control
                          then send_control_packet value len p
                          else some (p, if type == e_type_reset then minus_one else pos 0))))))

  unfoldable pub process_packet : List ℕ → Proxy → Option (Proxy × ℤ)
  unfolding dispatch
  process_packet packet p = do
    (q, ret) ← dispatch (get_or packet 0 0) (drop 2 packet) (get_or packet 1 0) p
    some (if is_neg ret then record q { done = true } else q, ret)
