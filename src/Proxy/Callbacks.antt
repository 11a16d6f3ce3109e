-- ===== src/Proxy/Callbacks.antt =====
-- The callbacks of sw/proxy.c that the USB layer, the adapter and the timers call.
use serialusb.Common.{
  ℕ, Bool, true, false, Option, some, List, [], if◌then◌else◌, ltb, ◌==◌, take, ◌>>=◌,
}
use serialusb.Common.Int.{ℤ, pos, negsuc, minus_one, is_neg}
use serialusb.Protocol.{
  max_packet_value_size, max_payload_size_ep, e_type_control, e_type_control_stall,
}
use serialusb.Proxy.State.{Proxy, Request, send, request}
use serialusb.Proxy.Fifo.{send_next_in_packet, queue_in_packet}

-- `done = 1; return -1;`
abbrev pub give_up : Proxy → Proxy × ℤ
give_up p = (record p { done = true }, minus_one)

-- The result of a call whose failure ends the proxy.
abbrev pub or_give_up : Proxy × ℤ → Proxy × ℤ
or_give_up (p, ret) = if is_neg ret then give_up p else (p, pos 0)

-- `e_transfer_status`
abbrev pub e_transfer_timed_out : ℤ
e_transfer_timed_out = negsuc 0

abbrev pub e_transfer_stall : ℤ
e_transfer_stall = negsuc 1

abbrev pub e_transfer_error : ℤ
e_transfer_error = negsuc 2

abbrev pub eq_ℤ : ℤ → ℤ → Bool
eq_ℤ (pos a) (pos b) = a == b
eq_ℤ (negsuc a) (negsuc b) = a == b
eq_ℤ _ _ = false

module _ (answer : List Request → Request → ℤ) where
  -- The reply to a control transfer: the data, or a stall.
  unfoldable pub control_reply : List ℕ → ℤ → Proxy → Proxy × ℤ
  control_reply buf (negsuc n) p =
      let (p', ret) = request answer (send e_type_control_stall []) p in
      (p', if is_neg ret then minus_one else pos 0)
  control_reply buf (pos n) p =
      if ltb max_packet_value_size n
      then give_up p
      else (let (p', ret) = request answer (send e_type_control (take n buf)) p in
          (p', if is_neg ret then minus_one else pos 0))

  -- The data of an interrupt IN endpoint.
  unfoldable pub in_data : ℕ → List ℕ → ℤ → Proxy → Option (Proxy × ℤ)
  in_data endpoint buf (negsuc n) p = some (p, pos 0)
  in_data endpoint buf (pos n) p = if ltb max_payload_size_ep n then some (give_up p) else do
    (q, ret) ← queue_in_packet endpoint buf n p
    if is_neg ret
        then some (give_up q)
        else (send_next_in_packet answer q >>= λ r. some (or_give_up r))

  unfoldable pub usb_read_callback : ℕ → List ℕ → ℤ → Proxy → Option (Proxy × ℤ)
  unfolding control_reply in_data
  usb_read_callback endpoint buf status p =
      if eq_ℤ status e_transfer_error
      then some (p, minus_one)
      else (if endpoint == 0
          then some (control_reply buf status p)
          else in_data endpoint buf status p)

  unfoldable pub usb_write_callback : ℕ → ℤ → Proxy → Proxy × ℤ
  usb_write_callback endpoint status p =
      if eq_ℤ status e_transfer_timed_out
      then (p, pos 0)
      else (if eq_ℤ status e_transfer_error
          then (p, minus_one)
          else (if endpoint == 0
              then or_give_up (
                  request answer
                    (send
                      (if eq_ℤ status e_transfer_stall
                        then e_type_control_stall
                        else e_type_control)
                      [])
                    p)
              else (p, pos 0)))

unfoldable pub usb_close_callback : Proxy → Proxy × ℤ
usb_close_callback p = (record p { done = true }, pos 1)

unfoldable pub adapter_send_callback : ℤ → Proxy → Proxy × ℤ
adapter_send_callback transfered p =
    if is_neg transfered then (record p { done = true }, pos 1) else (p, pos 0)

unfoldable pub adapter_close_callback : Proxy → Proxy × ℤ
adapter_close_callback p = (record p { done = true }, pos 1)

unfoldable pub timer_close : Proxy → Proxy × ℤ
timer_close p = (record p { done = true }, pos 1)

unfoldable pub timer_read : Proxy → Proxy × ℤ
timer_read p = (p, pos 1)

unfoldable pub proxy_stop : Proxy → Proxy
proxy_stop p = record p { done = true }
