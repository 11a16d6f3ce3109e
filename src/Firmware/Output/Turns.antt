-- ===== src/Firmware/Output/Turns.antt =====
-- The turns of the OUT endpoints of the firmware, and what is sent of their data.
use native.Mathlib.Nat.{mod-lt, mod-eq_of_lt, mod_self, mod-add-mod}
use serialusb.Common.{
  ℕ, suc, ◌+◌, ◌%◌, ◌≤◌, ◌<◌, ◌≡◌, refl, sym, ap, ◌∙◌, subst, true, false, Option, none, some,
  ◌>>=◌, List, [], ◌∷◌, ◌++◌, arith, ltb, ◌==◌, length, take, length-take, Bool-cases, inl, inr,
}
use serialusb.Protocol.{e_type_out, max_payload_size_ep, packet, EndpointConfig}
use serialusb.Firmware.{Firmware, endpoint_entry}
use serialusb.Firmware.Output.{OutState, out_length, selected, advance, receive_next_output}

-- What a call does. Without an OUT endpoint, nothing. Else the turn passes on, and what is sent is the
-- data of the endpoint whose turn it was, or nothing if it has received nothing or has no data.
pub data Output (ask : EndpointConfig → OutState) (f : Firmware) (out : Option Firmware)
    : Type 0 where
  without : f.out_endpoint_number ≡ 0 → out ≡ some f → Output ask f out
  silent :
      0 < f.out_endpoint_number
      → (ask (selected f)).received ≡ false
      → out ≡ some (advance f)
      → Output ask f out
  empty :
      0 < f.out_endpoint_number
      → (ask (selected f)).received ≡ true
      → out_length (selected f) (ask (selected f)) ≡ 0
      → out ≡ some (advance f)
      → Output ask f out
  passed :
      (data_bytes : List ℕ)
      → 0 < f.out_endpoint_number
      → (ask (selected f)).received ≡ true
      → length data_bytes ≡ out_length (selected f) (ask (selected f))
      → 0 < length data_bytes
      → data_bytes ≡ take (out_length (selected f) (ask (selected f))) (ask (selected f)).bytes
      → out
        ≡ some (record (advance f) {
          sent =
              f.sent
              ++ packet e_type_out (length data_bytes + 1) ((selected f).number ∷ data_bytes);
        })
      → Output ask f out
  overrun :
      0 < f.out_endpoint_number
      → (ask (selected f)).received ≡ true
      → max_payload_size_ep < out_length (selected f) (ask (selected f))
      → out ≡ none
      → Output ask f out

advance-turn :
    (f : Firmware)
    → f.selected_out_endpoint < f.out_endpoint_number
    → (advance f).selected_out_endpoint ≡ (f.selected_out_endpoint + 1) % f.out_endpoint_number
unfolding advance
advance-turn f h = elim (Bool-cases (f.selected_out_endpoint + 1 == f.out_endpoint_number)) [
  | inl last ↦
      let e : f.selected_out_endpoint + 1 ≡ f.out_endpoint_number = ground arith in
      rw (last, e) (sym (mod_self f.out_endpoint_number))
  | inr more ↦ rw more (sym (mod-eq_of_lt (ground arith)))
]

advance-number : (f : Firmware) → (advance f).out_endpoint_number ≡ f.out_endpoint_number
unfolding advance
advance-number f = refl

advance-endpoints : (f : Firmware) → (advance f).endpoints ≡ f.endpoints
unfolding advance
advance-endpoints f = refl

-- Whatever an endpoint holds, if it is at most 64 bytes, a call passes the turn on.
receive_next_output-turn :
    (ask : EndpointConfig → OutState) (f : Firmware)
    → f.selected_out_endpoint < f.out_endpoint_number
    → out_length (selected f) (ask (selected f)) ≤ max_payload_size_ep
    → (g : Firmware) × (receive_next_output ask f ≡ some g)
      × (g.selected_out_endpoint ≡ (f.selected_out_endpoint + 1) % f.out_endpoint_number)
      × (g.out_endpoint_number ≡ f.out_endpoint_number)
      × (g.endpoints ≡ f.endpoints)
unfolding receive_next_output
receive_next_output-turn ask f h small =
    let n = out_length (selected f) (ask (selected f)) in
    let some_endpoint : ltb 0 f.out_endpoint_number ≡ true = ground arith in
    let fits : ltb max_payload_size_ep n ≡ false = ground arith in
    let t = advance-turn f h in
    rw some_endpoint (elim (Bool-cases (ask (selected f)).received) [
      | inr none_there ↦ rw none_there (advance f, refl, t, advance-number f, advance-endpoints f)
      | inl got ↦
          rw (got, fits)
            (elim (Bool-cases (n == 0)) [
              | inl nothing ↦ rw nothing (advance f, refl, t, advance-number f, advance-endpoints f)
              | inr full ↦ rw full (_, refl, t, advance-number f, advance-endpoints f)
            ])
    ])

-- Every outcome of a call, if an endpoint that has data holds as many bytes as are passed on. Without an
-- OUT endpoint nothing changes. Else, unless more than 64 bytes are read, past the end of the packet's
-- buffer, the turn passes on; and if the endpoint whose turn it was has received data, exactly these are
-- sent, as one packet with the number of the endpoint, and nothing is sent if it has none.
pub receive_next_output-Output :
    (ask : EndpointConfig → OutState) (f : Firmware)
    → out_length (selected f) (ask (selected f)) ≤ length (ask (selected f)).bytes
    → Output ask f (receive_next_output ask f)
unfolding receive_next_output advance
receive_next_output-Output ask f enough =
    let e = selected f in
    let n = out_length e (ask e) in
    let m : length (take n (ask e).bytes) ≡ n = omega (arith, length-take n (ask e).bytes) in
    elim (Bool-cases (ltb 0 f.out_endpoint_number)) [
      | inr alone ↦ rw alone (without (ground arith) refl)
      | inl nonempty ↦
          let some_endpoint : 0 < f.out_endpoint_number = ground arith in
          rw nonempty (elim (Bool-cases (ask e).received) [
            | inr none_there ↦ rw none_there (silent some_endpoint none_there refl)
            | inl got ↦ rw got (elim (Bool-cases (ltb max_payload_size_ep n)) [
              | inl long ↦ rw long (overrun some_endpoint got (ground arith) refl)
              | inr fits ↦ rw fits (elim (Bool-cases (n == 0)) [
                | inl nothing ↦ rw nothing (empty some_endpoint got (ground arith) refl)
                | inr full ↦
                    let w : (n + 1) % 256 ≡ length (take n (ask e).bytes) + 1 = ground arith in
                    rw full (
                      passed (take n (ask e).bytes) some_endpoint got m (ground arith) refl (
                        ap
                          (λ l. some (record (advance f) {
                            sent = f.sent ++ (e_type_out ∷ l ∷ e.number ∷ take n (ask e).bytes);
                          }))
                          w))
              ])
            ])
          ])
    ]

-- The main loop calls `receive_next_output` again and again.
unfoldable pub receive_all : List (EndpointConfig → OutState) → Firmware → Option Firmware
receive_all [] f = some f
receive_all (ask ∷ asks) f = receive_next_output ask f >>= λ g. receive_all asks g

-- No read that fails has processed more than 64 bytes.
abbrev pub AreShort : List (EndpointConfig → OutState) → Type 0
AreShort [] = Unit
AreShort (ask ∷ asks) =
    ((e : EndpointConfig) → (ask e).processed ≤ max_payload_size_ep) × AreShort asks

-- No endpoint of the table has a size of more than 64 bytes.
abbrev pub HasSmallSizes : Firmware → Type 0
HasSmallSizes f = (i : ℕ) → (endpoint_entry f.endpoints i).size ≤ max_payload_size_ep

out_length-small :
    (e : EndpointConfig) (o : OutState)
    → e.size ≤ max_payload_size_ep
    → o.processed ≤ max_payload_size_ep
    → out_length e o ≤ max_payload_size_ep
unfolding out_length
out_length-small e o h k = ground arith

-- If the turn is that of one of the OUT endpoints, and neither the sizes of the endpoints nor what a
-- failed read has processed is more than 64 bytes, then any number of calls returns, and after them the
-- turn has moved on by that number, in the circle of the OUT endpoints: no endpoint is passed over,
-- whatever the others hold.
pub receive_all-turn :
    (asks : List (EndpointConfig → OutState)) (f : Firmware)
    → f.selected_out_endpoint < f.out_endpoint_number
    → HasSmallSizes f
    → AreShort asks
    → (g : Firmware) × (receive_all asks f ≡ some g)
      × (g.selected_out_endpoint ≡ (f.selected_out_endpoint + length asks) % f.out_endpoint_number)
unfolding receive_all
receive_all-turn [] f h sizes short =
    let e : f.selected_out_endpoint + 0 ≡ f.selected_out_endpoint = omega arith in
    (f, refl, rw e (sym (mod-eq_of_lt h)))
receive_all-turn (ask ∷ asks) f h sizes short =
    let small = out_length-small (selected f) (ask (selected f)) (sizes _) (short.0 (selected f)) in
    let (g, r, t, n, same) = receive_next_output-turn ask f h small in
    let h' : g.selected_out_endpoint < g.out_endpoint_number =
      rw (t, n) (mod-lt (f.selected_out_endpoint + 1) (omega arith)) in
    let e : f.selected_out_endpoint + 1 + length asks
        ≡ f.selected_out_endpoint + suc (length asks) =
      omega arith in
    let sizes' : HasSmallSizes g =
      λ i. subst (λ bs. (endpoint_entry bs i).size ≤ max_payload_size_ep) (sym same) (sizes i) in
    let (last, s, u) = receive_all-turn asks g h' sizes' short.1 in
    (
      last,
      rw r s,
      u
          ∙ rw
              (
                t,
                n,
                mod-add-mod (f.selected_out_endpoint + 1) f.out_endpoint_number (length asks),
                e,
              )
              refl,
    )
