-- ===== src/Gasync/Usb/Walk/Refine.antt =====
-- The walk through the bytes of descriptors against what the descriptors add.
use serialusb.Common.{
  ℕ, zero, suc, ◌+◌, ◌-◌, ◌*◌, ◌<◌, ◌≤◌, ◌≡◌, refl, inl, inr, true, false, Option, none, some, List,
  [], ◌∷◌, ◌++◌, arith, Bool-cases, Option-cases, leb, ◌==◌, All, length, length-append,
  take-append, drop-append, append_assoc,
}
use serialusb.Common.Int.{ℤ, pos, minus_one}
use serialusb.Common.Bytes.{from_le16, from_le16-le16}
use serialusb.Gasync.Usb.{UsbDevice, Configuration, InterfaceDescriptor, EndpointDescriptor}
use serialusb.Gasync.Usb.Calls.{Libusb}
use serialusb.Gasync.Usb.Probe.{
  Probing, num_interfaces, alt_at, get_interface, interface_descriptor_at, endpoint_descriptor_at,
  add_descriptor,
}
use serialusb.Gasync.Usb.Walk.{
  probe_interface, probe_endpoint, probe_hid, read_report, probe_descriptor, probe_loop,
}
use serialusb.Gasync.Usb.Walk.Items.{
  Item, Report, interface, endpoint, hid, other, IsItem, item_bytes, item_type, items_bytes,
  report_bytes, item_entries, AreReadable, apply_item, apply_items, item_length, item_kind,
  item_nonempty,
}

length-report_bytes : (rs : List Report) → length (report_bytes rs) ≡ 3 * length rs
length-report_bytes [] = refl
length-report_bytes (r ∷ rs) = omega (arith, length-report_bytes rs)

module _ {Cb : Type 0} (sys : Libusb Cb) (memory : (w : sys.W) → (sys.allocate w).1 ≡ true)
    (answers : (h : Option ℕ) (type request value index size timeout : ℕ) (w : sys.W)
      → (bs : List ℕ) × ((sys.control_transfer h type request value index size timeout w).1
          ≡ some bs)) where
  -- With memory, and 4 bytes for each entry, reading the entries of a HID descriptor succeeds.
  pub record Reported (out : Option (UsbDevice Cb × sys.W × ℤ)) : Type 0 where
    pub device : UsbDevice Cb
    pub world : sys.W
    pub returns : out ≡ some (device, world, pos 0)

  read_report-Reported :
      (n : ℕ) (ptr : List ℕ) (number : ℕ) (d : UsbDevice Cb) (w : sys.W)
      → 4 * n ≤ length ptr
      → Reported (read_report sys n ptr number d w)
  unfolding read_report serialusb.Gasync.Usb.Walk.read_one add_descriptor
  read_report-Reported zero ptr number d w h = record { device = d; world = w; returns = refl }
  read_report-Reported (suc n) [] number d w h = absurd (omega arith)
  read_report-Reported (suc n) (a ∷ []) number d w h = absurd (omega arith)
  read_report-Reported (suc n) (a ∷ b ∷ []) number d w h = absurd (omega arith)
  read_report-Reported (suc n) (a ∷ b ∷ c ∷ []) number d w h = absurd (omega arith)
  read_report-Reported (suc n) (type ∷ pad ∷ lo ∷ hi ∷ ptr) number d w h =
      elim (Bool-cases (from_le16 lo hi == 0)) [
        | inl e ↦ rw e (read_report-Reported n ptr number d w (omega arith))
        | inr e ↦
            let w1 = (sys.allocate w).0 in
            let (bs, got) = answers d.devh 129 6 (type * 256) number (from_le16 lo hi) 1000 w1 in
            let w2 =
              (sys.control_transfer d.devh 129 6 (type * 256) number (from_le16 lo hi) 1000 w1).0 in
            rw (e, memory w, got, memory w2) (record { device = _; world = _; returns = refl })
      ]

  -- A descriptor is probed as it is meant: it adds to the configuration what it says, or is refused
  -- with -1.
  pub data ProbedItem (current : Option InterfaceDescriptor) (x : Item) (c : Configuration)
      : Option (Option InterfaceDescriptor × Probing sys × ℤ) → Type 0 where
    probed :
        {out : Option (Option InterfaceDescriptor × Probing sys × ℤ)}
        (current' : Option InterfaceDescriptor) (p : Probing sys)
        → out ≡ some (current', p, pos 0)
        → apply_item current x c ≡ some (current', p.conf)
        → ProbedItem current x c out
    refused_item :
        {out : Option (Option InterfaceDescriptor × Probing sys × ℤ)}
        (current' : Option InterfaceDescriptor) (p : Probing sys)
        → out ≡ some (current', p, minus_one)
        → apply_item current x c ≡ none
        → ProbedItem current x c out

  interface-ProbedItem :
      (current : Option InterfaceDescriptor) (i : InterfaceDescriptor) (n s q : ℕ) (rest : List ℕ)
      (p : Probing sys)
      → ProbedItem current
          (interface i n s q)
          p.conf
          (probe_descriptor sys 4 (item_bytes (interface i n s q) ++ rest) current p)
  unfolding probe_descriptor probe_interface interface_descriptor_at
  interface-ProbedItem current i n s q rest p =
      elim (Bool-cases (leb (num_interfaces p.conf) i.b_interface_number)) [
        | inl e ↦ rw e (refused_item (some i) p refl (rw e refl))
        | inr e ↦ rw (e, memory p.world) (probed (some i) _ refl (rw e refl))
      ]

  endpoint-ProbedItem :
      (current : Option InterfaceDescriptor) (e : EndpointDescriptor) (extra rest : List ℕ)
      (p : Probing sys)
      → IsItem (endpoint e extra)
      → ProbedItem current
          (endpoint e extra)
          p.conf
          (probe_descriptor sys 5 (item_bytes (endpoint e extra) ++ rest) current p)
  unfolding probe_descriptor probe_endpoint endpoint_descriptor_at
  endpoint-ProbedItem current e extra rest p h =
      let size = from_le16-le16 e.w_max_packet_size h in
      elim (Option-cases (get_interface current p.conf)) [
        | inl missing ↦ rw (probe_endpoint, missing) (refused_item current p refl (rw missing refl))
        | inr (na, found) ↦
            rw (probe_endpoint, found, memory p.world, size) (probed current _ refl (rw found refl))
      ]

  hid-ProbedItem :
      (current : Option InterfaceDescriptor) (a b c : ℕ) (rs : List Report) (rest : List ℕ)
      (p : Probing sys)
      → length rs ≤ length rest
      → ProbedItem current
          (hid a b c rs)
          p.conf
          (probe_descriptor sys 33 (item_bytes (hid a b c rs) ++ rest) current p)
  unfolding probe_descriptor probe_hid
  hid-ProbedItem current a b c rs rest p behind =
      elim (Option-cases (get_interface current p.conf)) [
        | inl missing ↦ rw (probe_hid, missing) (refused_item current p refl (rw missing refl))
        | inr (place, found) ↦
            let (n, m) = place in
            let e = (alt_at p.conf n m).descriptor.b_interface_class == 3 in
            rw (probe_hid, found)
              (elim (Bool-cases e) [
                | inr not_hid ↦ rw not_hid (probed current p refl (rw (found, not_hid) refl))
                | inl is_hid ↦
                    let number = (alt_at p.conf n m).descriptor.b_interface_number in
                    let r =
                      read_report-Reported (length rs) (report_bytes rs ++ rest) number p.device
                        p.world
                        (omega
                          (arith, length-append (report_bytes rs) rest, length-report_bytes rs)) in
                    let own =
                      take-append (item_bytes (hid a b c rs)) rest (6 + length (report_bytes rs))
                        (omega arith) in
                    rw (is_hid, r.returns, own) (probed current _ refl (rw (found, is_hid) refl))
              ])
      ]

  other-ProbedItem :
      (current : Option InterfaceDescriptor) (type : ℕ) (bs rest : List ℕ) (p : Probing sys)
      → IsItem (other type bs)
      → ProbedItem current
          (other type bs)
          p.conf
          (probe_descriptor sys type (item_bytes (other type bs) ++ rest) current p)
  unfolding probe_descriptor
  other-ProbedItem current type bs rest p h = rw (h.0, h.1, h.2) (probed current p refl refl)

  probe_descriptor-ProbedItem :
      (current : Option InterfaceDescriptor) (x : Item) (rest : List ℕ) (p : Probing sys)
      → IsItem x
      → item_entries x ≤ length rest
      → ProbedItem current x p.conf
          (probe_descriptor sys (item_type x) (item_bytes x ++ rest) current p)
  probe_descriptor-ProbedItem current (interface i n s q) rest p h behind =
      interface-ProbedItem current i n s q rest p
  probe_descriptor-ProbedItem current (endpoint e extra) rest p h behind =
      endpoint-ProbedItem current e extra rest p h
  probe_descriptor-ProbedItem current (hid a b c rs) rest p h behind =
      hid-ProbedItem current a b c rs rest p behind
  probe_descriptor-ProbedItem current (other type bs) rest p h behind =
      other-ProbedItem current type bs rest p h

  -- The walk returns: with what the descriptors add and 0, or refused with -1 if one of them is.
  pub data Walked (expected : Option Configuration) : Option (Probing sys × ℤ) → Type 0 where
    walked :
        {out : Option (Probing sys × ℤ)} (p : Probing sys)
        → expected ≡ some p.conf
        → out ≡ some (p, pos 0)
        → Walked expected out
    stopped :
        {out : Option (Probing sys × ℤ)} (p : Probing sys)
        → expected ≡ none
        → out ≡ some (p, minus_one)
        → Walked expected out

  -- If memory is found and the device answers, then on more fuel than there are descriptors the walk
  -- through the bytes of any interface, endpoint, HID and other descriptors returns: with what they add
  -- to the configuration and 0, or, if one of them is refused, with -1. The walk reads the entries of a
  -- HID descriptor past its end, one byte for each: these bytes have to stand behind it, in the next
  -- descriptors or in memory behind all of them; what they are changes the requests for report
  -- descriptors, but nothing of the configuration.
  pub probe_loop-Walked :
      (fuel : ℕ) (current : Option InterfaceDescriptor) (xs : List Item) (rest : List ℕ)
      (p : Probing sys)
      → All IsItem xs
      → AreReadable xs rest
      → length xs < fuel
      → Walked
          (apply_items current xs p.conf)
          (probe_loop sys fuel (length (items_bytes xs)) (items_bytes xs ++ rest) current p)
  unfolding probe_loop
  probe_loop-Walked zero current xs rest p h a f = absurd (omega arith)
  probe_loop-Walked (suc fuel) current [] rest p h a f = walked p refl refl
  probe_loop-Walked (suc fuel) current (x ∷ xs) rest p h a f =
      let b = item_bytes x in
      let bs = items_bytes xs in
      let split = length-append b bs in
      let more : (length (b ++ bs) == 0) ≡ false = ground (arith, split, item_nonempty x) in
      let here = append_assoc b bs rest in
      let left : length (b ++ bs) - length b ≡ length bs = omega (arith, split) in
      let next = drop-append b (bs ++ rest) (length b) refl in
      elim (probe_descriptor-ProbedItem current x (bs ++ rest) p h.0 a.0) [
        | refused_item current' p' e r ↦
            rw (more, here, item_length x (bs ++ rest), item_kind x (bs ++ rest), e, r)
              (stopped p' refl refl)
        | probed current' p' e r ↦
            rw (more, here, item_length x (bs ++ rest), item_kind x (bs ++ rest), e, r, left, next)
              (probe_loop-Walked fuel current' xs rest p' h.1 a.1 (omega arith))
      ]
