-- ===== src/Gasync/Usb/Events/Draining.antt =====
-- The `while` of `cancel_transfers`, and the rounds of events that it takes.
use serialusb.Common.{
  ℕ, zero, suc, ◌≤◌, ◌<◌, ◌≡◌, refl, sym, inl, inr, true, Option, some, List, [], ◌∷◌, ◌==◌, ==_iff,
  Bool-cases, arith, All,
}
use serialusb.Common.Int.{pos, is_nonzero}
use serialusb.Gasync.Usb.{Usb, Transfer, cancelled, usb_device_at, usbasync_max_devices}
use serialusb.Gasync.Usb.Calls.{Libusb}
use serialusb.Gasync.Usb.Transfers.{is_listed, unlisted, remove_transfer, usb_callback}
use serialusb.Gasync.Usb.Transfers.Pending.{IsUsb, IsOf, count_of, count_of-unlisted_self}
use serialusb.Gasync.Usb.Transfers.Ending.{remove_transfer-IsUsb, unlisted-IsOf}
use serialusb.Gasync.Usb.Events.{run_callbacks, drain}

count_of-unlisted_le : (a i : ℕ) (ts : List Transfer) → count_of i (unlisted a ts) ≤ count_of i ts
unfolding unlisted
count_of-unlisted_le a i [] = omega arith
count_of-unlisted_le a i (x ∷ ts) = elim (Bool-cases (x.address == a)) [
  | inl e ↦ rw e (elim (Bool-cases (x.user_data == i)) [
    | inl own ↦ rw own (omega arith)
    | inr other ↦ rw other (omega arith)
  ])
  | inr e ↦ rw e (elim (Bool-cases (x.user_data == i)) [
    | inl own ↦ rw own (omega (arith, count_of-unlisted_le a i ts))
    | inr other ↦ rw other (count_of-unlisted_le a i ts)
  ])
]

nonzero : (n : ℕ) → 0 < n → is_nonzero (pos n) ≡ true
nonzero zero h = absurd (omega arith)
nonzero (suc n) h = refl

module _ {Cb : Type 0} (sys : Libusb Cb) where
  -- A transfer that was cancelled, and that alone its device has at its address.
  pub record IsCancelled (u : Usb Cb) (t : Transfer) : Type 0 where
    pub status : t.status ≡ cancelled
    pub in_table : t.user_data < usbasync_max_devices
    pub own : IsOf t.address t.user_data u.transfers

  -- The callbacks of cancelled transfers remove them, and call nothing.
  cancelled-removes :
      (t : Transfer) (u : Usb Cb) (w : sys.W)
      → t.status ≡ cancelled
      → usb_callback sys t u w ≡ some (remove_transfer sys t u w)
  unfolding usb_callback
  cancelled-removes t u w e =
      rw e
        (elim (Bool-cases
          (serialusb.Gasync.Usb.usbasync_check_device u.devices (pos t.user_data))) [
            | inl valid ↦ rw valid refl
            | inr gone ↦ rw gone refl
          ])

  removed_le :
      (t : Transfer) (u : Usb Cb) (w : sys.W) (i : ℕ)
      → count_of i (remove_transfer sys t u w).0.transfers ≤ count_of i u.transfers
  unfolding remove_transfer
  removed_le t u w i = elim (Bool-cases (is_listed t.address u.transfers)) [
    | inl listed ↦ rw listed (count_of-unlisted_le t.address i u.transfers)
    | inr gone ↦ rw gone (omega arith)
  ]

  removed-IsOf :
      (t : Transfer) (u : Usb Cb) (w : sys.W) (b device : ℕ)
      → IsOf b device u.transfers
      → IsOf b device (remove_transfer sys t u w).0.transfers
  unfolding remove_transfer
  removed-IsOf t u w b device c = elim (Bool-cases (is_listed t.address u.transfers)) [
    | inl listed ↦ rw listed (unlisted-IsOf t.address b device u.transfers c)
    | inr gone ↦ rw gone c
  ]

  removed-IsCancelled :
      (t : Transfer) (u : Usb Cb) (w : sys.W) (ts : List Transfer)
      → All (IsCancelled u) ts
      → All (IsCancelled (remove_transfer sys t u w).0) ts
  removed-IsCancelled t u w [] c = tt
  removed-IsCancelled t u w (x ∷ ts) c = (
    record {
      status = c.0.status;
      in_table = c.0.in_table;
      own = removed-IsOf t u w x.address x.user_data c.0.own;
    },
    removed-IsCancelled t u w ts c.1,
  )

  -- What a round of cancelled transfers leaves: the counts right, and none of them grown.
  pub record Removed (u : Usb Cb) (out : Option (Usb Cb × sys.W)) : Type 0 where
    pub tables : Usb Cb
    pub world : sys.W
    pub returns : out ≡ some (tables, world)
    pub usb : IsUsb tables
    pub fewer : (i : ℕ) → count_of i tables.transfers ≤ count_of i u.transfers

  run_callbacks-Removed :
      (ts : List Transfer) (u : Usb Cb) (w : sys.W)
      → IsUsb u
      → All (IsCancelled u) ts
      → Removed u (run_callbacks sys ts u w)
  unfolding run_callbacks
  run_callbacks-Removed [] u w v c = record {
    tables = u;
    world = w;
    returns = refl;
    usb = v;
    fewer = λ i. omega arith;
  }
  run_callbacks-Removed (t ∷ ts) u w v c =
      let (u', w') = remove_transfer sys t u w in
      let v' = remove_transfer-IsUsb sys t u w c.0.in_table (record { usb = v; own = c.0.own }) in
      let rest = run_callbacks-Removed ts u' w' v' (removed-IsCancelled t u w ts c.1) in
      record {
        tables = rest.tables;
        world = rest.world;
        returns = rw (cancelled-removes t u w c.0.status) rest.returns;
        usb = rest.usb;
        fewer = λ i. omega (arith, rest.fewer i, removed_le t u w i);
      }

  -- What a call of `libusb_handle_events` reports: some cancelled transfers, the first one of the
  -- device.
  pub record Round (device : ℕ) (u : Usb Cb) (w : sys.W) : Type 0 where
    pub first : Transfer
    pub others : List Transfer
    pub reported : (sys.handle_events w).1 ≡ first ∷ others
    pub success : (sys.handle_events w).2 ≡ pos 0
    pub all_cancelled : All (IsCancelled u) (first ∷ others)
    pub of_device : first.user_data ≡ device
    pub listed : is_listed first.address u.transfers ≡ true

  -- Such a round returns, with fewer transfers of the device.
  goes_down :
      (device : ℕ) (u : Usb Cb) (w : sys.W) (r : Round device u w)
      → IsUsb u
      → (rest : Removed u (run_callbacks sys (sys.handle_events w).1 u (sys.handle_events w).0))
        × (count_of device rest.tables.transfers < count_of device u.transfers)
  unfolding run_callbacks remove_transfer
  goes_down device u w r v =
      let w0 = (sys.handle_events w).0 in
      let (u', w') = remove_transfer sys r.first u w0 in
      let c = r.all_cancelled in
      let v' =
        remove_transfer-IsUsb sys r.first u w0 c.0.in_table (record { usb = v; own = c.0.own }) in
      let rest =
        run_callbacks-Removed r.others u' w' v' (removed-IsCancelled r.first u w0 r.others c.1) in
      let less : count_of device u.transfers ≡ suc (count_of device u'.transfers) =
        rw (r.listed, sym r.of_device)
          (count_of-unlisted_self r.first.address r.first.user_data u.transfers r.listed c.0.own) in
      (
        record {
          tables = rest.tables;
          world = rest.world;
          returns = rw (r.reported, cancelled-removes r.first u w0 c.0.status) rest.returns;
          usb = rest.usb;
          fewer = λ i. omega (arith, rest.fewer i, removed_le r.first u w0 i);
        },
        omega (arith, rest.fewer device, less),
      )

  -- The loop returns with the counts right and no transfer of the device left.
  pub record Drained (device : ℕ) (out : Option (Usb Cb × sys.W)) : Type 0 where
    pub tables : Usb Cb
    pub world : sys.W
    pub returns : out ≡ some (tables, world)
    pub usb : IsUsb tables
    pub none_left : count_of device tables.transfers ≡ 0

  module _ (device : ℕ) (in_table : device < usbasync_max_devices) (Known : Usb Cb → sys.W → Type 0)
      (events : (u : Usb Cb) (w : sys.W)
        → Known u w
        → 0 < count_of device u.transfers
        → Round device u w)
      (known_after : (u u' : Usb Cb) (w w' : sys.W)
        → Known u w
        → run_callbacks sys (sys.handle_events w).1 u (sys.handle_events w).0 ≡ some (u', w')
        → Known u' w') where
    -- If, as long as the device has pending transfers, each call of `libusb_handle_events` succeeds
    -- and reports cancelled transfers, the first one of the device, then on more fuel than the device
    -- has transfers the loop of `cancel_transfers` returns, with the counts right and no transfer of
    -- the device left in the table.
    pub drain-Drained :
        (fuel : ℕ) (u : Usb Cb) (w : sys.W)
        → IsUsb u
        → Known u w
        → count_of device u.transfers < fuel
        → Drained device (drain sys fuel device u w)
    unfolding drain serialusb.Gasync.Usb.Events.gusb_handle_events
    drain-Drained zero u w v k h = absurd (omega arith)
    drain-Drained (suc fuel) u w v k h =
        let pending = v.counted device in_table in
        elim (Bool-cases (count_of device u.transfers == 0)) [
          | inl e ↦
              let empty = (==_iff (count_of device u.transfers) 0).0 e in
              rw (pending, empty)
                (record { tables = u; world = w; returns = refl; usb = v; none_left = empty })
          | inr e ↦
              let some_left : 0 < count_of device u.transfers = ground arith in
              let r = events u w k some_left in
              let (m, less) = goes_down device u w r v in
              let rest =
                drain-Drained fuel m.tables m.world m.usb
                  (known_after u m.tables w m.world k m.returns) (omega arith) in
              rw (pending, nonzero (count_of device u.transfers) some_left, m.returns, r.success)
                rest
        ]
