-- ===== src/Gasync/Usb/Tests.antt =====
-- A libusb that answers every request, with the transfers in flight as its world, and a table with one
-- opened device.
use serialusb.Common.{
  ℕ, zero, suc, ◌<◌, ◌≡◌, ◌⊎◌, refl, sym, ◌∙◌, ap, inl, inr, true, false, Option, some, List, [],
  ◌∷◌, arith, map, set, replicate,
}
use serialusb.Common.Int.{pos}
use serialusb.Gasync.Usb.{
  Usb, UsbDevice, Transfer, TransferStatus, completed, cancelled, stall, usb_device_at,
  no_usb_device, no_endpoint,
}
use serialusb.Gasync.Usb.Calls.{Libusb}
use serialusb.Gasync.Usb.Transfers.{
  is_listed, unlisted, submit_transfer, usb_callback, filled_transfer, gusb_poll, gusb_write,
}
use serialusb.Gasync.Usb.Transfers.Pending.{IsUsb, count_of, added-IsUsb}
use serialusb.Gasync.Usb.Transfers.Starting.{Polled, added, gusb_poll-Polled}
use serialusb.Gasync.Usb.Transfers.Writing.{Written, gusb_write-Written}
use serialusb.Gasync.Usb.Transfers.Ending.{IsSound, EndsSound, usb_callback-EndsSound}
use serialusb.Gasync.Usb.Events.{run_callbacks, drain}
use serialusb.Gasync.Usb.Events.Draining.{Round, Drained, drain-Drained}

abbrev end_cancelled : Transfer → Transfer
end_cancelled t = record t { status = cancelled }

abbrev pub libusb : Libusb ℕ
libusb = record {
  W = List Transfer;
  allocate = λ w. (w, true);
  uninitialised = λ n w. replicate n 0;
  alloc_transfer = λ w. (w, some 7);
  free_transfer = λ a w. w;
  submit = λ t w. (t ∷ w, pos 0);
  cancel_transfer = λ a w. w;
  interrupt_transfer = λ h e buf count timeout w. (w, pos 0, pos count, buf);
  control_transfer = λ h t r v i n timeout w. (w, some (replicate 4 1));
  handle_events = λ w. ([], map end_cancelled w, pos 0);
  pollfds = λ w. (w, pos 3 ∷ []);
  register = λ fd device w. (w, pos 0);
  call_read = λ cb user e bs status u w. (u, w);
  call_write = λ cb user e status u w. (u, w);
  call_close = λ cb user u w. (u, w, pos 1);
}

-- A device with an IN and an OUT endpoint of the interrupt type, with packets of 8 bytes.
abbrev mouse : UsbDevice ℕ
mouse = record no_usb_device {
  devh = some 1;
  ins = set (replicate 15 no_endpoint) 0 (record { type = 3; size = 8 });
  outs = set (replicate 15 no_endpoint) 1 (record { type = 3; size = 8 });
  fp_read = some 0;
  fp_write = some 0;
}

abbrev usb : Usb ℕ
usb = record { devices = mouse ∷ replicate 255 no_usb_device; transfers = [] }

no_devices_pending :
    (n i : ℕ) → (usb_device_at {Cb = ℕ} (replicate n no_usb_device) i).pending_transfers ≡ pos 0
no_devices_pending zero i = refl
no_devices_pending (suc n) zero = refl
no_devices_pending (suc n) (suc i) = no_devices_pending n i

usb-IsUsb : IsUsb usb
usb-IsUsb = record { size = refl; counted = counted }
  where
    counted : (i : ℕ) → i < 256 → (usb_device_at usb.devices i).pending_transfers ≡ pos 0
    counted zero h = refl
    counted (suc i) h = no_devices_pending 255 i

-- A read of the endpoint, as it is submitted and as it is cancelled.
abbrev poll_transfer : Transfer
poll_transfer = filled_transfer 7 0 129 3 0 (replicate 8 0)

abbrev polling : Usb ℕ
polling = added poll_transfer usb

polling-IsUsb : IsUsb polling
polling-IsUsb = added-IsUsb usb poll_transfer usb-IsUsb (omega arith)

poll_test : (gusb_poll libusb (pos 0) 129 usb []).0 ≡ polling
unfolding gusb_poll submit_transfer
poll_test = refl

none_listed : (a : ℕ) → is_listed a [] ≡ false
unfolding is_listed
none_listed a = refl

gusb_poll-Polled_example : Polled libusb (pos 0) 129 usb (gusb_poll libusb (pos 0) 129 usb [])
gusb_poll-Polled_example = gusb_poll-Polled libusb usb (λ w a h. none_listed a) (pos 0) 129 []

gusb_write-Written_example :
    Written libusb usb (pos 0) 2 (5 ∷ 6 ∷ []) (gusb_write libusb (pos 0) 2 (5 ∷ 6 ∷ []) 2 usb [])
gusb_write-Written_example =
    gusb_write-Written libusb usb (pos 0) 2 (5 ∷ 6 ∷ []) (λ w a h. none_listed a) [] refl
      (omega arith)

polling-IsSound : IsSound libusb 7 0 polling
polling-IsSound = record { usb = polling-IsUsb; own = ((λ h. refl), tt) }

usb_callback-EndsSound_example :
    EndsSound libusb poll_transfer polling [] (usb_callback libusb poll_transfer polling [])
usb_callback-EndsSound_example =
    usb_callback-EndsSound libusb poll_transfer (omega arith) (λ cb user e bs status u w v. v)
      (λ cb user e status u w v. v) polling [] 0 0 refl refl polling-IsSound

option_pair :
    {A B : Type 0} {a c : A} {b d : B}
    → ◌≡◌ {A = Option (A × B)} (some (a, b)) (some (c, d))
    → (a ≡ c) × (b ≡ d)
option_pair {A} {B} {a} {c} {b} {d} e =
    let same : ◌≡◌ {A = A × B} (a, b) (c, d) = cc in
    (ap (λ (x : A × B). x.0) same, ap (λ (x : A × B). x.1) same)

-- The transfer is in flight, or none is.
abbrev Known : Usb ℕ → List Transfer → Type 0
Known u w = ((u ≡ polling) × (w ≡ (poll_transfer ∷ []))) ⊎ ((u.transfers ≡ []) × (w ≡ []))

cancelled-Round :
    (u : Usb ℕ) (w : List Transfer) → Known u w → 0 < count_of 0 u.transfers → Round libusb 0 u w
unfolding is_listed
cancelled-Round u w (inl (e, f)) h =
    rw (e, f)
      (record {
        first = end_cancelled poll_transfer;
        others = [];
        reported = refl;
        success = refl;
        all_cancelled =
            (record { status = refl; in_table = omega arith; own = ((λ h. refl), tt) }, tt);
        of_device = refl;
        listed = refl;
      })
cancelled-Round u w (inr (e, f)) h =
    let none_left : count_of 0 u.transfers ≡ 0 = rw e refl in absurd (omega arith)

cancelled_after :
    (u u' : Usb ℕ) (w w' : List Transfer)
    → Known u w
    → run_callbacks libusb (libusb.handle_events w).1 u (libusb.handle_events w).0 ≡ some (u', w')
    → Known u' w'
unfolding run_callbacks usb_callback unlisted serialusb.Gasync.Usb.Transfers.remove_transfer
    is_listed serialusb.Gasync.Usb.usbasync_check_device
cancelled_after u u' w w' (inl (e, f)) h =
    let run = rw (e, f) at h in
    let (tables, world) : (usb ≡ u') × ([] ≡ w') = option_pair run in
    inr (ap (λ (x : Usb ℕ). x.transfers) (sym tables), sym world)
cancelled_after u u' w w' (inr (e, f)) h =
    let run = rw f at h in
    let (tables, world) : (u ≡ u') × ([] ≡ w') = option_pair run in
    inr (ap (λ (x : Usb ℕ). x.transfers) (sym tables) ∙ e, sym world)

drain-Drained_example : Drained libusb 0 (drain libusb 2 0 polling (poll_transfer ∷ []))
drain-Drained_example =
    drain-Drained libusb 0 (omega arith) Known cancelled-Round cancelled_after 2 polling
      (poll_transfer ∷ []) polling-IsUsb (inl (refl, refl)) (omega arith)
