-- ===== src/Gasync/Usb/Probe/Frame.antt =====
-- The fields of a device that the reading of its descriptors leaves alone: all but the descriptors and
-- the table of endpoints.
use serialusb.Common.{
  ℕ, ◌≡◌, refl, ◌∙◌, inl, inr, Option, none, some, List, [], ◌==◌, ltb, Bool-cases, Option-cases,
  get_or, length, ◌>>=◌,
}
use serialusb.Gasync.Usb.{
  UsbDevice, EndpointDescriptor, no_descriptors, direction_of, address_of,
  default_string_buffer_size,
}
use serialusb.Gasync.Usb.Calls.{Libusb}
use serialusb.Gasync.Usb.Probe.{
  with_entry, add_descriptor, read_string, get_string_descriptor, optional_string,
}

-- The other fields.
abbrev pub frame : {Cb : Type 0} → UsbDevice Cb → UsbDevice Cb
frame d = record d { descriptors = no_descriptors; ins = []; outs = [] }

-- No result, or one whose device has the fields of `d`.
pub data Keeps {Cb X : Type 0} (view : X → UsbDevice Cb) (d : UsbDevice Cb)
    : Option X → Type 0 where
  nothing : {out : Option X} → out ≡ none → Keeps view d out
  keeps : {out : Option X} (x : X) → out ≡ some x → frame (view x) ≡ frame d → Keeps view d out

-- A chain of steps.
pub Keeps-chain :
    {Cb X Y : Type 0} (f : X → UsbDevice Cb) (g : Y → UsbDevice Cb) (d : UsbDevice Cb)
    (m : Option X) (k : X → Option Y)
    → Keeps f d m
    → ((x : X) → frame (f x) ≡ frame d → Keeps g d (k x))
    → Keeps g d (m >>= k)
Keeps-chain f g d m k (nothing e) h = nothing (rw e refl)
Keeps-chain f g d m k (keeps x e same) h = rw e (h x same)

-- A step that does not look at the device.
pub Keeps-any :
    {Cb X Y : Type 0} (g : Y → UsbDevice Cb) (d : UsbDevice Cb) (m : Option X) (k : X → Option Y)
    → ((x : X) → Keeps g d (k x))
    → Keeps g d (m >>= k)
Keeps-any g d none k h = nothing refl
Keeps-any g d (some x) k h = h x

-- A device that has the fields of another one.
pub Keeps-trans :
    {Cb X : Type 0} (f : X → UsbDevice Cb) (d e : UsbDevice Cb) (m : Option X)
    → Keeps f e m
    → frame e ≡ frame d
    → Keeps f d m
Keeps-trans f d e m (nothing p) h = nothing p
Keeps-trans f d e m (keeps x p same) h = keeps x p (same ∙ h)

pub frame-with_entry :
    {Cb : Type 0} (e : EndpointDescriptor) (d : UsbDevice Cb) → frame (with_entry e d) ≡ frame d
unfolding with_entry
frame-with_entry e d = elim (Bool-cases (address_of e.b_endpoint_address == 0)) [
  | inl none_there ↦ rw none_there refl
  | inr there ↦ rw there (elim (Bool-cases (direction_of e.b_endpoint_address == 1)) [
    | inl is_in ↦ rw is_in refl
    | inr is_out ↦ rw is_out refl
  ])
]

module _ {Cb : Type 0} (sys : Libusb Cb) where
  pub frame-add_descriptor :
      (v i : ℕ) (bs : List ℕ) (d : UsbDevice Cb) (w : sys.W)
      → frame (add_descriptor sys v i bs d w).0 ≡ frame d
  unfolding add_descriptor
  frame-add_descriptor v i bs d w = elim (Bool-cases (sys.allocate w).1) [
    | inl found ↦ rw found refl
    | inr full ↦ rw full refl
  ]

  frame-get_string_descriptor :
      (index : ℕ) (d : UsbDevice Cb) (w : sys.W)
      → frame (get_string_descriptor sys index d w).0 ≡ frame d
  unfolding get_string_descriptor
  frame-get_string_descriptor index d w =
      let w1 = (sys.allocate w).0 in
      let first = read_string sys index default_string_buffer_size d w1 in
      elim (Bool-cases (sys.allocate w).1) [
        | inr full ↦ rw full refl
        | inl found ↦ rw found (elim (Option-cases first.1) [
          | inl failed ↦ rw failed refl
          | inr (bs, got) ↦ rw got (elim (Bool-cases (ltb (length bs) (get_or bs 0 0))) [
            | inr whole ↦ rw whole (frame-add_descriptor _ _ bs d first.0)
            | inl short ↦ rw short (elim (Bool-cases (sys.allocate first.0).1) [
              | inr full ↦ rw full refl
              | inl again ↦
                  let second = read_string sys index (get_or bs 0 0) d (sys.allocate first.0).0 in
                  rw again (elim (Option-cases second.1) [
                    | inl failed ↦ rw failed refl
                    | inr (cs, more) ↦ rw more (frame-add_descriptor _ _ cs d second.0)
                  ])
            ])
          ])
        ])
      ]

  pub frame-optional_string :
      (index : ℕ) (d : UsbDevice Cb) (w : sys.W) → frame (optional_string sys index d w).0 ≡ frame d
  frame-optional_string index d w = elim (Bool-cases (index == 0)) [
    | inl none_there ↦ rw none_there refl
    | inr there ↦ rw there (frame-get_string_descriptor index d w)
  ]
