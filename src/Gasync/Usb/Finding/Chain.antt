-- ===== src/Gasync/Usb/Finding/Chain.antt =====
-- The array of an enumeration, walked by its `next` fields.
use serialusb.Common.{
  ℕ, ◌≡◌, refl, inl, inr, true, false, some, List, [], ◌∷◌, map, Bool-cases, Option-cases,
}
use serialusb.Gasync.Usb.Opening.{Bus, make_path}
use serialusb.Gasync.Usb.Finding.{
  UsbDev, with_next, is_wanted, free_from, gusb_free_enumeration, enumerate_from, gusb_enumerate,
}

-- Every entry but the last one says that another one follows.
unfoldable pub IsChain : List UsbDev → Type 0
IsChain [] = Unit
IsChain (d ∷ []) = d.next ≡ false
IsChain (d ∷ ds) = (d.next ≡ true) × IsChain ds

with_next-nonempty :
    (x : UsbDev) (xs : List UsbDev) (d : UsbDev)
    → (y : UsbDev) × (ys : List UsbDev) × (with_next (x ∷ xs) d ≡ (y ∷ ys))
with_next-nonempty x [] d = (_, _, refl)
with_next-nonempty x (y ∷ xs) d = (_, _, refl)

IsChain-cons :
    (d : UsbDev) (ds : List UsbDev) (y : UsbDev) (ys : List UsbDev)
    → ds ≡ (y ∷ ys)
    → d.next ≡ true
    → IsChain ds
    → IsChain (d ∷ ds)
unfolding IsChain
IsChain-cons d [] y ys e h c = cc
IsChain-cons d (x ∷ ds) y ys e h c = (h, c)

with_next-IsChain :
    (ds : List UsbDev) (d : UsbDev) → d.next ≡ false → IsChain ds → IsChain (with_next ds d)
unfolding IsChain
with_next-IsChain [] d h c = h
with_next-IsChain (x ∷ []) d h c = (refl, h)
with_next-IsChain (x ∷ y ∷ ds) d h c =
    let (z, zs, e) = with_next-nonempty y ds d in
    IsChain-cons x (with_next (y ∷ ds) d) z zs e c.0 (with_next-IsChain (y ∷ ds) d h c.1)

free_from-IsChain :
    (d : UsbDev) (ds : List UsbDev)
    → IsChain (d ∷ ds)
    → free_from (d ∷ ds) ≡ some (map (λ (x : UsbDev). x.path) (d ∷ ds))
unfolding free_from IsChain
free_from-IsChain d [] c = rw c refl
free_from-IsChain d (e ∷ ds) c = rw (c.0, free_from-IsChain e ds c.1) refl

gusb_free_enumeration-IsChain :
    (ds : List UsbDev)
    → IsChain ds
    → gusb_free_enumeration ds ≡ some (map (λ (x : UsbDev). x.path) ds)
unfolding gusb_free_enumeration IsChain
gusb_free_enumeration-IsChain [] c = refl
gusb_free_enumeration-IsChain (d ∷ ds) c = free_from-IsChain d ds c

module _ {Cb : Type 0} (bus : Bus Cb) where
  enumerate_from-IsChain :
      (vendor product : ℕ) (devs : List ℕ) (found : List UsbDev) (w : bus.libusb.W)
      → IsChain found
      → IsChain (enumerate_from bus vendor product devs found w).1
  unfolding enumerate_from
  enumerate_from-IsChain vendor product [] found w c = c
  enumerate_from-IsChain vendor product (dev ∷ devs) found w c =
      let again = enumerate_from-IsChain vendor product devs in
      let w1 = (bus.get_device_descriptor dev w).0 in
      let w2 = (bus.libusb.allocate w1).0 in
      let w3 = (bus.libusb.allocate w2).0 in
      elim (Option-cases (bus.get_device_descriptor dev w).1) [
        | inl e ↦ rw (enumerate_from, e) (again found w1 c)
        | inr (desc, e) ↦
            rw (enumerate_from, e)
              (elim (Bool-cases (is_wanted vendor product desc)) [
                | inr other ↦ rw other (again found w1 c)
                | inl wanted ↦ rw wanted (elim (Option-cases (make_path bus dev)) [
                  | inl f ↦ rw f (again found w1 c)
                  | inr (path, f) ↦ rw f (elim (Bool-cases (bus.libusb.allocate w1).1) [
                    | inr lost ↦ rw lost (again found w2 c)
                    | inl copied ↦ rw copied (elim (Bool-cases (bus.libusb.allocate w2).1) [
                      | inr full ↦ rw full (again found w3 c)
                      | inl grown ↦ rw grown (again _ w3 (with_next-IsChain found _ refl c))
                    ])
                  ])
                ])
              ])
      ]

  -- Freeing an enumeration stays within its array and frees the path of each of its entries, once
  -- each and in their order: the `next` fields that `gusb_enumerate` sets lead to the last entry and
  -- stop there, whatever devices are found and wherever memory fails.
  pub gusb_free_enumeration-gusb_enumerate :
      (vendor product : ℕ) (w : bus.libusb.W)
      → gusb_free_enumeration (gusb_enumerate bus vendor product w).1
        ≡ some (map (λ (x : UsbDev). x.path) (gusb_enumerate bus vendor product w).1)
  unfolding gusb_enumerate IsChain
  gusb_free_enumeration-gusb_enumerate vendor product w =
      let w1 = (bus.get_device_list w).0 in
      elim (Bool-cases (bus.ctx w)) [
        | inr closed ↦ rw closed (gusb_free_enumeration-IsChain [] tt)
        | inl open_context ↦ rw open_context (elim (Option-cases (bus.get_device_list w).1) [
          | inl e ↦ rw e (gusb_free_enumeration-IsChain [] tt)
          | inr (devs, e) ↦ rw e (
              gusb_free_enumeration-IsChain _ (enumerate_from-IsChain vendor product devs [] w1 tt))
        ])
      ]
