-- ===== src/Proxy/Selection/Ready.antt =====
-- The outcomes of `proxy_init`.
use serialusb.Common.{
  ℕ, true, Option, none, some, List, take, ◌≡◌, refl, ap, ◌∙◌, inl, inr, Bool-cases, Option-cases,
}
use serialusb.Common.Int.{ℤ, pos, minus_one, is_neg}
use serialusb.Gasync.Usb.{Usb, UsbDescriptors, EndpointDescriptor}
use serialusb.Gasync.Usb.Opening.{Bus, gusb_get_usb_descriptors}
use serialusb.Gasync.Usb.Finding.{gusb_open_path}
use serialusb.Proxy.State.{Proxy}
use serialusb.Proxy.Endpoints.{fix_endpoints}
use serialusb.Proxy.Selection.{
  b_num_configurations, endpoints_of, has_alt_interface, Initialised, check_descriptors, proxy_init,
}

module _ {Cb : Type 0} (bus : Bus Cb) where
  open bus use {libusb}
  open libusb use {W}

  -- Nothing has changed in the proxy and the result is -1; or the result is 0, and the endpoints of the
  -- descriptors, which have an alternate setting, are entered.
  data Ready (p : Proxy) (out : Option (Initialised Cb W)) : Type 0 where
    wrong : out ≡ none → Ready p out
    refused : (i : Initialised Cb W) → out ≡ some i → i.proxy ≡ p → i.ret ≡ minus_one → Ready p out
    fixed :
        (i : Initialised Cb W) (d : UsbDescriptors) (ess : List (List EndpointDescriptor))
        → out ≡ some i
        → gusb_get_usb_descriptors i.usb i.devices ≡ some d
        → has_alt_interface d ≡ some true
        → endpoints_of (take (b_num_configurations d) d.configurations) ≡ some ess
        → fix_endpoints ess p ≡ some (i.changed, i.proxy)
        → i.ret ≡ pos 0
        → Ready p out

  check_descriptors-Ready :
      (usb : ℤ) (u : Usb Cb) (w : W) (p : Proxy) (d : UsbDescriptors)
      → gusb_get_usb_descriptors usb u ≡ some d
      → Ready p (check_descriptors bus usb u w p d)
  unfolding check_descriptors
  check_descriptors-Ready usb u w p d h = elim (Option-cases (has_alt_interface d)) [
    | inl e ↦ rw e (wrong refl)
    | inr (good, e) ↦ rw e (elim (Bool-cases good) [
      | inr bad ↦ rw bad (refused _ refl refl refl)
      | inl enough ↦
          rw enough
            (elim (Option-cases (endpoints_of (take (b_num_configurations d) d.configurations))) [
              | inl f ↦ rw f (wrong refl)
              | inr (ess, f) ↦ rw f (elim (Option-cases (fix_endpoints ess p)) [
                | inl g ↦ rw g (wrong refl)
                | inr ((changed, q), g) ↦ rw g (fixed _ d ess refl h (e ∙ ap some enough) f g refl)
              ])
            ])
    ])
  ]

  proxy_init-Ready :
      (fuel : ℕ) (choice : Option (List ℕ)) (u : Usb Cb) (w : W) (p : Proxy)
      → Ready p (proxy_init bus fuel choice u w p)
  unfolding proxy_init
  proxy_init-Ready fuel none u w p = refused _ refl refl refl
  proxy_init-Ready fuel (some path) u w p =
      elim (Option-cases (gusb_open_path bus fuel (some path) u w)) [
        | inl e ↦ rw e (wrong refl)
        | inr ((u', w', usb), e) ↦ rw e (elim (Bool-cases (is_neg usb)) [
          | inl bad ↦ rw bad (refused _ refl refl refl)
          | inr good ↦ rw good (elim (Option-cases (gusb_get_usb_descriptors usb u')) [
            | inl f ↦ rw f (refused _ refl refl refl)
            | inr (d, f) ↦ rw f (check_descriptors-Ready usb u' w' p d f)
          ])
        ])
      ]
