-- ===== src/Proxy/Selection.antt =====
-- `proxy_init` of sw/proxy.c over gusb.c: the device that has been selected is opened, its descriptors
-- are checked, and its endpoints are entered in the tables. What `usb_select` returns is an argument.
mod Ready
use serialusb.Common.{
  ℕ, Bool, true, false, Option, none, some, List, [], ◌∷◌, ◌++◌, if◌then◌else◌, ◌==◌, get_or,
  get_elem?, take, ◌>>=◌, ◌≡◌, refl, inl, inr, Bool-cases, Option-cases,
}
use serialusb.Common.Int.{ℤ, pos, minus_one, is_neg}
use serialusb.Gasync.Usb.{
  Usb, UsbDescriptors, Configuration, Interface, AltInterface, EndpointDescriptor,
}
use serialusb.Gasync.Usb.Opening.{Bus, gusb_get_usb_descriptors}
use serialusb.Gasync.Usb.Finding.{gusb_open_path}
use serialusb.Proxy.State.{Proxy}
use serialusb.Proxy.Endpoints.{fix_endpoints}

-- `descriptors->device.bNumConfigurations`, the last byte of the device descriptor.
abbrev pub b_num_configurations : UsbDescriptors → ℕ
b_num_configurations d = get_or d.device 17 0

-- The endpoint descriptors of a configuration, in the order of the loops of `fix_endpoints`; `none` is
-- an access through a NULL descriptor.
unfoldable pub alt_endpoints : List AltInterface → List EndpointDescriptor
alt_endpoints [] = []
alt_endpoints (a ∷ alts) = take a.b_num_endpoints a.endpoints ++ alt_endpoints alts

unfoldable pub interface_endpoints : List Interface → List EndpointDescriptor
unfolding alt_endpoints
interface_endpoints [] = []
interface_endpoints (i ∷ is) =
    alt_endpoints (take i.b_num_alt_interfaces i.alt_interfaces) ++ interface_endpoints is

unfoldable pub endpoints_of : List Configuration → Option (List (List EndpointDescriptor))
unfolding interface_endpoints
endpoints_of [] = some []
endpoints_of (c ∷ cs) = do
  d ← c.descriptor
  rest ← endpoints_of cs
  some (interface_endpoints (take d.b_num_interfaces c.interfaces) ∷ rest)

-- The three checks: a configuration, an interface and an alternate setting.
unfoldable pub has_alt_interface : UsbDescriptors → Option Bool
has_alt_interface d = if b_num_configurations d == 0 then some false else do
  c ← get_elem? d.configurations 0
  h ← c.descriptor
  if h.b_num_interfaces == 0
      then some false
      else (get_elem? c.interfaces 0 >>= λ i.
          some (if i.b_num_alt_interfaces == 0 then false else true))

-- What `proxy_init` leaves: the variable `usb`, the tables of gusb.c, the state of libusb, the endpoint
-- descriptors as `fix_endpoints` changes them in place, the other variables, and the result.
pub record Initialised (Cb : Type 0) (W : Type 0) : Type 0 where
  pub usb : ℤ
  pub devices : Usb Cb
  pub world : W
  pub changed : List (List EndpointDescriptor)
  pub proxy : Proxy
  pub ret : ℤ

module _ {Cb : Type 0} (bus : Bus Cb) where
  open bus use {libusb}
  open libusb use {W}

  -- From the descriptors on.
  unfoldable pub check_descriptors :
      ℤ → Usb Cb → W → Proxy → UsbDescriptors → Option (Initialised Cb W)
  unfolding has_alt_interface endpoints_of fix_endpoints
  check_descriptors usb u w p d = do
    good ← has_alt_interface d
    if good
        then (do
          ess ← endpoints_of (take (b_num_configurations d) d.configurations)
          (changed, q) ← fix_endpoints ess p
          some (record {
            usb = usb;
            devices = u;
            world = w;
            changed = changed;
            proxy = q;
            ret = pos 0;
          }))
        else some
            (record { usb = usb; devices = u; world = w; changed = []; proxy = p; ret = minus_one })

  unfoldable pub proxy_init : ℕ → Option (List ℕ) → Usb Cb → W → Proxy → Option (Initialised Cb W)
  unfolding gusb_open_path gusb_get_usb_descriptors check_descriptors
  proxy_init fuel none u w p =
      some (record {
        usb = minus_one;
        devices = u;
        world = w;
        changed = [];
        proxy = p;
        ret = minus_one;
      })
  proxy_init fuel (some path) u w p = gusb_open_path bus fuel (some path) u w >>= λ (u', w', usb).
      if is_neg usb
      then some
          (record { usb = usb; devices = u'; world = w'; changed = []; proxy = p; ret = minus_one })
      else elim (gusb_get_usb_descriptors usb u') [
        | none ↦ some (record {
          usb = usb;
          devices = u';
          world = w';
          changed = [];
          proxy = p;
          ret = minus_one;
        })
        | some d ↦ check_descriptors usb u' w' p d
      ]
