-- ===== src/Proxy/Endpoints/Tests.antt =====
-- A device with one interrupt endpoint of each direction, 0x81 and 0x02, and a second configuration.
use serialusb.Common.{arith, refl, [], ◌∷◌}
use serialusb.Proxy.State.{initial}
use serialusb.Proxy.Endpoints.{fix_endpoints}
use serialusb.Gasync.Usb.{EndpointDescriptor}
use serialusb.Proxy.Endpoints.Whole.{Routes, fix_endpoints-Routes}

abbrev input : EndpointDescriptor
input = record { b_endpoint_address = 129; bm_attributes = 3; w_max_packet_size = 8 }

abbrev output : EndpointDescriptor
output = record { b_endpoint_address = 2; bm_attributes = 3; w_max_packet_size = 8 }

fix_endpoints-Routes_example :
    Routes (fix_endpoints ((input ∷ output ∷ []) ∷ (input ∷ []) ∷ []) initial)
fix_endpoints-Routes_example =
    fix_endpoints-Routes (input ∷ output ∷ []) ((input ∷ []) ∷ []) initial
      ((omega arith, omega arith), ((omega arith, omega arith), tt))
      (((omega arith, omega arith), tt), tt) (omega arith) refl refl
