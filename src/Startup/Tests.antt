-- ===== src/Startup/Tests.antt =====
-- A start-up with one device descriptor of two bytes and one endpoint.
use serialusb.Common.{arith, ℕ, refl, List, [], ◌∷◌, ◌++◌, concat}
use serialusb.Protocol.{packet}
use serialusb.Adapter.Send.{packets}
use serialusb.Proxy.State.{Proxy, initial}
use serialusb.Gasync.Usb.{Descriptor}
use serialusb.Firmware.{booted, interrupts}
use serialusb.Startup.{Answers, startup-Answers}

abbrev device : Descriptor
device = record { w_value = 256; w_index = 0; bytes = 18 ∷ 1 ∷ [] }

abbrev index_value : List ℕ
index_value = 0 ∷ 0 ∷ 0 ∷ 1 ∷ 0 ∷ 0 ∷ 2 ∷ 0 ∷ []

abbrev proxy : Proxy
proxy = record initial {
  desc = 18 ∷ 1 ∷ [];
  desc_index = record { offset = 0; w_value = 256; w_index = 0; w_length = 2 } ∷ [];
}

startup-Answers_example : Answers (device ∷ []) (0 ∷ 0 ∷ 1 ∷ 0 ∷ 2 ∷ 0 ∷ []) (
    interrupts 4
      (concat (packets 0 ((18 ∷ 1 ∷ []) ∷ []))
        ++ (concat (packets 1 (index_value ∷ [])) ++ packet 2 3 (129 ∷ 3 ∷ 8 ∷ [])))
      booted)
startup-Answers_example =
    startup-Answers (device ∷ []) proxy
      (record { table = refl; index = refl; size = omega arith; count = omega arith })
      (
        record {
          offset = omega arith;
          value = omega arith;
          index = omega arith;
          size = omega arith;
          marked = omega arith;
        },
        tt,
      )
      ((18 ∷ 1 ∷ []) ∷ []) (index_value ∷ []) (129 ∷ 3 ∷ 8 ∷ [])
      (record { whole = refl; short = (omega arith, tt); count = refl })
      (record { whole = refl; short = (omega arith, tt); count = refl }) (omega arith)
