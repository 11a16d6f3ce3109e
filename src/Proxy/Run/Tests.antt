-- ===== src/Proxy/Run/Tests.antt =====
-- `proxy_start` with requests that all succeed, when the firmware is ready in the first turn of the
-- loop, and the proxy is stopped in it.
use serialusb.Common.{List, [], ◌∷◌, some, true}
use serialusb.Common.Int.{ℤ, pos, minus_one}
use serialusb.Proxy.State.{Proxy, Request}
use serialusb.Proxy.Descriptors.{DeviceDescriptors}
use serialusb.Proxy.Run.{Events}
use serialusb.Proxy.Run.Outcome.{Outcome}

abbrev answer : List Request → Request → ℤ
answer log r = pos 0

abbrev events : Events
events = record {
  gpoll = λ p. some (record p { done = true; init_timer = minus_one });
  gusb_close = λ p. some p;
}

abbrev device : DeviceDescriptors
device = record {
  device = 18 ∷ 1 ∷ [];
  lang_id_0 = 4 ∷ 3 ∷ 9 ∷ 4 ∷ [];
  configurations = (9 ∷ 2 ∷ []) ∷ [];
  others = [];
}
