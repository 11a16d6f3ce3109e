-- ===== src/Gasync/Usb.antt =====
-- usb/gusb.c of sw/lib/gasync, with include/gusb.h: the structures, the table of opened devices and
-- the checks that the operations on it share. libusb, the memory and the user's callbacks are an
-- interface.
pub mod Calls
pub mod Transfers
pub mod Events
pub mod Probe
pub mod Walk
pub mod Reading
pub mod Opening
pub mod Finding
pub mod Tests
use serialusb.Common.{
  ℕ, ◌-◌, ◌/◌, ◌%◌, Bool, true, false, ◌||◌, not, Option, none, some, List, [], ◌∷◌, if◌then◌else◌,
  leb, ltb, ◌==◌, get_or, set, replicate,
}
use serialusb.Common.Int.{ℤ, pos, negsuc}

-- USBASYNC_MAX_DEVICES
abbrev pub usbasync_max_devices : ℕ
usbasync_max_devices = 256

-- USBASYNC_OUT_TIMEOUT
abbrev pub usbasync_out_timeout : ℕ
usbasync_out_timeout = 20

-- USBASYNC_DEFAULT_TIMEOUT
abbrev pub usbasync_default_timeout : ℕ
usbasync_default_timeout = 1000

-- DEFAULT_STRING_BUFFER_SIZE
abbrev pub default_string_buffer_size : ℕ
default_string_buffer_size = 255

-- (endpoint & LIBUSB_ENDPOINT_DIR_MASK) >> 7: 1 is LIBUSB_ENDPOINT_IN, 0 is LIBUSB_ENDPOINT_OUT.
abbrev pub direction_of : ℕ → ℕ
direction_of endpoint = endpoint / 128 % 2

-- endpoint & LIBUSB_ENDPOINT_ADDRESS_MASK
abbrev pub address_of : ℕ → ℕ
address_of endpoint = endpoint % 16

-- LIBUSB_TRANSFER_TYPE_CONTROL and LIBUSB_TRANSFER_TYPE_INTERRUPT
abbrev pub type_control : ℕ
type_control = 0

abbrev pub type_interrupt : ℕ
type_interrupt = 3

-- The fields of a `usb_endpoint_descriptor` that are used.
pub record EndpointDescriptor : Type 0 where
  pub b_endpoint_address : ℕ
  pub bm_attributes : ℕ
  pub w_max_packet_size : ℕ

-- The fields of a `usb_interface_descriptor` that are used.
pub record InterfaceDescriptor : Type 0 where
  pub b_interface_number : ℕ
  pub b_alternate_setting : ℕ
  pub b_interface_class : ℕ
  pub i_interface : ℕ

-- The fields of a `usb_config_descriptor` that are used.
pub record ConfigDescriptor : Type 0 where
  pub b_length : ℕ
  pub w_total_length : ℕ
  pub b_num_interfaces : ℕ
  pub i_configuration : ℕ

-- A `p_altInterface`. A pointer to a HID descriptor is the bytes from there on.
pub record AltInterface : Type 0 where
  pub descriptor : InterfaceDescriptor
  pub hid_descriptor : Option (List ℕ)
  pub b_num_endpoints : ℕ
  pub endpoints : List EndpointDescriptor

-- A `p_interface`.
pub record Interface : Type 0 where
  pub b_num_alt_interfaces : ℕ
  pub alt_interfaces : List AltInterface

-- A `p_configuration`.
pub record Configuration : Type 0 where
  pub raw : List ℕ
  pub descriptor : Option ConfigDescriptor
  pub interfaces : List Interface

-- A `p_other`: a descriptor with the value and index of the request for it.
pub record Descriptor : Type 0 where
  pub w_value : ℕ
  pub w_index : ℕ
  pub bytes : List ℕ

-- An `s_usb_descriptors`: `device` and `lang_id_0` are the bytes of the two structures.
pub record UsbDescriptors : Type 0 where
  pub device : List ℕ
  pub configurations : List Configuration
  pub lang_id_0 : List ℕ
  pub others : List Descriptor

-- One direction of an entry of `endpoints`.
pub record Endpoint : Type 0 where
  pub type : ℕ
  pub size : ℕ

-- An entry of `usbdevices`. `ins` and `outs` are the two directions of `endpoints`.
pub record UsbDevice (Cb : Type 0) : Type 0 where
  pub path : Option (List ℕ)
  pub devh : Option ℕ
  pub descriptors : UsbDescriptors
  pub ins : List Endpoint
  pub outs : List Endpoint
  pub user : ℤ
  pub fp_read : Option Cb
  pub fp_write : Option Cb
  pub fp_close : Option Cb
  pub pending_transfers : ℤ
  pub closing : Bool

-- The `status` of a transfer that has ended.
pub data TransferStatus : Type 0 where
  completed error timed_out cancelled stall gone overflow : TransferStatus

-- A `libusb_transfer`. `address` tells the transfers apart, `user_data` is the index of the device.
pub record Transfer : Type 0 where
  pub address : ℕ
  pub user_data : ℕ
  pub endpoint : ℕ
  pub type : ℕ
  pub timeout : ℕ
  pub buffer : List ℕ
  pub status : TransferStatus
  pub actual_length : ℕ

-- The static variables `usbdevices` and `transfers`.
pub record Usb (Cb : Type 0) : Type 0 where
  pub devices : List (UsbDevice Cb)
  pub transfers : List Transfer

-- The zero bytes of the tables.
abbrev pub no_endpoint : Endpoint
no_endpoint = record { type = 0; size = 0 }

abbrev pub no_descriptors : UsbDescriptors
no_descriptors = record {
  device = replicate 18 0;
  configurations = [];
  lang_id_0 = replicate 4 0;
  others = [];
}

abbrev pub no_usb_device : {Cb : Type 0} → UsbDevice Cb
no_usb_device = record {
  path = none;
  devh = none;
  descriptors = no_descriptors;
  ins = replicate 15 no_endpoint;
  outs = replicate 15 no_endpoint;
  user = pos 0;
  fp_read = none;
  fp_write = none;
  fp_close = none;
  pending_transfers = pos 0;
  closing = false;
}

abbrev pub is_some {ℓ} : {A : Type ℓ} → Option A → Bool
is_some none = false
is_some (some a) = true

module _ {Cb : Type 0} where
  abbrev pub usb_device_at : List (UsbDevice Cb) → ℕ → UsbDevice Cb
  usb_device_at t i = get_or t i no_usb_device

  -- Whether `usbasync_check_device` returns 0.
  unfoldable pub usbasync_check_device : List (UsbDevice Cb) → ℤ → Bool
  usbasync_check_device t (negsuc n) = false
  usbasync_check_device t (pos i) =
      if leb usbasync_max_devices i then false else is_some (usb_device_at t i).devh

  -- The entry of `endpoints` that the endpoint has.
  abbrev pub endpoint_of : UsbDevice Cb → ℕ → Endpoint
  endpoint_of d endpoint =
      if direction_of endpoint == 1
      then get_or d.ins (address_of endpoint - 1) no_endpoint
      else get_or d.outs (address_of endpoint - 1) no_endpoint

  -- The index, or none for INVALID_ENDPOINT_INDEX. `direction` is 1 for IN, 0 for OUT.
  unfoldable pub get_endpoint : UsbDevice Cb → ℕ → ℕ → ℕ → Option ℕ
  get_endpoint d endpoint direction count =
      if not (direction_of endpoint == direction) || (address_of endpoint == 0)
      then none
      else (if ((endpoint_of d endpoint).type == 0) || ltb (endpoint_of d endpoint).size count
          then none
          else some (address_of endpoint - 1))
