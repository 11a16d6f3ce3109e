-- ===== src/Protocol.antt =====
-- include/protocol.h: the constants, the packets and the tables that the PC program and the firmware
-- exchange over the serial line. A byte is a number; both processors are little-endian, so a packed
-- structure is the list of its bytes.
use serialusb.Common.{ℕ, ◌++◌, List, [], ◌∷◌}
use serialusb.Common.Bytes.{le16}

abbrev pub usart_baudrate : ℕ
usart_baudrate = 500000

abbrev pub max_descriptors_size : ℕ
max_descriptors_size = 1024

abbrev pub max_descriptors : ℕ
max_descriptors = 32

abbrev pub max_endpoints : ℕ
max_endpoints = 6

abbrev pub max_payload_size_ep : ℕ
max_payload_size_ep = 64

abbrev pub max_packet_size : ℕ
max_packet_size = 256

-- sizeof(s_header)
abbrev pub header_size : ℕ
header_size = 2

abbrev pub max_packet_value_size : ℕ
max_packet_value_size = 254

-- `e_packetType`, whose values travel in the first byte of a packet.
abbrev pub e_type_descriptors : ℕ
e_type_descriptors = 0

abbrev pub e_type_index : ℕ
e_type_index = 1

abbrev pub e_type_endpoints : ℕ
e_type_endpoints = 2

abbrev pub e_type_reset : ℕ
e_type_reset = 3

abbrev pub e_type_control : ℕ
e_type_control = 4

abbrev pub e_type_control_stall : ℕ
e_type_control_stall = 5

abbrev pub e_type_in : ℕ
e_type_in = 6

abbrev pub e_type_out : ℕ
e_type_out = 7

abbrev pub e_type_debug : ℕ
e_type_debug = 8

-- The used bytes of an `s_packet`: its header, then `length` bytes of its value.
abbrev pub packet : ℕ → ℕ → List ℕ → List ℕ
packet type length value = type ∷ length ∷ value

-- `s_descriptorIndex`
pub record DescriptorIndex : Type 0 where
  pub offset : ℕ
  pub w_value : ℕ
  pub w_index : ℕ
  pub w_length : ℕ

abbrev pub index_bytes : DescriptorIndex → List ℕ
index_bytes d = le16 d.offset ++ le16 d.w_value ++ le16 d.w_index ++ le16 d.w_length

-- `s_endpointConfig`
pub record EndpointConfig : Type 0 where
  pub number : ℕ
  pub type : ℕ
  pub size : ℕ

abbrev pub endpoint_bytes : EndpointConfig → List ℕ
endpoint_bytes e = e.number ∷ e.type ∷ e.size ∷ []
