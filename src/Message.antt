-- ===== src/Message.antt =====
-- src/communication/Message.h: the frames of the wire protocol.
use camera_controller.Base.{ℕ, ◌+◌, List}

abbrev pub magic_word_1 : ℕ
magic_word_1 = 0x54

abbrev pub magic_word_2 : ℕ
magic_word_2 = 0xf0

abbrev pub msg_header_size : ℕ
msg_header_size = 5

abbrev pub msg_max_length : ℕ
msg_max_length = 0xffff + msg_header_size

-- `enum MessageType`, by its values.
abbrev pub msgtype_log : ℕ
msgtype_log = 1

abbrev pub msgtype_telecommand : ℕ
msgtype_telecommand = 2

abbrev pub msgtype_telemetry : ℕ
msgtype_telemetry = 3

abbrev pub msgtype_file : ℕ
msgtype_file = 4

-- `type` is a `uint8_t`, `size` a `uint16_t`, and `bytes` the array of `size` bytes.
pub record Message : Type 0 where
  pub type : ℕ
  pub size : ℕ
  pub bytes : List ℕ
