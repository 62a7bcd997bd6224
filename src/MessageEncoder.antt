-- ===== src/MessageEncoder.antt =====
-- src/communication/MessageEncoder.h: log text cut into frames of at most 65535 data bytes. The
-- server's `sendData` is the parameter `send_data`, on a state `T`.
pub mod Chunks
pub mod RoundTrip
pub mod Buffer
use camera_controller.Base.{
  ℕ, zero, suc, ◌+◌, ◌-◌, ◌/◌, ◌^◌, List, [], ◌∷◌, ltb, if◌then◌else◌, length, take, drop, memcpy,
  replicate, u8, u16, Bool, true,
}
use camera_controller.Message.{
  magic_word_1, magic_word_2, msgtype_log, msg_header_size, msg_max_length,
}

-- `buf`, an array of MSG_MAX_LENGTH bytes.
abbrev pub MessageEncoder : Type 0
MessageEncoder = List ℕ

-- `buf[i] = x`
abbrev pub put_at : MessageEncoder → ℕ → ℕ → MessageEncoder
put_at buf i x = memcpy buf i (x ∷ [])

-- The size of the next frame, with `left` bytes to send.
pub next_size : ℕ → ℕ
next_size left = if ltb 0xffff left then 0xffff else u16 left

-- The writes of one round of the loop: the size bytes and the data.
pub fill : MessageEncoder → List ℕ → ℕ → ℕ → MessageEncoder
fill buf str consumed size =
    let buf' = put_at (put_at buf 3 (u8 size)) 4 (u8 (size / 2 ^ 8)) in
    memcpy buf' msg_header_size (take size (drop consumed str))

module _ {ℓ} {T : Type ℓ} (send_data : List ℕ → T → T) where
  -- `while (consumed < len)`. Each round consumes a byte at least, so `len` rounds are enough.
  pub send_loop : ℕ → MessageEncoder → T → List ℕ → ℕ → MessageEncoder × T
  send_loop zero buf t str consumed = (buf, t)
  send_loop (suc fuel) buf t str consumed =
      let size = next_size (length str - consumed) in
      let buf' = fill buf str consumed size in
      let rest =
        send_loop fuel buf' (send_data (take (size + msg_header_size) buf') t) str
          (consumed + size) in
      if ltb consumed (length str) then rest else (buf, t)

  -- `sendLog(str, len)`
  pub send_log : MessageEncoder → T → List ℕ → (MessageEncoder × T) × Bool
  send_log buf t str =
      let buf' = put_at (put_at (put_at buf 0 magic_word_1) 1 magic_word_2) 2 msgtype_log in
      (send_loop (length str) buf' t str 0, true)
