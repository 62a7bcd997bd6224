-- ===== src/TcpStream.antt =====
-- src/communication/TCPStream.h: the buffer of the log stream. `MessageEncoder::sendLog` is the
-- parameter `send_log`, on a state `T`. The characters that are written are bytes, none of them EOF.
pub mod Lossless
use camera_controller.Base.{ℕ, ◌-◌, List, [], ◌∷◌, ◌++◌, if◌then◌else◌, ltb, length}

abbrev pub stream_buf_size : ℕ
stream_buf_size = 2048

-- The characters between `pbase()` and `pptr()`, and the state of the encoder.
pub record NetStreamBuf (T : Type 0) : Type 0 where
  pub buf : List ℕ
  pub encoder : T

-- The constructor.
unfoldable pub init : {T : Type 0} → T → NetStreamBuf T
init encoder = record { buf = []; encoder = encoder }

module _ {T : Type 0} (send_log : List ℕ → T → T) where
  -- `send()`
  unfoldable pub send : NetStreamBuf T → NetStreamBuf T
  send s = record { buf = []; encoder = send_log s.buf s.encoder }

  -- `sync()`, which a flush of the stream calls.
  unfoldable pub sync : NetStreamBuf T → NetStreamBuf T
  sync s = send s

  -- `overflow(ch)`: the array has one place more than `epptr()` shows.
  unfoldable pub overflow : ℕ → NetStreamBuf T → NetStreamBuf T
  overflow ch s = send (record s { buf = s.buf ++ ch ∷ [] })

  -- `sputc(ch)` of `std::streambuf`: it stores the character below `epptr()`, which is at
  -- `buf + STREAM_BUF_SIZE - 1`, and calls `overflow` at it.
  unfoldable pub sputc : ℕ → NetStreamBuf T → NetStreamBuf T
  sputc ch s =
      if ltb (length s.buf) (stream_buf_size - 1)
      then record s { buf = s.buf ++ ch ∷ [] }
      else overflow ch s

  -- The characters of a text, one after the other.
  unfoldable pub write : List ℕ → NetStreamBuf T → NetStreamBuf T
  write [] s = s
  write (ch ∷ text) s = write text (sputc ch s)
