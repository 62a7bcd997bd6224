-- ===== src/LogPath.antt =====
-- The way of a log text: the stream of src/communication/TCPStream.h, whose encoder
-- (MessageEncoder.h) calls `sendData` of the server (TCPServer.cpp), whose sender sends what the ring
-- holds, up to a decoder of the same protocol at the other end.
pub mod Calls
pub mod Delivery
pub mod Lines
pub mod Arrival
use camera_controller.Base.{ℕ, List, [], ◌∷◌, ◌++◌}
use camera_controller.MessageEncoder.{MessageEncoder, send_log}

-- The encoder, and the arguments of its calls of `sendData`, in order.
pub record Encoding : Type 0 where
  pub buf : MessageEncoder
  pub calls : List (List ℕ)

abbrev pub record_call : List ℕ → List (List ℕ) → List (List ℕ)
record_call bytes calls = calls ++ bytes ∷ []

-- `encoder->sendLog(str, len)`, as the stream calls it.
abbrev pub encode : List ℕ → Encoding → Encoding
encode str e =
    let ((buf, calls), done) = send_log record_call e.buf e.calls str in
    record { buf = buf; calls = calls }
