-- ===== src/TcpServer.antt =====
-- src/communication/TCPServer.{h,cpp}: the server, its receiver and its sender. The socket calls are an
-- interface on the state `W` of the operating system. Log lines are left out.
pub mod Start
pub mod Order
pub mod Receive
pub mod Clients
pub mod Drain
pub mod Sent
pub mod Threads
use camera_controller.Base.{
  ℕ, zero, suc, ◌+◌, ◌*◌, Bool, true, false, ◌&&◌, ◌||◌, not, List, [], ◌∷◌, ◌++◌, ◌==◌,
  if◌then◌else◌, length,
}
use camera_controller.Base.Int.{ℤ, pos, negsuc, ltb_ℤ, eqb_ℤ}
use camera_controller.Message.{Message}
use camera_controller.MessageDecoder.{MessageDecoder, decode}
use camera_controller.CircularBuffer.{CircularBuffer, put, get, current_size, init as init_buffer}

abbrev pub send_buf_size : ℕ
send_buf_size = 1024 * 1024

abbrev pub recv_buf_size : ℕ
recv_buf_size = 512

-- The socket calls. `read` returns the bytes read; none is an end of the stream or an error.
pub record Sockets (W : Type 0) : Type 0 where
  pub socket : W → ℤ × W
  pub setsockopt : ℤ → W → ℤ × W
  pub bind : ℤ → ℕ → W → ℤ × W
  pub listen : ℤ → W → ℤ × W
  pub accept : ℤ → W → ℤ × W
  pub read : ℤ → ℕ → W → List ℕ × W
  pub send : ℤ → List ℕ → W → W

-- The members: `threads` is whether `start` has started the two threads. The decoder is the one that
-- the server refers to, with the state `S` of its handler.
pub record TcpServer (S : Type 0) (W : Type 0) : Type 0 where
  pub port : ℕ
  pub sck_server : ℤ
  pub sck_client : ℤ
  pub client_connected : Bool
  pub send_buf : CircularBuffer
  pub threads : Bool
  pub decoder : MessageDecoder
  pub handled : S
  pub world : W

-- The constructor.
unfoldable pub init : {S W : Type 0} → MessageDecoder → S → ℕ → W → TcpServer S W
init decoder s port w = record {
  port = port;
  sck_server = negsuc 0;
  sck_client = negsuc 0;
  client_connected = false;
  send_buf = init_buffer send_buf_size;
  threads = false;
  decoder = decoder;
  handled = s;
  world = w;
}

-- `sendData(data, size)`
unfoldable pub send_data : {S W : Type 0} → List ℕ → TcpServer S W → TcpServer S W
send_data bytes t = record t { send_buf = put t.send_buf bytes }

module _ {S W : Type 0} (os : Sockets W) where
  open os use {socket, setsockopt, bind, listen, accept, read, send}

  -- `start()`: each call is made only where those before it have succeeded.
  unfoldable pub start : TcpServer S W → Bool × TcpServer S W
  start t =
      let (sck, w₁) = socket t.world in
      let t' = record t { sck_server = sck } in
      let (set, w₂) = setsockopt sck w₁ in
      let (bound, w₃) = bind sck t.port w₂ in
      let (listening, w₄) = listen sck w₃ in
      if ltb_ℤ sck (pos 0)
      then (false, record t' { world = w₁ })
      else if eqb_ℤ set (negsuc 0)
      then (false, record t' { world = w₂ })
      else if not (eqb_ℤ bound (pos 0))
      then (false, record t' { world = w₃ })
      else if not (eqb_ℤ listening (pos 0))
      then (false, record t' { world = w₄ })
      else (true, record t' { threads = true; world = w₄ })

  -- One round of `fn_sender`, where it does not wait: at most 512 bytes of the ring go to the client.
  unfoldable pub sender_round : TcpServer S W → TcpServer S W
  sender_round t =
      let (send_buf, len, buf) = get t.send_buf 512 in
      if not t.client_connected || (current_size t.send_buf == 0)
      then t
      else record t { send_buf = send_buf; world = send t.sck_client buf t.world }

  -- `accept` and what `fn_server` does before it receives. A failed call is tried again.
  unfoldable pub accept_client : TcpServer S W → TcpServer S W
  accept_client t =
      let (sck, w) = accept t.sck_server t.world in
      if ltb_ℤ sck (pos 0)
      then record t { sck_client = sck; world = w }
      else record t { sck_client = sck; client_connected = true; world = w }

  module _ (junk : ℕ → ℕ) (dispatch : Message → S → S) where
    -- `receive()`: whether the client is still there.
    unfoldable pub receive : TcpServer S W → Bool × TcpServer S W
    receive t =
        let (bytes, w) = read t.sck_client recv_buf_size t.world in
        let (decoder, handled) = decode junk dispatch t.decoder t.handled bytes in
        if not (length bytes == 0)
        then (true, record t { decoder = decoder; handled = handled; world = w })
        else (false, record t { world = w })

    -- `while (receive());` over at most `fuel` reads, then the end of the connection.
    unfoldable pub serve_client : ℕ → TcpServer S W → TcpServer S W
    serve_client zero t = t
    serve_client (suc fuel) t =
        let (there, t') = receive t in
        let rest = serve_client fuel t' in
        if there then rest else record t' { client_connected = false }

    -- A round of `fn_server`: a client is accepted and served for at most `fuel` reads.
    unfoldable pub server_round : ℕ → TcpServer S W → TcpServer S W
    server_round fuel t =
        let t' = accept_client t in if ltb_ℤ t'.sck_client (pos 0) then t' else serve_client fuel t'

    -- Up to `k` rounds; a client that is still there after its reads is waited for, and no other
    -- accepted.
    unfoldable pub server_rounds : ℕ → ℕ → TcpServer S W → TcpServer S W
    server_rounds fuel zero t = t
    server_rounds fuel (suc k) t =
        let t' = server_round fuel t in
        let rest = server_rounds fuel k t' in if t'.client_connected then t' else rest
