-- ===== src/Tests/Delivery.antt =====
-- Runs across the connection: what a client sends, and what arrives of the log.
use Prim.Native.String.{String, len}
use camera_controller.Base.{
  ℕ, ◌≡◌, refl, sym, true, false, List, [], ◌∷◌, arith, length, length-replicate, replicate, ◌++◌,
  foldl, memcpy,
}
use camera_controller.Base.Int.{pos}
use camera_controller.Message.{Message, msgtype_log, msg_max_length}
use camera_controller.MessageDecoder.{start, decode}
use camera_controller.MessageDecoder.Frames.{frame}
use camera_controller.MessageEncoder.Chunks.{chunks, joined}
use camera_controller.MessageEncoder.RoundTrip.{deliver}
use camera_controller.CircularBuffer.{get, fetch, init, put, store, written, current_size}
use camera_controller.CircularBuffer.Contents.{init-IsValid}
use camera_controller.CircularBuffer.Put.{put-Put}
use camera_controller.TcpServer.{
  Sockets, TcpServer, send_data, sender_round, serve_client, accept_client, server_round,
  server_rounds, receive,
}
use camera_controller.TcpServer.Order.{give, sender, NoLoss, step, steps_run, Step, stream, given}
use camera_controller.TcpServer.Receive.{reads, decoding}
use camera_controller.TcpServer.Clients.{client_bytes, clients_bytes, server_rounds-decode}
use camera_controller.TcpServer.Drain.{sender_rounds}
use camera_controller.TcpServer.Sent.{sender_rounds-sent}
use camera_controller.TcpServer.Start.{Started, start-Started}
use camera_controller.TcpServer as Server
use camera_controller.TcpStream.{sync, write, send, sputc}
use camera_controller.LogPath.{encode}
use camera_controller.LogPath.Calls.{Fit, fresh, encode-calls}
use camera_controller.LogPath.Delivery.{gives, steps_run-write}
use camera_controller.Logger.{log_debug, log_info, padded, get_log_level_string}
use camera_controller.LogPath.Lines.{LogCall, main_streams, log_all, log_all-OneEach, network_lines}
use camera_controller.LogPath.Arrival.{HasRoom, HasRoom-AreShort, steps_run-log_all}
use camera_controller.Tests.Wire.{junk, collect, decoder, encoder}
use camera_controller.Tests.Network.{sockets, server, buffer-IsValid}

-- The sockets of a client whose reads are listed.
unfoldable pub next_read : List (List ℕ) → List ℕ × List (List ℕ)
next_read [] = ([], [])
next_read (bytes ∷ rest) = (bytes, rest)

abbrev pub reading : Sockets (List (List ℕ))
reading = record {
  socket = λ w. (pos 3, w);
  setsockopt = λ sck w. (pos 0, w);
  bind = λ sck port w. (pos 0, w);
  listen = λ sck w. (pos 0, w);
  accept = λ sck w. (pos 4, w);
  read = λ sck n w. next_read w;
  send = λ sck bytes w. w;
}

abbrev serving : TcpServer (List Message) (List (List ℕ))
serving = record {
  port = 8888;
  sck_server = pos 3;
  sck_client = pos 4;
  client_connected = true;
  send_buf = init 16;
  threads = true;
  decoder = decoder;
  handled = [];
  world = (0x54 ∷ 0xf0 ∷ 2 ∷ 1 ∷ []) ∷ [] ∷ (0 ∷ 7 ∷ []) ∷ [];
}

-- The first client leaves a frame that the second completes.
server_rounds-decode_example :
    decoding reading junk collect (server_rounds reading junk collect 5 2 serving)
    ≡ decode junk collect decoder [] (clients_bytes reading junk collect 5 2 serving)
server_rounds-decode_example = server_rounds-decode reading junk collect 5 2 serving tt

both_clients : clients_bytes reading junk collect 5 2 serving ≡ 0x54 ∷ 0xf0 ∷ 2 ∷ 1 ∷ 0 ∷ 7 ∷ []
unfolding clients_bytes client_bytes accept_client server_round serve_client receive reads joined
    next_read
both_clients = refl

-- A server with three bytes to send.
abbrev loaded : TcpServer ℕ (List ℕ)
loaded = record server { send_buf = put (init 16) (1 ∷ 2 ∷ 3 ∷ []) }

loaded-NoLoss : NoLoss sockets (sender ∷ give (4 ∷ 5 ∷ []) ∷ []) loaded
unfolding NoLoss init step sender_round current_size put store written memcpy get fetch
loaded-NoLoss = (omega arith, tt)

sender_rounds-sent_example :
    (sender_rounds sockets 1 (steps_run sockets (sender ∷ give (4 ∷ 5 ∷ []) ∷ []) loaded)).world
    ≡ stream sockets loaded ++ given (sender ∷ give (4 ∷ 5 ∷ []) ∷ [])
unfolding put store written memcpy init
sender_rounds-sent_example =
    sender_rounds-sent sockets (λ sck bytes sent. refl) 1 (sender ∷ give (4 ∷ 5 ∷ []) ∷ []) loaded
      (put-Put (1 ∷ 2 ∷ 3 ∷ []) buffer-IsValid).valid refl loaded-NoLoss (omega arith)

start-Started_example :
    Started sockets
      (record server { threads = false })
      (Server.start sockets (record server { threads = false }))
start-Started_example = start-Started sockets (record server { threads = false }) refl

abbrev text : List ℕ
text = 1 ∷ 2 ∷ 3 ∷ []

abbrev log_frame : List ℕ
log_frame = frame msgtype_log text

abbrev schedule : List Step
schedule = sender ∷ give log_frame ∷ []

encoder-length : length encoder ≡ msg_max_length
encoder-length = length-replicate {A = ℕ} msg_max_length 0

scheduled : gives schedule ≡ (sync encode (write encode text (fresh encoder))).encoder.calls
unfolding gives sync send write sputc chunks
scheduled = sym (encode-calls text (record { buf = encoder; calls = [] }) encoder-length)

no_loss : NoLoss sockets schedule server
unfolding NoLoss init step sender_round current_size
no_loss = (omega arith, tt)

steps_run-write_example :
    let (d', s') =
      decode junk collect decoder []
        (sender_rounds sockets 1 (steps_run sockets schedule server)).world in
    (texts : List (List ℕ)) × (joined texts ≡ text)
    × Fit texts
    × (s' ≡ foldl (deliver junk collect) [] texts)
    × (d'.state ≡ start)
unfolding init
steps_run-write_example =
    steps_run-write junk collect sockets (λ sck bytes sent. refl) encoder text schedule 1 server
      decoder [] encoder-length scheduled buffer-IsValid refl refl no_loss (omega arith) refl

-- A storage of texts in as many bytes as they have.
abbrev stored_text : String → List ℕ
stored_text text = replicate (len text) 0x20

stored_text-length : (text : String) → length (stored_text text) ≡ len text
stored_text-length text = length-replicate {A = ℕ} (len text) 0x20

abbrev log_calls : List LogCall
log_calls =
    record { time = "[12:00:00]"; level = log_info; text = "Connected" }
    ∷ record { time = "[12:00:01]"; level = log_debug; text = "Event" }
    ∷ []

abbrev log_schedule : List Step
log_schedule =
    sender ∷ give (frame msgtype_log (stored_text "[12:00:00][INFO]    Connected\n")) ∷ []

log_calls-HasRoom : HasRoom stored_text stored_text-length log_calls
log_calls-HasRoom = (omega arith, (omega arith, tt))

abbrev log_server : TcpServer ℕ (List ℕ)
log_server = record server { send_buf = init 64 }

log_scheduled :
    gives log_schedule ≡ (log_all stored_text main_streams log_calls (fresh encoder)).encoder.calls
unfolding gives network_lines padded get_log_level_string
log_scheduled = sym (
    log_all-OneEach stored_text log_calls (fresh encoder)
      (HasRoom-AreShort stored_text stored_text-length log_calls log_calls-HasRoom)
      (record { empty = refl; size = encoder-length }))

log-NoLoss : NoLoss sockets log_schedule log_server
unfolding NoLoss init step sender_round current_size
log-NoLoss = (omega arith, tt)

steps_run-log_all_example :
    let (d', s') =
      decode junk collect decoder []
        (sender_rounds sockets 1 (steps_run sockets log_schedule log_server)).world in
    (s' ≡ foldl (deliver junk collect) [] (network_lines stored_text log_calls))
    × (d'.state ≡ start)
unfolding init
steps_run-log_all_example =
    steps_run-log_all stored_text stored_text-length junk collect sockets (λ sck bytes sent. refl)
      encoder log_calls log_schedule 1 log_server decoder [] encoder-length log_calls-HasRoom
      log_scheduled (init-IsValid 64 (omega arith) (omega arith)).0 refl refl log-NoLoss
      (omega arith) refl
