-- ===== src/Tests/Network.antt =====
-- Runs of the server, the log stream and the logger.
use camera_controller.Base.{
  ℕ, ◌≤◌, ◌<◌, ◌⊎◌, map, none, ◌≡◌, refl, true, List, [], ◌∷◌, ◌++◌, arith,
}
use camera_controller.Base.Int.{pos}
use camera_controller.Outcome.{ok, fault, past_the_end, buffer_overflow}
use camera_controller.MessageDecoder.{start}
use camera_controller.CircularBuffer.{init}
use camera_controller.CircularBuffer.Contents.{IsValid, init-IsValid}
use camera_controller.TcpServer.{Sockets, TcpServer}
use camera_controller.TcpServer.Order.{
  give, sender, NoLoss, stream, steps_run, given, steps_run-stream,
}
use Prim.Native.String.{len}
use camera_controller.Logger.{remove_stream, log_format, line, log_info}
use camera_controller.Logger.Lines.{receivers, log_format-receivers}
use camera_controller.Logger.Streams.{remove_stream_lem}

-- Sockets whose world is what was sent.
abbrev pub sockets : Sockets (List ℕ)
sockets = record {
  socket = λ w. (pos 3, w);
  setsockopt = λ sck w. (pos 0, w);
  bind = λ sck port w. (pos 0, w);
  listen = λ sck w. (pos 0, w);
  accept = λ sck w. (pos 4, w);
  read = λ sck n w. ([], w);
  send = λ sck bytes w. w ++ bytes;
}

abbrev pub server : TcpServer ℕ (List ℕ)
server = record {
  port = 8888;
  sck_server = pos 3;
  sck_client = pos 4;
  client_connected = true;
  send_buf = init 16;
  threads = true;
  decoder = record {
    state = start;
    temp_type = 0;
    temp_size1 = 0;
    received_data = 0;
    message = none;
  };
  handled = 0;
  world = [];
}

pub buffer-IsValid : IsValid (init 16)
buffer-IsValid = (init-IsValid 16 (omega arith) (omega arith)).0

no_loss : NoLoss sockets (give (1 ∷ 2 ∷ []) ∷ sender ∷ []) server
unfolding NoLoss init
no_loss = (omega arith, tt)

steps_run-stream_example :
    stream sockets (steps_run sockets (give (1 ∷ 2 ∷ []) ∷ sender ∷ []) server)
    ≡ stream sockets server ++ given (give (1 ∷ 2 ∷ []) ∷ sender ∷ [])
steps_run-stream_example =
    steps_run-stream sockets (λ sck bytes sent. refl) (give (1 ∷ 2 ∷ []) ∷ sender ∷ []) server
      buffer-IsValid no_loss

remove_stream_lem_example :
    (remove_stream 7 ((7, 0) ∷ (8, 1) ∷ []) ≡ ok ((8, 1) ∷ []))
    × (remove_stream 7 ((7, 0) ∷ []) ≡ fault past_the_end)
    × (remove_stream 7 [] ≡ ok [])
remove_stream_lem_example = remove_stream_lem 7 0 [] [] (8, 1) tt tt

log_format-receivers_example :
    ((len "Camera connected." < 256)
      × (log_format "[10:00:00]" log_info "Camera connected." ((0, 0) ∷ (1, 2) ∷ (2, 1) ∷ [])
          ≡ ok (
              map
                (λ entry. (entry.0, line "[10:00:00]" log_info "Camera connected."))
                (receivers log_info ((0, 0) ∷ (1, 2) ∷ (2, 1) ∷ [])))))
    ⊎ ((256 ≤ len "Camera connected.")
        × (log_format "[10:00:00]" log_info "Camera connected." ((0, 0) ∷ (1, 2) ∷ (2, 1) ∷ [])
            ≡ fault buffer_overflow))
log_format-receivers_example =
    log_format-receivers "[10:00:00]" log_info "Camera connected." ((0, 0) ∷ (1, 2) ∷ (2, 1) ∷ [])
