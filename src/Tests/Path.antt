-- ===== src/Tests/Path.antt =====
-- A telecommand on its way from the client's bytes to the handler.
use camera_controller.Base.{ℕ, List, [], ◌∷◌, true, none}
use camera_controller.Base.Int.{pos}
use camera_controller.Outcome.{Outcome, ok}
use camera_controller.CircularBuffer.{init}
use camera_controller.Commands.{Command}
use camera_controller.CommandHandler.{App}
use camera_controller.TcpServer.{TcpServer}
use camera_controller.Tests.Wire.{decoder}
use camera_controller.Tests.Telecommands.{setup_command}

-- Nothing is configured yet; the client's bytes come in two reads.
abbrev waiting : TcpServer (Outcome (App ℕ)) (List (List ℕ))
waiting = record {
  port = 8888;
  sck_server = pos 3;
  sck_client = pos 4;
  client_connected = true;
  send_buf = init 16;
  threads = true;
  decoder = decoder;
  handled = ok (record { active_function = none; world = 0; system_calls = [] });
  world = (0x54 ∷ 0xf0 ∷ 2 ∷ []) ∷ (1 ∷ 0 ∷ 1 ∷ 0x54 ∷ 0xf0 ∷ 2 ∷ 1 ∷ 0 ∷ 1 ∷ []) ∷ [];
}

abbrev two_setups : List (List ℕ × Command)
two_setups = (1 ∷ [], setup_command) ∷ (1 ∷ [], setup_command) ∷ []
