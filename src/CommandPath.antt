-- ===== src/CommandPath.antt =====
-- The way of a telecommand: the bytes that a client sends, as the server reads them
-- (TCPServer.cpp), through the decoder and the message handler of src/communication/ to
-- `onCommandReceived` of src/main.cpp.
use camera_controller.Base.{ℕ, ◌<◌, ◌^◌, ◌≡◌, some, List, [], ◌∷◌, ◌++◌, length}
use camera_controller.Outcome.{Outcome, ◌>>=◌}
use camera_controller.Message.{Message, msgtype_telecommand}
use camera_controller.MessageDecoder.{MessageDecoder, decode}
use camera_controller.MessageDecoder.Frames.{frame}
use camera_controller.Commands.{Command, JsonLib}
use camera_controller.Commands as Commands
use camera_controller.CameraFunction.{Camera}
use camera_controller.Intervalometer.{IntervalometerStats}
use camera_controller.CommandHandler.{App, on_command_received}
use camera_controller.MessageHandler.{handle_message}
use camera_controller.TcpServer.{TcpServer}

-- A text that the client sends for a command: not empty, within the two size bytes, and an object
-- from which the command is decoded.
pub record IsTextOf (lib : JsonLib) (text : List ℕ) (c : Command) : Type 0 where
  pub json : lib.Json
  pub parses : lib.parse text ≡ some json
  pub decodes : Commands.decode lib json ≡ some c
  pub not_empty : 0 < length text
  pub fits : length text < 2 ^ 16

-- The frames of the texts of some commands, one after another.
unfoldable pub frames_of : List (List ℕ × Command) → List ℕ
frames_of [] = []
frames_of ((text, c) ∷ rest) = frame msgtype_telecommand text ++ frames_of rest

module _ (lib : JsonLib) {W : Type 0} (camera : Camera W) (stats : IntervalometerStats) where
  -- `onCommandReceived`, in a program that an earlier command may have ended.
  unfoldable pub receive_command : Command → Outcome (App W) → Outcome (App W)
  receive_command c r = r >>= on_command_received camera stats c

  unfoldable pub receive_all : List (List ℕ × Command) → Outcome (App W) → Outcome (App W)
  receive_all [] r = r
  receive_all ((text, c) ∷ rest) r = receive_all rest (receive_command c r)

  -- `handleMessage`, likewise.
  unfoldable pub dispatch : Message → Outcome (App W) → Outcome (App W)
  dispatch m r = r >>= handle_message lib (on_command_received camera stats) m
