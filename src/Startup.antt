-- ===== src/Startup.antt =====
-- src/main.cpp, `init` and `main` up to the endless loop of the heartbeat, which only logs. The
-- streams of the logger are known by numbers.
pub mod Ready
use camera_controller.Base.{ℕ, Bool, false, none, List, [], ◌∷◌, ◌++◌}
use camera_controller.Message.{Message, msg_max_length}
use camera_controller.MessageDecoder as Decoder
use camera_controller.MessageDecoder.{filled}
use camera_controller.MessageEncoder.{MessageEncoder}
use camera_controller.RemoteTrigger.{Call, init_trigger}
use camera_controller.CameraWrapper.{CameraWrapper, null}
use camera_controller.CommandHandler.{App}
use camera_controller.TcpServer
use camera_controller.TcpServer.{TcpServer, Sockets}
use camera_controller.TcpStream
use camera_controller.TcpStream.{NetStreamBuf}
use camera_controller.Logger.{Logger, add_stream, log_debug, log_info}

abbrev pub cout : ℕ
cout = 0

abbrev pub ofs : ℕ
ofs = 1

abbrev pub netstream : ℕ
netstream = 2

-- The constructor of `CameraWrapper`.
unfoldable pub get_instance : {W : Type 0} → W → CameraWrapper W
get_instance w = record {
  connected = false;
  serial = "NOT_A_GOOD_SERIAL";
  camera = null;
  widgets = 0;
  open_files = 0;
  camera_files = 0;
  world = w;
}

-- The globals. The decoder and what its handler changes (the camera and the active function) stand in the
-- server, the encoder in the stream.
pub record Controller (V W : Type 0) : Type 0 where
  pub log_streams : Logger
  pub server : TcpServer (App (CameraWrapper W)) V
  pub log_stream : NetStreamBuf MessageEncoder

-- `init`. `junk` is what the new memory of the encoder holds.
unfoldable pub init : {V W : Type 0} → (ℕ → ℕ) → Logger → V → W → Controller V W
init junk log_streams v w = record {
  log_streams = log_streams;
  server =
      TcpServer.init Decoder.init
        (record { active_function = none; world = get_instance w; system_calls = [] }) 8888 v;
  log_stream = TcpStream.init (filled msg_max_length junk);
}

-- `main`: the calls of the GPIO library, whether the server has started, and the controller.
unfoldable pub main :
    {V W : Type 0} → Sockets V → (ℕ → ℕ) → V → W → List Call × Bool × Controller V W
main os junk v w =
    let log_streams = add_stream ofs log_debug ((cout, log_debug) ∷ []) in
    let c = init junk log_streams v w in
    let (started, server) = TcpServer.start os c.server in
    (
      init_trigger,
      started,
      record c { log_streams = add_stream netstream log_info c.log_streams; server = server },
    )
