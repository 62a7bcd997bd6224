-- ===== src/Startup/Ready.antt =====
-- What `main` has made when it comes to its loop.
use camera_controller.Base.{ℕ, ◌≡◌, refl, ap, ◌∙◌, Bool, false, ◌^◌, [], ◌∷◌, length, none, arith}
use camera_controller.Message.{msg_max_length}
use camera_controller.MessageDecoder as Decoder
use camera_controller.MessageDecoder.{filled, start}
use camera_controller.MessageDecoder.Stream.Header.{length-filled}
use camera_controller.CircularBuffer
use camera_controller.CircularBuffer.Contents.{IsValid, contents, init-IsValid}
use camera_controller.CameraWrapper.{null}
use camera_controller.TcpServer
use camera_controller.TcpServer.{TcpServer, Sockets, send_buf_size}
use camera_controller.TcpServer.Start.{start-Started}
use camera_controller.TcpStream
use camera_controller.Logger.{add_stream}
use camera_controller.Startup.{Controller, init, main, get_instance}

module _ {V W : Type 0} (os : Sockets V) (junk : ℕ → ℕ) where
  -- Every part is in the state that its theorems ask for.
  pub record Ready (started : Bool) (c : Controller V W) : Type 0 where
    pub threads : c.server.threads ≡ started
    pub ring : IsValid c.server.send_buf
    pub ring_size : c.server.send_buf.size ≡ 2 ^ 20
    pub ring_empty : contents c.server.send_buf ≡ []
    pub decoder : c.server.decoder.state ≡ start
    pub function : c.server.handled.active_function ≡ none
    pub not_connected : c.server.handled.world.connected ≡ false
    pub no_camera : c.server.handled.world.camera ≡ null
    pub encoder : length c.log_stream.encoder ≡ msg_max_length
    pub stream : c.log_stream.buf ≡ []
    pub log_streams : c.log_streams ≡ (0, 0) ∷ (1, 0) ∷ (2, 1) ∷ []

  -- Whether the server starts or not, `main` comes to its loop with every part ready: a valid,
  -- empty ring of 2 ^ 20 bytes, a decoder that waits for a frame, no function, a camera pointer
  -- that is null and not connected, an encoder with room for the largest frame, an empty log
  -- stream, and the three streams with their levels.
  pub main-Ready : (v : V) (w : W) → let (calls, started, c) = main os junk v w in Ready started c
  unfolding main init TcpServer.init TcpStream.init Decoder.init get_instance add_stream
      CircularBuffer.init
  main-Ready v w =
      let c : Controller V W = init junk ((0, 0) ∷ (1, 0) ∷ []) v w in
      let s = start-Started os c.server refl in
      let ring_new = init-IsValid send_buf_size (omega arith) (omega arith) in
      let same_ring = ap (λ t. t.send_buf) s.members in
      let same_app = ap (λ t. t.handled) s.members in
      record {
        threads = s.running;
        ring = rw same_ring ring_new.0;
        ring_size = ap (λ b. b.size) same_ring;
        ring_empty = ap contents same_ring ∙ ring_new.1;
        decoder = ap (λ t. t.decoder.state) s.members;
        function = ap (λ a. a.active_function) same_app;
        not_connected = ap (λ a. a.world.connected) same_app;
        no_camera = ap (λ a. a.world.camera) same_app;
        encoder = length-filled msg_max_length junk;
        stream = refl;
        log_streams = refl;
      }
