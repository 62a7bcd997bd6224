-- ===== src/LogPath/Arrival.antt =====
-- What arrives of the calls of the logger of src/logger.h, when the log stream is the network
-- stream that src/main.cpp adds.
use Prim.Native.String.{String, len}
use camera_controller.Base.{
  ℕ, ◌+◌, ◌*◌, ◌≤◌, ◌≡◌, refl, ap, ◌∙◌, map, List, [], ◌∷◌, ◌++◌, foldl, length, All, true, arith,
  Bool-cases, inl, inr, leb,
}
use camera_controller.Base.Int.{ℤ}
use camera_controller.Message.{Message, msgtype_log, msg_max_length}
use camera_controller.MessageDecoder.{MessageDecoder, start, decode}
use camera_controller.MessageDecoder.Frames.{frame}
use camera_controller.MessageEncoder.{MessageEncoder}
use camera_controller.MessageEncoder.RoundTrip.{deliver}
use camera_controller.CircularBuffer.Contents.{IsValid}
use camera_controller.TcpServer.{TcpServer, Sockets}
use camera_controller.TcpServer.Order.{Step, given, NoLoss, steps_run, stream}
use camera_controller.TcpServer.Drain.{sender_rounds}
use camera_controller.TcpServer.Sent.{sender_rounds-sent}
use camera_controller.Logger.{line, log_info}
use camera_controller.Logger.Lengths.{len-line}
use camera_controller.MessageEncoder.Chunks.{joined}
use camera_controller.LogPath.Calls.{Fit, fresh}
use camera_controller.LogPath.Delivery.{gives, given-gives, decode-frames_joined}
use camera_controller.LogPath.Lines.{
  LogCall, main_streams, log_all, log_all-OneEach, network_lines, AreShort,
}

-- How the program stores a text: in `len` bytes.
module _ (bytes : String → List ℕ) (stored : (text : String) → length (bytes text) ≡ len text) where
  -- Calls whose time and text have at most 2027 bytes together.
  abbrev pub HasRoom : List LogCall → Type 0
  HasRoom = All (λ (c : LogCall). len c.time + len c.text ≤ 2027)

  pub HasRoom-AreShort :
      (calls : List LogCall) → HasRoom calls → AreShort bytes (network_lines bytes calls)
  unfolding network_lines
  HasRoom-AreShort [] room = tt
  HasRoom-AreShort (c ∷ calls) (room, others) =
      let (some_byte, short) = len-line c.time c.level c.text in
      let size = stored (line c.time c.level c.text) in
      elim (Bool-cases (leb log_info c.level)) [
        | inl up ↦ rw (up) ((omega arith, omega arith), HasRoom-AreShort calls others)
        | inr low ↦ rw (low) (HasRoom-AreShort calls others)
      ]

  AreShort-Fit : (lines : List (List ℕ)) → AreShort bytes lines → Fit lines
  AreShort-Fit [] short = tt
  AreShort-Fit (l ∷ lines) ((some_byte, room), others) =
      ((some_byte, omega arith), AreShort-Fit lines others)

  module _ {S : Type 0} (junk : ℕ → ℕ) (dispatch : Message → S → S) {R : Type 0}
      (os : Sockets (List ℕ))
      (appends : (sck : ℤ) (bytes sent : List ℕ) → os.send sck bytes sent ≡ sent ++ bytes) where
    -- The logger has the streams of `main`, its network stream is fresh, with an encoder of
    -- MSG_MAX_LENGTH bytes, a text is stored in as many bytes as it has, and no call's time and
    -- text have more than 2027 together. A client is connected, the sockets send all that they are
    -- given, and the ring is valid, with nothing in it or sent yet. However the calls of `sendData`
    -- that the calls of `log` lead to interleave with the rounds of the sender, if no write
    -- overflows the ring, one more round for each 512 bytes of the ring's size sends bytes that
    -- make a decoder that waits for a frame hand over one log message for each call at level INFO
    -- or above, in order, whose data is exactly the line of that call, and wait for a frame again.
    pub steps_run-log_all :
        (buf : MessageEncoder) (calls : List LogCall) (steps : List Step) (k : ℕ)
        (t : TcpServer R (List ℕ)) (d : MessageDecoder) (s : S)
        → length buf ≡ msg_max_length
        → HasRoom calls
        → gives steps ≡ (log_all bytes main_streams calls (fresh buf)).encoder.calls
        → IsValid t.send_buf
        → t.client_connected ≡ true
        → stream os t ≡ []
        → NoLoss os steps t
        → t.send_buf.size ≤ 512 * k
        → d.state ≡ start
        → let (d', s') =
            decode junk dispatch d s (sender_rounds os k (steps_run os steps t)).world in
          (s' ≡ foldl (deliver junk dispatch) s (network_lines bytes calls)) × (d'.state ≡ start)
    steps_run-log_all buf calls steps k t d s size room called v connected empty no_loss enough e =
        let lines = network_lines bytes calls in
        let short = HasRoom-AreShort calls room in
        let framed =
          log_all-OneEach bytes calls (fresh buf) short (record { empty = refl; size = size }) in
        let sent : (sender_rounds os k (steps_run os steps t)).world
            ≡ joined (map (frame msgtype_log) lines) =
          sender_rounds-sent os appends k steps t v connected no_loss enough
          ∙ ap (λ l. l ++ given steps) empty
          ∙ given-gives steps
          ∙ ap joined (called ∙ framed) in
        let (idle, handled) =
          decode-frames_joined junk dispatch lines d s e (AreShort-Fit lines short) in
        rw sent (handled, idle)
