-- ===== src/LogPath/Delivery.antt =====
-- What arrives at the other end of the connection.
use camera_controller.Base.{
  ℕ, ◌≡◌, refl, ap, ◌∙◌, map, List, [], ◌∷◌, ◌++◌, foldl, length, true, ◌≤◌, ◌*◌,
}
use camera_controller.Base.Int.{ℤ}
use camera_controller.Message.{Message, msgtype_log, msg_max_length}
use camera_controller.MessageDecoder.{MessageDecoder, start, decode, decode_loop}
use camera_controller.MessageDecoder.Automaton.{IsValid as IsValidDecoder}
use camera_controller.MessageDecoder.Frames.{frame, idle-IsValid}
use camera_controller.MessageDecoder.Split.{decode-append, decode-IsValid}
use camera_controller.MessageEncoder.{MessageEncoder}
use camera_controller.MessageEncoder.Chunks.{joined}
use camera_controller.MessageEncoder.RoundTrip.{to_decoder, deliver, decode-frames}
use camera_controller.CircularBuffer.Contents.{IsValid}
use camera_controller.TcpServer.{TcpServer, Sockets}
use camera_controller.TcpServer.Order.{Step, give, sender, given, NoLoss, steps_run, stream}
use camera_controller.TcpServer.Drain.{sender_rounds}
use camera_controller.TcpServer.Sent.{sender_rounds-sent}
use camera_controller.TcpStream.{sync, write}
use camera_controller.LogPath.{encode}
use camera_controller.LogPath.Calls.{Fit, fresh, sync-calls}

-- The arguments of the calls of `sendData` in a schedule.
unfoldable pub gives : List Step → List (List ℕ)
gives [] = []
gives (give bytes ∷ steps) = bytes ∷ gives steps
gives (sender ∷ steps) = gives steps

pub given-gives : (steps : List Step) → given steps ≡ joined (gives steps)
unfolding given gives joined
given-gives [] = refl
given-gives (give bytes ∷ steps) = ap (λ l. bytes ++ l) (given-gives steps)
given-gives (sender ∷ steps) = given-gives steps

module _ {S : Type 0} (junk : ℕ → ℕ) (dispatch : Message → S → S) where
  -- One call of `decode` on all the parts does what a call on each does.
  decode-joined :
      (parts : List (List ℕ)) (d : MessageDecoder) (s : S)
      → IsValidDecoder d
      → decode junk dispatch d s (joined parts)
        ≡ foldl (λ p part. to_decoder junk dispatch part p) (d, s) parts
  unfolding joined decode decode_loop
  decode-joined [] d s v = refl
  decode-joined (part ∷ parts) d s v =
      let (d', s') = decode junk dispatch d s part in
      decode-append junk dispatch d s part (joined parts) v
      ∙ decode-joined parts d' s' (decode-IsValid junk dispatch d s part v)

  foldl-map :
      (texts : List (List ℕ)) (p : MessageDecoder × S)
      → foldl (λ p part. to_decoder junk dispatch part p) p (map (frame msgtype_log) texts)
        ≡ foldl (λ p c. to_decoder junk dispatch (frame msgtype_log c) p) p texts
  foldl-map [] p = refl
  foldl-map (c ∷ texts) p = foldl-map texts (to_decoder junk dispatch (frame msgtype_log c) p)

  pub decode-frames_joined :
      (texts : List (List ℕ)) (d : MessageDecoder) (s : S)
      → d.state ≡ start
      → Fit texts
      → let (d', s') = decode junk dispatch d s (joined (map (frame msgtype_log) texts)) in
        (d'.state ≡ start) × (s' ≡ foldl (deliver junk dispatch) s texts)
  decode-frames_joined texts d s e fit =
      let same =
        decode-joined (map (frame msgtype_log) texts) d s (idle-IsValid d e)
        ∙ foldl-map texts (d, s) in
      let (idle, handled) = decode-frames junk dispatch texts d s e fit in
      (ap (λ p. p.0.state) same ∙ idle, ap (λ p. p.1) same ∙ handled)

  module _ {R : Type 0} (os : Sockets (List ℕ))
      (appends : (sck : ℤ) (bytes sent : List ℕ) → os.send sck bytes sent ≡ sent ++ bytes) where
    -- A text is written to a fresh log stream, whose encoder has MSG_MAX_LENGTH bytes, and flushed.
    -- A client is connected, the sockets send all that they are given, and the ring is valid, with
    -- nothing in it or sent yet. However the calls of `sendData` that this leads to interleave with
    -- the rounds of the sender, if no write overflows the ring, one more round for each 512 bytes
    -- of the ring's size sends bytes that make a decoder that waits for a frame hand over log
    -- messages whose data, joined in order, is the text, none empty, and wait for a frame again.
    pub steps_run-write :
        (buf : MessageEncoder) (text : List ℕ) (steps : List Step) (k : ℕ)
        (t : TcpServer R (List ℕ)) (d : MessageDecoder) (s : S)
        → length buf ≡ msg_max_length
        → gives steps ≡ (sync encode (write encode text (fresh buf))).encoder.calls
        → IsValid t.send_buf
        → t.client_connected ≡ true
        → stream os t ≡ []
        → NoLoss os steps t
        → t.send_buf.size ≤ 512 * k
        → d.state ≡ start
        → let (d', s') =
            decode junk dispatch d s (sender_rounds os k (steps_run os steps t)).world in
          (texts : List (List ℕ)) × (joined texts ≡ text)
          × Fit texts
          × (s' ≡ foldl (deliver junk dispatch) s texts)
          × (d'.state ≡ start)
    steps_run-write buf text steps k t d s size called v connected empty no_loss enough e =
        let (texts, calls, all, fit) = sync-calls buf text size in
        let sent : (sender_rounds os k (steps_run os steps t)).world
            ≡ joined (map (frame msgtype_log) texts) =
          sender_rounds-sent os appends k steps t v connected no_loss enough
          ∙ ap (λ l. l ++ given steps) empty
          ∙ given-gives steps
          ∙ ap joined (called ∙ calls) in
        let (idle, handled) = decode-frames_joined texts d s e fit in
        rw sent (texts, all, fit, handled, idle)
