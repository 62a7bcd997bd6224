-- ===== src/TcpServer/Receive.antt =====
-- What the receiver makes of a client's bytes, however the reads cut them.
use camera_controller.Base.{
  ℕ, zero, suc, ◌<◌, ◌≡◌, refl, sym, ◌∙◌, false, not, Bool-cases, inl, inr, List, [], ◌∷◌, ◌==◌,
  if◌then◌else◌, length, arith,
}
use camera_controller.Base.Int.{ℤ}
use camera_controller.Message.{Message}
use camera_controller.MessageDecoder.{MessageDecoder, decode, decode_loop}
use camera_controller.MessageDecoder.Automaton.{IsValid}
use camera_controller.MessageDecoder.Split.{decode-append, decode-IsValid}
use camera_controller.MessageEncoder.Chunks.{joined}
use camera_controller.TcpServer.{TcpServer, Sockets, recv_buf_size, receive, serve_client}

-- What the next `n` reads from the client return, up to the first that returns nothing.
unfoldable pub reads : {W : Type 0} → Sockets W → ℤ → ℕ → W → List (List ℕ)
reads os sck zero w = []
reads os sck (suc n) w =
    let (bytes, w') = os.read sck recv_buf_size w in
    let rest = reads os sck n w' in if not (length bytes == 0) then bytes ∷ rest else []

module _ {S W : Type 0} (os : Sockets W) (junk : ℕ → ℕ) (dispatch : Message → S → S) where
  open os use {read}

  -- The decoder and its handler.
  abbrev pub decoding : TcpServer S W → MessageDecoder × S
  decoding t = (t.decoder, t.handled)

  -- With a valid decoder, the bytes of a client, in whatever pieces `read` returns them, have the
  -- effect on the decoder and its handler of one call of `decode` on all of them: the same messages
  -- in the same order. What the decoder holds of an unfinished message when the client comes counts
  -- as well.
  pub serve_client-decode :
      (n : ℕ) (t : TcpServer S W)
      → IsValid t.decoder
      → decoding (serve_client os junk dispatch n t)
        ≡ decode junk dispatch t.decoder t.handled (joined (reads os t.sck_client n t.world))
  unfolding serve_client reads receive joined decode decode_loop
  serve_client-decode zero t v = refl
  serve_client-decode (suc n) t v =
      let (bytes, w) = read t.sck_client recv_buf_size t.world in
      let (decoder, handled) = decode junk dispatch t.decoder t.handled bytes in
      let t' : TcpServer S W = record t { decoder = decoder; handled = handled; world = w } in
      elim (Bool-cases (not (length bytes == 0))) [
        | inr e ↦ rw (e, serve_client, reads) refl
        | inl e ↦
            rw (e, serve_client, reads)
              (serve_client-decode n t' (decode-IsValid junk dispatch t.decoder t.handled bytes v)
                ∙ sym (
                    decode-append junk dispatch t.decoder t.handled bytes
                      (joined (reads os t.sck_client n w)) v))
      ]

  -- A client that is served to its end leaves the server without a client, as the sender reads it.
  pub serve_client-connected :
      (n : ℕ) (t : TcpServer S W)
      → length (reads os t.sck_client n t.world) < n
      → (serve_client os junk dispatch n t).client_connected ≡ false
  unfolding serve_client reads receive
  serve_client-connected zero t h = elim h [ ]
  serve_client-connected (suc n) t h =
      let (bytes, w) = read t.sck_client recv_buf_size t.world in
      let (decoder, handled) = decode junk dispatch t.decoder t.handled bytes in
      let t' : TcpServer S W = record t { decoder = decoder; handled = handled; world = w } in
      elim (Bool-cases (not (length bytes == 0))) [
        | inr e ↦ rw (e, serve_client) refl
        | inl e ↦
            let one_more : length (reads os t.sck_client (suc n) t.world)
                ≡ suc (length (reads os t.sck_client n w)) =
              rw (e, reads) refl in
            rw (e, serve_client) (serve_client-connected n t' (omega (arith, one_more)))
      ]
