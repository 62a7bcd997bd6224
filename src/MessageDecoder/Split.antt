-- ===== src/MessageDecoder/Split.antt =====
-- The decoder does not depend on how the stream is cut into reads.
use camera_controller.Base.{
  ℕ, ◌+◌, ◌^◌, ◌<◌, ◌≡◌, refl, sym, ◌∙◌, ◌⊎◌, inl, inr, Bool-cases, false, Option, none, some, List,
  [], ◌∷◌, ◌++◌, ◌==◌, length, arith, foldl, foldl-append, length-memcpy,
}
use camera_controller.Message.{Message}
use camera_controller.MessageDecoder.{
  DecoderState, start, magic1_found, magic2_found, type_received, size1_received, receiving_data,
  MessageDecoder, decode,
}
use camera_controller.MessageDecoder.Automaton.{
  mid, done, Receiving, IsValid, State, feed, feed_in, feed_data, data_byte,
}
use camera_controller.MessageDecoder.Stream.{decode-feed}
use camera_controller.MessageDecoder.Stream.Header.{header_byte-IsValid}

module _ {ℓ} {S : Type ℓ} (junk : ℕ → ℕ) (dispatch : Message → S → S) where
  data_byte-IsValid :
      (d : MessageDecoder) (s : S) (m : Message) (b : ℕ)
      → d.state ≡ receiving_data
      → d.received_data < m.size
      → length m.bytes ≡ m.size
      → m.size < 2 ^ 16
      → IsValid (data_byte junk dispatch d s m b).0
  unfolding data_byte
  data_byte-IsValid d s m b e p full small = elim (Bool-cases (d.received_data + 1 == m.size)) [
    | inl q ↦ rw q tt
    | inr q ↦
        rw (q, e) (inl (ground arith), length-memcpy m.bytes d.received_data (b ∷ []) ∙ full, small)
  ]

  feed_data-IsValid :
      (t z r : ℕ) (m : Option Message) (s : S) (b : ℕ)
      → Receiving receiving_data r m
      → let d : MessageDecoder = record {
        state = receiving_data;
        temp_type = t;
        temp_size1 = z;
        received_data = r;
        message = m;
      } in
        IsValid (feed_data junk dispatch d s m b).0
  unfolding feed_data
  feed_data-IsValid t z r none s b v = absurd v
  feed_data-IsValid t z r (some m) s b v = elim (Bool-cases (m.size == 0)) [
    | inl q ↦ rw q (header_byte-IsValid junk start (done t z r m) b (λ e. cc) refl)
    | inr q ↦ rw q (data_byte-IsValid (mid t z r m) s m b refl (room v.0 q) v.1 v.2)
  ]
    where
      room : (r < m.size) ⊎ ((m.size ≡ 0) × (r ≡ 0)) → (m.size == 0) ≡ false → r < m.size
      room (inl p) q = p
      room (inr (e, _)) q = ground arith

  feed-IsValid :
      (st : DecoderState) (d : MessageDecoder) (s : S) (b : ℕ)
      → d.state ≡ st
      → IsValid d
      → IsValid (feed_in junk dispatch st (d, s) b).0
  unfolding feed_in feed_data
  feed-IsValid start d s b e v = header_byte-IsValid junk start d b (λ q. cc) e
  feed-IsValid magic1_found d s b e v = header_byte-IsValid junk magic1_found d b (λ q. cc) e
  feed-IsValid magic2_found d s b e v = header_byte-IsValid junk magic2_found d b (λ q. cc) e
  feed-IsValid type_received d s b e v = header_byte-IsValid junk type_received d b (λ q. cc) e
  feed-IsValid size1_received d s b e v = header_byte-IsValid junk size1_received d b (λ q. cc) e
  feed-IsValid receiving_data d s b e v =
      feed_of d.state d.temp_type d.temp_size1 d.received_data d.message e v
    where
      feed_of :
          (st : DecoderState) (t z r : ℕ) (m : Option Message)
          → st ≡ receiving_data
          → Receiving st r m
          → IsValid
              (feed_data junk dispatch
                (record {
                  state = st;
                  temp_type = t;
                  temp_size1 = z;
                  received_data = r;
                  message = m;
                })
                s
                m
                b).0
      feed_of receiving_data t z r m e v = feed_data-IsValid t z r m s b v
      feed_of _ t z r m e v = cc

  feeds-IsValid :
      (bytes : List ℕ) (p : State junk dispatch)
      → IsValid p.0
      → IsValid (foldl (feed junk dispatch) p bytes).0
  unfolding feed
  feeds-IsValid [] p v = v
  feeds-IsValid (b ∷ bytes) (d, s) v = feeds-IsValid bytes _ (feed-IsValid d.state d s b refl v)

  -- Every call keeps the decoder valid: while it waits for data it has a message with room.
  pub decode-IsValid :
      (d : MessageDecoder) (s : S) (bytes : List ℕ)
      → IsValid d
      → IsValid (decode junk dispatch d s bytes).0
  decode-IsValid d s bytes v =
      rw (decode-feed junk dispatch d s bytes v) (feeds-IsValid bytes (d, s) v)

  -- A stream cut in two anywhere, between any two bytes, is decoded by a valid decoder as the
  -- whole: the same messages go to the handler in the same order, and the decoder ends in the same
  -- state.
  pub decode-append :
      (d : MessageDecoder) (s : S) (xs ys : List ℕ)
      → IsValid d
      → let (d', s') = decode junk dispatch d s xs in
        decode junk dispatch d s (xs ++ ys) ≡ decode junk dispatch d' s' ys
  decode-append d s xs ys v =
      decode-feed junk dispatch d s (xs ++ ys) v
      ∙ foldl-append (feed junk dispatch) (d, s) xs ys
      ∙ rw (← decode-feed junk dispatch d s xs v)
          (sym (decode-feed junk dispatch _ _ ys (decode-IsValid d s xs v)))
