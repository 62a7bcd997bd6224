-- ===== src/MessageDecoder/Frames.antt =====
-- What a well-formed frame does to the decoder, wherever the reads cut it.
use camera_controller.Base.Bits.{bit_or_bytes}
use camera_controller.Base.{
  ℕ, suc, ◌/◌, ◌^◌, ◌<◌, ◌≡◌, ◌≢◌, refl, ap, sym, ◌∙◌, Option, List, [], ◌∷◌, ◌++◌, length, memcpy,
  arith, foldl, foldl-append, length-memcpy, All, ne-beq_false, list_ext, get_or-memcpy, u8,
}
use camera_controller.Message.{Message, magic_word_1, magic_word_2}
use camera_controller.MessageDecoder.{
  start, MessageDecoder, header_byte, decode, size_of_bytes, new_message, filled,
}
use camera_controller.MessageDecoder.Automaton.{
  IsValid, feed, feed_in, feed_data, mid, done, feed_all,
}
use camera_controller.MessageDecoder.Stream.{decode-feed}
use camera_controller.MessageDecoder.Stream.Header.{length-filled}

-- `|MAGIC_WORD1|MAGIC_WORD2|TYPE|SIZE|DATA...|`, with the size in two bytes, low byte first.
abbrev pub header : ℕ → ℕ → List ℕ
header type size = magic_word_1 ∷ magic_word_2 ∷ type ∷ u8 size ∷ u8 (size / 2 ^ 8) ∷ []

abbrev pub frame : ℕ → List ℕ → List ℕ
frame type payload = header type (length payload) ++ payload

size_of_bytes-split : (n : ℕ) → n < 2 ^ 16 → size_of_bytes (u8 n) (u8 (n / 2 ^ 8)) ≡ n
unfolding size_of_bytes
size_of_bytes-split n h = rw (bit_or_bytes (u8 (n / 2 ^ 8)) (u8 n) (omega arith)) (omega arith)

-- A copy over the whole of an array leaves the bytes copied.
memcpy_whole : (xs bytes : List ℕ) → length bytes ≡ length xs → memcpy xs 0 bytes ≡ bytes
memcpy_whole xs bytes h =
    list_ext 0 _ _ (omega (arith, length-memcpy xs 0 bytes))
      λ i lt. ground (arith, get_or-memcpy xs 0 bytes i 0, length-memcpy xs 0 bytes)

pub idle-IsValid : (d : MessageDecoder) → d.state ≡ start → IsValid d
idle-IsValid d e = rw e tt

module _ {ℓ} {S : Type ℓ} (junk : ℕ → ℕ) (dispatch : Message → S → S) where
  abbrev pub sent : ℕ → List ℕ → Message
  sent type payload = record { type = type; size = length payload; bytes = payload }

  feed-header_of :
      (t z r type size : ℕ) (m : Option Message) (s : S)
      → size < 2 ^ 16
      → let d : MessageDecoder = record {
        state = start;
        temp_type = t;
        temp_size1 = z;
        received_data = r;
        message = m;
      } in
        foldl (feed junk dispatch) (d, s) (header type size)
        ≡ (mid type (u8 size) 0 (new_message junk type size), s)
  unfolding feed feed_in header_byte
  feed-header_of t z r type size m s h = rw (size_of_bytes-split size h)

  feed-header :
      (d : MessageDecoder) (s : S) (type size : ℕ)
      → d.state ≡ start
      → size < 2 ^ 16
      → foldl (feed junk dispatch) (d, s) (header type size)
        ≡ (mid type (u8 size) 0 (new_message junk type size), s)
  feed-header d s type size e h =
      ap (λ st. foldl (feed junk dispatch) (record d { state = st }, s) (header type size)) e
      ∙ feed-header_of d.temp_type d.temp_size1 d.received_data type size d.message s h

  -- The decoder after a frame: idle again, with the message that it handed over.
  abbrev pub after_frame : ℕ → List ℕ → MessageDecoder
  after_frame type payload = done type (u8 (length payload)) (length payload) (sent type payload)

  -- A frame with 1 to 65535 data bytes, met between messages: exactly its message is handed over,
  -- once, when its last byte is in, and the decoder waits for the next frame.
  pub decode-frame :
      (d : MessageDecoder) (s : S) (type b : ℕ) (payload : List ℕ)
      → d.state ≡ start
      → suc (length payload) < 2 ^ 16
      → decode junk dispatch d s (frame type (b ∷ payload))
        ≡ (after_frame type (b ∷ payload), dispatch (sent type (b ∷ payload)) s)
  unfolding new_message
  decode-frame d s type b payload e h =
      decode-feed junk dispatch d s (frame type (b ∷ payload)) (idle-IsValid d e)
      ∙ foldl-append (feed junk dispatch) (d, s) (header type (suc (length payload))) (b ∷ payload)
      ∙ ap (λ p. foldl (feed junk dispatch) p (b ∷ payload))
          (feed-header d s type (suc (length payload)) e h)
      ∙ feed_all junk dispatch type (u8 (suc (length payload))) s 0
          (new_message junk type (suc (length payload))) b payload (omega arith)
      ∙ rw (
          memcpy_whole (filled (suc (length payload)) junk) (b ∷ payload)
            (sym (length-filled (suc (length payload)) junk)))

  feed-noise :
      (d : MessageDecoder) (s : S) (b : ℕ)
      → d.state ≡ start
      → b ≢ magic_word_1
      → feed junk dispatch (d, s) b ≡ (d, s)
  unfolding feed feed_in header_byte
  feed-noise d s b e h =
      ap (λ st. feed_in junk dispatch st (d, s) b) e ∙ rw (ne-beq_false b magic_word_1 h)

  -- Between messages, bytes other than the first magic word change nothing.
  pub decode-noise :
      (d : MessageDecoder) (s : S) (noise : List ℕ)
      → d.state ≡ start
      → All (λ b. b ≢ magic_word_1) noise
      → decode junk dispatch d s noise ≡ (d, s)
  decode-noise d s noise e h =
      decode-feed junk dispatch d s noise (idle-IsValid d e) ∙ quiet noise h
    where
      quiet :
          (noise : List ℕ)
          → All (λ b. b ≢ magic_word_1) noise
          → foldl (feed junk dispatch) (d, s) noise ≡ (d, s)
      quiet [] h = refl
      quiet (b ∷ noise) h = rw (feed-noise d s b e h.0) (quiet noise h.1)

  -- A frame that announces no data is not handed over at its end: the byte after it does that, and is
  -- then taken as the first byte of what follows.
  pub decode-frame_empty :
      (d : MessageDecoder) (s : S) (type b : ℕ) (rest : List ℕ)
      → d.state ≡ start
      → ((decode junk dispatch d s (frame type [])).1 ≡ s)
        × (decode junk dispatch d s (frame type [] ++ b ∷ rest)
            ≡ decode junk dispatch (after_frame type []) (dispatch (sent type []) s) (b ∷ rest))
  unfolding new_message feed feed_in feed_data
  decode-frame_empty d s type b rest e = (
    ap (λ q. q.1)
        (decode-feed junk dispatch d s (header type 0) (idle-IsValid d e)
          ∙ feed-header d s type 0 e (omega arith)),
    decode-feed junk dispatch d s (header type 0 ++ b ∷ rest) (idle-IsValid d e)
        ∙ ap (λ p. foldl (feed junk dispatch) p (b ∷ rest)) (feed-header d s type 0 e (omega arith))
        ∙ sym (
            decode-feed junk dispatch (after_frame type []) (dispatch (sent type []) s) (b ∷ rest)
              tt),
  )
