-- ===== src/MessageEncoder/RoundTrip.antt =====
-- What a decoder at the other end makes of `sendLog`.
use camera_controller.Base.{
  ℕ, ◌^◌, ◌<◌, ◌≡◌, refl, sym, subst, ap, ◌∙◌, List, [], ◌∷◌, length, arith, foldl, All,
}
use camera_controller.Message.{Message, msgtype_log, msg_max_length}
use camera_controller.MessageDecoder.{MessageDecoder, start, decode}
use camera_controller.MessageDecoder.Frames.{frame, after_frame, decode-frame}
use camera_controller.MessageEncoder.{MessageEncoder, send_log}
use camera_controller.MessageEncoder.Chunks.{
  chunks, joined, joined-chunks, chunks-fit, send_log-chunks,
}

module _ {ℓ} {S : Type ℓ} (junk : ℕ → ℕ) (dispatch : Message → S → S) where
  -- The bytes of each `sendData` go straight to the decoder.
  abbrev pub to_decoder : List ℕ → MessageDecoder × S → MessageDecoder × S
  to_decoder bytes (d, s) = decode junk dispatch d s bytes

  abbrev pub deliver : S → List ℕ → S
  deliver s chunk = dispatch (record { type = msgtype_log; size = length chunk; bytes = chunk }) s

  -- From `p`, the frames of the chunks hand over what `deliver` does from `s`.
  abbrev pub Delivered : S → List (List ℕ) → MessageDecoder × S → Type ℓ
  Delivered s cs p =
      let (d', s') = foldl (λ p c. to_decoder (frame msgtype_log c) p) p cs in
      (d'.state ≡ start) × (s' ≡ foldl deliver s cs)

  pub decode-frames :
      (cs : List (List ℕ)) (d : MessageDecoder) (s : S)
      → d.state ≡ start
      → All (λ c. (0 < length c) × (length c < 2 ^ 16)) cs
      → Delivered s cs (d, s)
  decode-frames [] d s e fit = (e, refl)
  decode-frames ([] ∷ cs) d s e fit = absurd (omega (arith, fit.0.0))
  decode-frames ((b ∷ c) ∷ cs) d s e fit =
      subst (Delivered (deliver s (b ∷ c)) cs)
        (sym (decode-frame junk dispatch d s msgtype_log b c e fit.0.1))
        (decode-frames cs (after_frame junk dispatch msgtype_log (b ∷ c)) (deliver s (b ∷ c)) refl
          fit.1)

  -- A decoder that waits for a frame and is given what `sendLog` sends, from a buffer of
  -- MSG_MAX_LENGTH bytes, hands over log messages whose data, joined in order, is the text, each
  -- with 1 to 65535 bytes, and waits for a frame again.
  pub decode-send_log :
      (buf : MessageEncoder) (d : MessageDecoder) (s : S) (str : List ℕ)
      → length buf ≡ msg_max_length
      → d.state ≡ start
      → let (d', s') = (send_log to_decoder buf (d, s) str).0.1 in
        let cs = chunks (length str) str in
        (d'.state ≡ start)
        × (s' ≡ foldl deliver s cs)
        × (joined cs ≡ str)
        × All (λ c. (0 < length c) × (length c < 2 ^ 16)) cs
  decode-send_log buf d s str h e =
      let sent = (send_log-chunks to_decoder buf (d, s) str h).0 in
      let fit = chunks-fit (length str) str in
      let seen = decode-frames (chunks (length str) str) d s e fit in
      (
        ap (λ p. p.0.state) sent ∙ seen.0,
        ap (λ p. p.1) sent ∙ seen.1,
        joined-chunks (length str) str (omega arith),
        fit,
      )
