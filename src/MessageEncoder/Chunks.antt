-- ===== src/MessageEncoder/Chunks.antt =====
-- What `sendLog` sends: one frame for each chunk of the text.
mod Fill
use camera_controller.Base.{
  ℕ, zero, suc, min, ◌+◌, ◌-◌, ◌/◌, ◌^◌, ◌≤◌, ◌<◌, ◌≡◌, refl, ap, sym, ◌∙◌, true, List, [], ◌∷◌,
  ◌++◌, length, take, drop, memcpy, arith, foldl, All, drop-drop, take-append-drop, length-take,
  length-drop, lt→ltb, memcpy_nil, take_cut, drop_cut, take_all, drop_all, le→ltb_false,
  length-memcpy, u8,
}
use native.Mathlib.Decide.{dec_lt}
use camera_controller.Message.{
  magic_word_1, magic_word_2, msgtype_log, msg_header_size, msg_max_length,
}
use camera_controller.MessageEncoder.{MessageEncoder, put_at, next_size, fill, send_loop, send_log}
use camera_controller.MessageDecoder.Frames.{frame}
use camera_controller.MessageEncoder.Chunks.Fill.{
  IsReady, next_size_lem, Filled, fill-Filled, length-next_data,
}

-- The text in pieces of 65535 bytes, the last one with what is left.
unfoldable pub chunks : ℕ → List ℕ → List (List ℕ)
chunks zero str = []
chunks (suc fuel) [] = []
chunks (suc fuel) (x ∷ xs) = take 0xffff (x ∷ xs) ∷ chunks fuel (drop 0xffff (x ∷ xs))

unfoldable pub joined : List (List ℕ) → List ℕ
joined [] = []
joined (xs ∷ xss) = xs ++ joined xss

-- Nothing is lost, repeated or reordered.
pub joined-chunks : (fuel : ℕ) (str : List ℕ) → length str ≤ fuel → joined (chunks fuel str) ≡ str
unfolding chunks joined
joined-chunks zero [] h = refl
joined-chunks zero (x ∷ xs) h = absurd (omega arith)
joined-chunks (suc fuel) [] h = refl
joined-chunks (suc fuel) (x ∷ xs) h =
    rw (joined-chunks fuel (drop 0xffff (x ∷ xs)) (omega (arith, length-drop 0xffff (x ∷ xs))))
      (take-append-drop 0xffff (x ∷ xs))

-- Each piece fits the two size bytes and is not empty.
pub chunks-fit :
    (fuel : ℕ) (str : List ℕ) → All (λ c. (0 < length c) × (length c < 2 ^ 16)) (chunks fuel str)
unfolding chunks
chunks-fit zero str = tt
chunks-fit (suc fuel) [] = tt
chunks-fit (suc fuel) (x ∷ xs) = (
  (omega (arith, length-take 0xffff (x ∷ xs)), omega (arith, length-take 0xffff (x ∷ xs))),
  chunks-fit fuel (drop 0xffff (x ∷ xs)),
)

chunks_step :
    (fuel : ℕ) (l : List ℕ)
    → 0 < length l
    → chunks (suc fuel) l ≡ take 0xffff l ∷ chunks fuel (drop 0xffff l)
unfolding chunks
chunks_step fuel [] h = absurd (omega arith)
chunks_step fuel (x ∷ xs) h = refl

chunks_end : (fuel : ℕ) (l : List ℕ) → length l ≡ 0 → chunks fuel l ≡ []
unfolding chunks
chunks_end zero l h = refl
chunks_end (suc fuel) [] h = refl
chunks_end (suc fuel) (x ∷ xs) h = absurd (omega arith)

-- A text that fits is one piece.
pub chunks_one :
    (str : List ℕ) → 0 < length str → length str ≤ 0xffff → chunks (length str) str ≡ str ∷ []
unfolding chunks
chunks_one [] h k = absurd (omega arith)
chunks_one (x ∷ xs) h k =
    rw (take_all 0xffff (x ∷ xs) k, drop_all 0xffff (x ∷ xs) k, chunks_end (length xs) [] refl) refl

-- The first three writes of `sendLog`.
start-IsReady :
    (buf : MessageEncoder)
    → length buf ≡ msg_max_length
    → IsReady (put_at (put_at (put_at buf 0 magic_word_1) 1 magic_word_2) 2 msgtype_log)
unfolding memcpy
start-IsReady (a ∷ b ∷ c ∷ low ∷ high ∷ rest) h = record {
  low = low;
  high = high;
  rest = rest;
  shape =
      ap (λ l. magic_word_1 ∷ magic_word_2 ∷ msgtype_log ∷ l) (memcpy_nil (low ∷ high ∷ rest) 0);
  room = omega arith;
}
start-IsReady [] h = absurd (omega arith)
start-IsReady (a ∷ []) h = absurd (omega arith)
start-IsReady (a ∷ b ∷ []) h = absurd (omega arith)
start-IsReady (a ∷ b ∷ c ∷ []) h = absurd (omega arith)
start-IsReady (a ∷ b ∷ c ∷ d ∷ []) h = absurd (omega arith)

module _ {ℓ} {T : Type ℓ} (send_data : List ℕ → T → T) where
  abbrev pub sends : T → List (List ℕ) → T
  sends = foldl (λ t chunk. send_data (frame msgtype_log chunk) t)

  -- Enough rounds send the frames of what is left.
  send_loop-chunks :
      (fuel : ℕ) (buf : MessageEncoder) (t : T) (str : List ℕ) (consumed : ℕ)
      → IsReady buf
      → length str - consumed ≤ fuel
      → (send_loop send_data fuel buf t str consumed).1 ≡ sends t (chunks fuel (drop consumed str))
  unfolding send_loop chunks
  send_loop-chunks zero buf t str consumed r h = refl
  send_loop-chunks (suc fuel) buf t str consumed r h = elim (dec_lt consumed (length str)) [
    | yes more ↦
        let size = next_size (length str - consumed) in
        let f = fill-Filled buf str consumed r in
        let left = length-drop consumed str in
        let cut : size ≡ min 0xffff (length (drop consumed str)) =
          omega (arith, left, next_size_lem (length str - consumed)) in
        rw (
          lt→ltb consumed (length str) more,
          send_loop-chunks fuel (fill buf str consumed size)
              (send_data (take (size + msg_header_size) (fill buf str consumed size)) t) str
              (consumed + size) f.ready (omega (arith, next_size_lem (length str - consumed))),
          f.sends,
          chunks_step fuel (drop consumed str) (omega (arith, left)),
          ← drop-drop size consumed str,
          take_cut size 0xffff (drop consumed str) cut,
          drop_cut size 0xffff (drop consumed str) cut,
        )
    | no end ↦ rw (
      le→ltb_false consumed (length str) (omega arith),
      chunks_end (suc fuel) (drop consumed str) (omega (arith, length-drop consumed str)),
    )
  ]

  -- With a buffer of MSG_MAX_LENGTH bytes, `sendLog` gives `sendData` one log frame for each 65535
  -- bytes of the text, in order, and one for the rest; it always returns true.
  pub send_log-chunks :
      (buf : MessageEncoder) (t : T) (str : List ℕ)
      → length buf ≡ msg_max_length
      → let (sent, done) = send_log send_data buf t str in
        (sent.1 ≡ sends t (chunks (length str) str)) × (done ≡ true)
  unfolding send_log
  send_log-chunks buf t str h =
      (send_loop-chunks (length str) _ t str 0 (start-IsReady buf h) (omega arith), refl)
