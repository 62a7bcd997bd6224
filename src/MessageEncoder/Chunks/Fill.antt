-- ===== src/MessageEncoder/Chunks/Fill.antt =====
-- One frame in the buffer of the encoder.
use camera_controller.Base.{
  ℕ, suc, min, ◌+◌, ◌-◌, ◌/◌, ◌^◌, ◌≤◌, ◌≡◌, refl, ap, sym, ◌∙◌, List, [], ◌∷◌, length, take, drop,
  memcpy, arith, length-take, length-drop, memcpy_nil, length-memcpy, u8,
}
use camera_controller.Message.{magic_word_1, magic_word_2, msgtype_log, msg_header_size}
use camera_controller.MessageEncoder.{MessageEncoder, next_size, fill}
use camera_controller.MessageDecoder.Frames.{frame}

-- A buffer of MSG_MAX_LENGTH bytes with the first three header bytes of a log frame in place.
pub record IsReady (buf : MessageEncoder) : Type 0 where
  pub low : ℕ
  pub high : ℕ
  pub rest : List ℕ
  pub shape : buf ≡ magic_word_1 ∷ magic_word_2 ∷ msgtype_log ∷ low ∷ high ∷ rest
  pub room : length rest ≡ 0xffff

-- The start of an array after a copy to its start.
take-memcpy :
    (xs bytes : List ℕ) → length bytes ≤ length xs → take (length bytes) (memcpy xs 0 bytes) ≡ bytes
unfolding memcpy
take-memcpy xs [] h = refl
take-memcpy [] (b ∷ bytes) h = absurd (omega arith)
take-memcpy (x ∷ xs) (b ∷ bytes) h = ap (◌∷◌ b) (take-memcpy xs bytes (omega arith))

-- The data of the next frame.
abbrev next_data : List ℕ → ℕ → List ℕ
next_data str consumed = take (next_size (length str - consumed)) (drop consumed str)

pub next_size_lem : (left : ℕ) → next_size left ≡ min left 0xffff
unfolding next_size
next_size_lem left = ground arith

pub length-next_data :
    (str : List ℕ) (consumed : ℕ)
    → length (next_data str consumed) ≡ next_size (length str - consumed)
length-next_data str consumed = omega (
  arith,
  next_size_lem (length str - consumed),
  length-take (next_size (length str - consumed)) (drop consumed str),
  length-drop consumed str,
)

-- What one round puts into the buffer and sends.
pub record Filled (buf' : MessageEncoder) (str : List ℕ) (consumed : ℕ) : Type 0 where
  pub ready : IsReady buf'
  pub sends :
      take (next_size (length str - consumed) + msg_header_size) buf'
      ≡ frame msgtype_log (next_data str consumed)

module _ (low high : ℕ) (rest str : List ℕ) (consumed : ℕ) (room : length rest ≡ 0xffff) where
  abbrev size : ℕ
  size = next_size (length str - consumed)

  abbrev chunk : List ℕ
  chunk = next_data str consumed

  fill_shape :
      fill (magic_word_1 ∷ magic_word_2 ∷ msgtype_log ∷ low ∷ high ∷ rest) str consumed size
      ≡ magic_word_1
        ∷ magic_word_2
        ∷ msgtype_log
        ∷ u8 size
        ∷ u8 (size / 2 ^ 8)
        ∷ memcpy rest 0 chunk
  unfolding fill memcpy
  fill_shape =
      ap
        (λ l.
          magic_word_1
          ∷ magic_word_2
          ∷ msgtype_log
          ∷ u8 size
          ∷ u8 (size / 2 ^ 8)
          ∷ memcpy l 0 chunk)
        (memcpy_nil rest 0)

  sent_data : take size (memcpy rest 0 chunk) ≡ chunk
  sent_data =
      let same = length-next_data str consumed in
      ap (λ n. take n (memcpy rest 0 chunk)) (sym same)
      ∙ take-memcpy rest chunk (omega (arith, same, next_size_lem (length str - consumed)))

  fill-Filled_of :
      Filled
        (fill (magic_word_1 ∷ magic_word_2 ∷ msgtype_log ∷ low ∷ high ∷ rest) str consumed size)
        str
        consumed
  fill-Filled_of =
      let five : size + 5 ≡ suc (suc (suc (suc (suc size)))) = omega arith in
      record {
        ready = record {
          low = u8 size;
          high = u8 (size / 2 ^ 8);
          rest = memcpy rest 0 chunk;
          shape = fill_shape;
          room = length-memcpy rest 0 chunk ∙ room;
        };
        sends = rw (fill_shape, five, sent_data, length-next_data str consumed);
      }

pub fill-Filled :
    (buf : MessageEncoder) (str : List ℕ) (consumed : ℕ)
    → IsReady buf
    → Filled (fill buf str consumed (next_size (length str - consumed))) str consumed
fill-Filled buf str consumed r = rw r.shape (fill-Filled_of r.low r.high r.rest str consumed r.room)
