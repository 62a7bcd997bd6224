-- ===== src/MessageDecoder.antt =====
-- src/communication/MessageDecoder.{h,cpp}: the state machine that cuts the received bytes into
-- messages. `dispatch` (the message handler) is a function on a state `S`, given as a parameter, and
-- `junk` is what `new uint8_t[size]` finds in the memory that it allocates.
pub mod Automaton
pub mod Stream
pub mod Split
pub mod Frames
use Prim.Native.Nat.{bit_or}
use camera_controller.Base.{
  ℕ, zero, suc, min, ◌+◌, ◌-◌, ◌*◌, ◌%◌, ◌^◌, Bool, true, false, Option, none, some, List, [], ◌∷◌,
  ◌++◌, ltb, ◌==◌, if◌then◌else◌, length, take, drop, memcpy, u16, u32, sub32,
}
use camera_controller.Message.{Message, magic_word_1, magic_word_2}

pub data DecoderState : Type 0 where
  start magic1_found magic2_found type_received size1_received receiving_data : DecoderState

pub record MessageDecoder : Type 0 where
  pub state : DecoderState
  pub temp_type : ℕ
  pub temp_size1 : ℕ
  pub received_data : ℕ
  pub message : Option Message

unfoldable pub init : MessageDecoder
init = record { state = start; temp_type = 0; temp_size1 = 0; received_data = 0; message = none }

-- `f 0, …, f (n - 1)`: an array filled by index.
abbrev pub filled : ℕ → (ℕ → ℕ) → List ℕ
filled zero f = []
filled (suc n) f = f 0 ∷ filled n (λ i. f (suc i))

-- The two size bytes, little endian: `data[i] << 8 | (uint16_t)temp_size1`.
unfoldable pub size_of_bytes : ℕ → ℕ → ℕ
size_of_bytes low high = u16 (bit_or (high * 2 ^ 8) low)

module _ (junk : ℕ → ℕ) where
  -- `new Message(temp_type, size)`
  unfoldable pub new_message : ℕ → ℕ → Message
  new_message type size = record { type = type; size = size; bytes = filled size junk }

  -- The cases of the `switch` that look at one byte.
  unfoldable pub header_byte : DecoderState → MessageDecoder → ℕ → MessageDecoder
  header_byte start d b = if b == magic_word_1 then record d { state = magic1_found } else d
  header_byte magic1_found d b =
      if b == magic_word_2 then record d { state = magic2_found } else record d { state = start }
  header_byte magic2_found d b = record d { temp_type = b; state = type_received }
  header_byte type_received d b = record d { temp_size1 = b; state = size1_received }
  header_byte size1_received d b = record d {
    message = some (new_message d.temp_type (size_of_bytes d.temp_size1 b));
    received_data = 0;
    state = receiving_data;
  }
  header_byte receiving_data d b = d

module _ {ℓ} {S : Type ℓ} (dispatch : Message → S → S) where
  -- The case RECEIVING_DATA on the bytes `rest = data[i .. len)`: the new states, and by how much `i`
  -- has grown when the loop goes round.
  unfoldable pub receive_chunk : MessageDecoder → S → Message → List ℕ → MessageDecoder × S × ℕ
  receive_chunk d s m rest =
      let sz = min (length rest) (sub32 m.size d.received_data) in
      let m' = record m { bytes = memcpy m.bytes d.received_data (take sz rest) } in
      let received = u32 (d.received_data + sz) in
      let d' = record d { message = some m'; received_data = received } in
      if received == m.size then (record d' { state = start }, dispatch m' s, sz) else (d', s, sz)

  -- RECEIVING_DATA dereferences `message`, which is never null there (`Stream.IsValid`).
  unfoldable pub receiving : MessageDecoder → S → Option Message → List ℕ → MessageDecoder × S × ℕ
  receiving d s (some m) rest = receive_chunk d s m rest
  receiving d s none rest = (d, s, 1)

module _ {ℓ} {S : Type ℓ} (junk : ℕ → ℕ) (dispatch : Message → S → S) where
  -- One round of the loop, at `data[i] = b` with `rest` behind it.
  unfoldable pub round : DecoderState → MessageDecoder → S → ℕ → List ℕ → MessageDecoder × S × ℕ
  round receiving_data d s b rest = receiving dispatch d s d.message (b ∷ rest)
  round start d s b rest = (header_byte junk start d b, s, 1)
  round magic1_found d s b rest = (header_byte junk magic1_found d b, s, 1)
  round magic2_found d s b rest = (header_byte junk magic2_found d b, s, 1)
  round type_received d s b rest = (header_byte junk type_received d b, s, 1)
  round size1_received d s b rest = (header_byte junk size1_received d b, s, 1)

  -- The loop `for (size_t i = 0; i < len; i++)` over the bytes that are left. A round that finishes a
  -- message of size 0 consumes nothing, so there are at most two rounds to a byte.
  unfoldable pub decode_loop : ℕ → MessageDecoder → S → List ℕ → MessageDecoder × S
  decode_loop zero d s rest = (d, s)
  decode_loop (suc fuel) d s [] = (d, s)
  decode_loop (suc fuel) d s (b ∷ rest) =
      let (d', s', n) = round d.state d s b rest in decode_loop fuel d' s' (drop n (b ∷ rest))

  -- `decode(data, len)`
  unfoldable pub decode : MessageDecoder → S → List ℕ → MessageDecoder × S
  decode d s bytes = decode_loop (2 * length bytes) d s bytes
