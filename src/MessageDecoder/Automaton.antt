-- ===== src/MessageDecoder/Automaton.antt =====
-- An automaton that takes one byte at a time, and its runs over the data of a message.
use camera_controller.Base.{
  ℕ, suc, min, ◌+◌, ◌-◌, ◌^◌, ◌≤◌, ◌<◌, ◌≡◌, ◌∙◌, ◌⊎◌, Option, none, some, List, [], ◌∷◌, ◌==◌,
  if◌then◌else◌, length, take, memcpy, u32, sub32, arith, foldl, take_all, memcpy_nil, memcpy_cons,
}
use camera_controller.Message.{Message}
use camera_controller.MessageDecoder.{
  DecoderState, start, magic1_found, magic2_found, type_received, size1_received, receiving_data,
  MessageDecoder, header_byte, receive_chunk,
}

-- While data is being received there is a message, with room left unless it has no data at all.
abbrev pub Receiving : DecoderState → ℕ → Option Message → Type 0
Receiving receiving_data received (some m) =
    (received < m.size ⊎ (m.size ≡ 0) × (received ≡ 0))
    × (length m.bytes ≡ m.size)
    × (m.size < 2 ^ 16)
Receiving receiving_data received none = ⊥
Receiving _ received message = Unit

abbrev pub IsValid : MessageDecoder → Type 0
IsValid d = Receiving d.state d.received_data d.message

-- In the middle of a message, and just after it.
abbrev pub mid : ℕ → ℕ → ℕ → Message → MessageDecoder
mid t z r m = record {
  state = receiving_data;
  temp_type = t;
  temp_size1 = z;
  received_data = r;
  message = some m;
}

abbrev pub done : ℕ → ℕ → ℕ → Message → MessageDecoder
done t z r m = record {
  state = start;
  temp_type = t;
  temp_size1 = z;
  received_data = r;
  message = some m;
}

-- The message after `bytes` are copied in at `r`.
abbrev pub with_bytes : Message → ℕ → List ℕ → Message
with_bytes m r bytes = record m { bytes = memcpy m.bytes r bytes }

module _ {ℓ} {S : Type ℓ} (junk : ℕ → ℕ) (dispatch : Message → S → S) where
  abbrev pub State : Type ℓ
  State = MessageDecoder × S

  -- One data byte; the last one hands the message over.
  unfoldable pub data_byte : MessageDecoder → S → Message → ℕ → State
  data_byte d s m b =
      let m' = record m { bytes = memcpy m.bytes d.received_data (b ∷ []) } in
      let d' = record d { message = some m'; received_data = d.received_data + 1 } in
      if d.received_data + 1 == m.size
      then (record d' { state = start }, dispatch m' s)
      else (d', s)

  -- A message of size 0 is handed over by the byte after it, which then starts the next message.
  unfoldable pub feed_data : MessageDecoder → S → Option Message → ℕ → State
  feed_data d s none b = (d, s)
  feed_data d s (some m) b =
      if m.size == 0
      then (header_byte junk start (record d { state = start }) b, dispatch m s)
      else data_byte d s m b

  unfoldable pub feed_in : DecoderState → State → ℕ → State
  feed_in receiving_data (d, s) b = feed_data d s d.message b
  feed_in start (d, s) b = (header_byte junk start d b, s)
  feed_in magic1_found (d, s) b = (header_byte junk magic1_found d b, s)
  feed_in magic2_found (d, s) b = (header_byte junk magic2_found d b, s)
  feed_in type_received (d, s) b = (header_byte junk type_received d b, s)
  feed_in size1_received (d, s) b = (header_byte junk size1_received d b, s)

  -- The automaton.
  unfoldable pub feed : State → ℕ → State
  feed p b = feed_in p.0.state p b

  module _ (t z : ℕ) (s : S) where
    feed_one :
        (r : ℕ) (m : Message) (b : ℕ)
        → r + 1 < m.size
        → feed (mid t z r m, s) b ≡ (mid t z (r + 1) (with_bytes m r (b ∷ [])), s)
    unfolding feed feed_in feed_data data_byte
    feed_one r m b h = ground arith

    feed_last :
        (r : ℕ) (m : Message) (b : ℕ)
        → r + 1 ≡ m.size
        → feed (mid t z r m, s) b
          ≡ (done t z (r + 1) (with_bytes m r (b ∷ [])), dispatch (with_bytes m r (b ∷ [])) s)
    unfolding feed feed_in feed_data data_byte
    feed_last r m b h = ground arith

    -- Feeding fewer bytes than are missing is one copy.
    pub feed_some :
        (r : ℕ) (m : Message) (bytes : List ℕ)
        → r + length bytes < m.size
        → foldl feed (mid t z r m, s) bytes ≡ (mid t z (r + length bytes) (with_bytes m r bytes), s)
    feed_some r m [] h = let e : r + 0 ≡ r = omega arith in rw (e, memcpy_nil)
    feed_some r m (b ∷ bytes) h =
        let e : r + 1 + length bytes ≡ r + suc (length bytes) = omega arith in
        rw (
          feed_one r m b (omega arith),
          feed_some (r + 1) (with_bytes m r (b ∷ [])) bytes (omega arith),
          memcpy_cons,
          e,
        )

    -- Feeding all that are missing is one copy and the hand-over.
    pub feed_all :
        (r : ℕ) (m : Message) (b : ℕ) (bytes : List ℕ)
        → r + suc (length bytes) ≡ m.size
        → foldl feed (mid t z r m, s) (b ∷ bytes)
          ≡ (done t z m.size (with_bytes m r (b ∷ bytes)), dispatch (with_bytes m r (b ∷ bytes)) s)
    feed_all r m b [] h =
        let e : r + 1 ≡ m.size = omega arith in feed_last r m b (omega arith) ∙ rw e
    feed_all r m b (b' ∷ bytes) h = rw (
      feed_one r m b (omega arith),
      feed_all (r + 1) (with_bytes m r (b ∷ [])) b' bytes (omega arith),
      memcpy_cons,
    )

    -- The two ways through RECEIVING_DATA, on the bytes `rest` that are there.
    pub chunk_some :
        (r : ℕ) (m : Message) (rest : List ℕ)
        → r + length rest < m.size
        → m.size < 2 ^ 16
        → receive_chunk dispatch (mid t z r m) s m rest
          ≡ (mid t z (r + length rest) (with_bytes m r rest), s, length rest)
    unfolding receive_chunk
    chunk_some r m rest h small =
        let sz : min (length rest) (sub32 m.size r) ≡ length rest = omega arith in
        let sum : u32 (r + length rest) ≡ r + length rest = omega arith in
        rw (sz, take_all (length rest) rest (omega arith), sum) (ground arith)

    pub chunk_all :
        (r : ℕ) (m : Message) (rest : List ℕ)
        → r ≤ m.size
        → m.size ≤ r + length rest
        → m.size < 2 ^ 16
        → let last = with_bytes m r (take (m.size - r) rest) in
          receive_chunk dispatch (mid t z r m) s m rest
          ≡ (done t z m.size last, dispatch last s, m.size - r)
    unfolding receive_chunk
    chunk_all r m rest h enough small =
        let sz : min (length rest) (sub32 m.size r) ≡ m.size - r = omega arith in
        let sum : u32 (r + (m.size - r)) ≡ m.size = omega arith in rw (sz, sum) (ground arith)
