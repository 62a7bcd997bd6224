-- ===== src/MessageDecoder/Stream.antt =====
-- The decoder's loop, with its chunked copies, against the automaton.
pub mod Header
use camera_controller.Base.{
  ℕ, zero, suc, ◌+◌, ◌-◌, ◌*◌, ◌^◌, ◌≤◌, ◌<◌, ◌≡◌, ◌≢◌, refl, ap, sym, ◌∙◌, ◌⊎◌, inl, inr,
  Bool-cases, Option, none, some, List, [], ◌∷◌, ◌==◌, length, take, drop, arith, foldl,
  foldl-append, take-append-drop, length-take, length-drop, drop_all, memcpy_nil,
}
use native.Mathlib.Decide.{dec_lt}
use camera_controller.Message.{Message, magic_word_1, magic_word_2}
use camera_controller.MessageDecoder.{
  DecoderState, start, magic1_found, magic2_found, type_received, size1_received, receiving_data,
  MessageDecoder, filled, size_of_bytes, new_message, header_byte, receiving, round, decode_loop,
  decode,
}
use camera_controller.MessageDecoder.Automaton.{
  Receiving, IsValid, mid, done, with_bytes, feed, feed_in, feed_data, feed_some, feed_all,
  chunk_some, chunk_all,
}
use camera_controller.MessageDecoder.Stream.Header.{
  zero_or_pos, new_message-Receiving, length-filled, size_of_bytes-lt, header_byte-IsValid,
}

module _ {ℓ} {S : Type ℓ} (junk : ℕ → ℕ) (dispatch : Message → S → S) where
  abbrev Agrees : ℕ → MessageDecoder → S → List ℕ → Type ℓ
  Agrees fuel d s bytes =
      decode_loop junk dispatch fuel d s bytes ≡ foldl (feed junk dispatch) (d, s) bytes

  module _ (fuel t z r : ℕ) (m : Message) (s : S) (b : ℕ) (rest : List ℕ)
      (small : m.size < 2 ^ 16) where
    abbrev bytes : List ℕ
    bytes = b ∷ rest

    abbrev last : Message
    last = with_bytes m r (take (m.size - r) bytes)

    loop_some : r + length bytes < m.size → Agrees (suc (suc fuel)) (mid t z r m) s bytes
    unfolding decode_loop round receiving
    loop_some h =
        ap (λ q. decode_loop junk dispatch (suc fuel) q.0 q.1 (drop q.2 bytes))
          (chunk_some junk dispatch t z s r m bytes h small)
        ∙ rw (drop_all (suc (length rest)) bytes (omega arith))
            (sym (feed_some junk dispatch t z s r m bytes h))

    loop_all :
        r ≤ m.size
        → m.size ≤ r + length bytes
        → decode_loop junk dispatch (suc fuel) (mid t z r m) s bytes
          ≡ decode_loop junk dispatch fuel
              (done t z m.size last)
              (dispatch last s)
              (drop (m.size - r) bytes)
    unfolding decode_loop round receiving
    loop_all p q = rw (chunk_all junk dispatch t z s r m bytes p q small)

    feed_through :
        r < m.size
        → m.size ≤ r + length bytes
        → foldl (feed junk dispatch) (mid t z r m, s) bytes
          ≡ foldl
              (feed junk dispatch)
              (done t z m.size last, dispatch last s)
              (drop (m.size - r) bytes)
    feed_through p q =
        ap (foldl (feed junk dispatch) (mid t z r m, s)) (sym (take-append-drop n bytes))
        ∙ foldl-append (feed junk dispatch) (mid t z r m, s) (take n bytes) (drop n bytes)
        ∙ ap (λ q. foldl (feed junk dispatch) q (drop n bytes)) handed_over
      where
        n : ℕ
        n = m.size - r

        first : take n bytes ≡ b ∷ take (n - 1) rest
        first = let e : n ≡ suc (n - 1) = omega arith in ap (λ k. take k bytes) e

        handed_over :
            foldl (feed junk dispatch) (mid t z r m, s) (take n bytes)
            ≡ (done t z m.size last, dispatch last s)
        handed_over = rw first (
            feed_all junk dispatch t z s r m b (take (n - 1) rest)
              (omega (arith, length-take (n - 1) rest)))

    loop_nothing :
        m.size ≡ 0
        → r ≡ 0
        → decode_loop junk dispatch (suc fuel) (mid t z r m) s bytes
          ≡ decode_loop junk dispatch fuel (done t z r m) (dispatch m s) bytes
    loop_nothing e e' =
        let none_left : m.size - r ≡ 0 = omega arith in
        let same : m.size ≡ r = omega arith in
        loop_all (omega arith) (omega arith) ∙ rw (none_left, memcpy_nil, same)

    feed_nothing :
        m.size ≡ 0
        → feed junk dispatch (mid t z r m, s) b
          ≡ (header_byte junk start (done t z r m) b, dispatch m s)
    unfolding feed feed_in feed_data
    feed_nothing e = rw e

  -- With two rounds to a byte the loop does what the automaton does.
  loop-feed :
      (fuel : ℕ) (st : DecoderState) (t z r : ℕ) (m : Option Message) (s : S) (bytes : List ℕ)
      → Receiving st r m
      → 2 * length bytes ≤ fuel
      → Agrees fuel
          (record { state = st; temp_type = t; temp_size1 = z; received_data = r; message = m })
          s
          bytes
  unfolding decode_loop round feed feed_in header_byte
  loop-feed zero st t z r m s [] v h = refl
  loop-feed (suc fuel) st t z r m s [] v h = refl
  loop-feed zero st t z r m s (b ∷ rest) v h = absurd (omega arith)
  loop-feed (suc zero) st t z r m s (b ∷ rest) v h = absurd (omega arith)
  loop-feed (suc (suc fuel)) start t z r m s (b ∷ rest) v h =
      let d =
        header_byte junk start
          (record { state = start; temp_type = t; temp_size1 = z; received_data = r; message = m })
          b in
      loop-feed (suc fuel) d.state d.temp_type d.temp_size1 d.received_data d.message s rest
        (header_byte-IsValid junk start
          (record { state = start; temp_type = t; temp_size1 = z; received_data = r; message = m })
          b (λ e. cc) refl)
        (omega arith)
  loop-feed (suc (suc fuel)) magic1_found t z r m s (b ∷ rest) v h =
      let d =
        header_byte junk magic1_found
          (record {
            state = magic1_found;
            temp_type = t;
            temp_size1 = z;
            received_data = r;
            message = m;
          })
          b in
      loop-feed (suc fuel) d.state d.temp_type d.temp_size1 d.received_data d.message s rest
        (header_byte-IsValid junk magic1_found
          (record {
            state = magic1_found;
            temp_type = t;
            temp_size1 = z;
            received_data = r;
            message = m;
          })
          b (λ e. cc) refl)
        (omega arith)
  loop-feed (suc (suc fuel)) magic2_found t z r m s (b ∷ rest) v h =
      loop-feed (suc fuel) type_received b z r m s rest tt (omega arith)
  loop-feed (suc (suc fuel)) type_received t z r m s (b ∷ rest) v h =
      loop-feed (suc fuel) size1_received t b r m s rest tt (omega arith)
  loop-feed (suc (suc fuel)) size1_received t z r m s (b ∷ rest) v h =
      let d =
        header_byte junk size1_received
          (record {
            state = size1_received;
            temp_type = t;
            temp_size1 = z;
            received_data = r;
            message = m;
          })
          b in
      loop-feed (suc fuel) d.state d.temp_type d.temp_size1 d.received_data d.message s rest
        (header_byte-IsValid junk size1_received
          (record {
            state = size1_received;
            temp_type = t;
            temp_size1 = z;
            received_data = r;
            message = m;
          })
          b (λ e. cc) refl)
        (omega arith)
  loop-feed (suc (suc fuel)) receiving_data t z r none s (b ∷ rest) v h = absurd v
  loop-feed (suc (suc fuel)) receiving_data t z r (some m) s (b ∷ rest) v h = elim v.0 [
    | inl p ↦ elim (dec_lt (r + length (b ∷ rest)) m.size) [
      | yes short ↦ loop_some fuel t z r m s b rest v.2 short
      | no enough ↦
          loop_all (suc fuel) t z r m s b rest v.2 (omega arith) (omega arith)
          ∙ loop-feed (suc fuel) start t z m.size
              (some (with_bytes m r (take (m.size - r) (b ∷ rest))))
              (dispatch (with_bytes m r (take (m.size - r) (b ∷ rest))) s)
              (drop (m.size - r) (b ∷ rest)) tt (omega (arith, length-drop (m.size - r) (b ∷ rest)))
          ∙ sym (feed_through fuel t z r m s b rest v.2 p (omega arith))
    ]
    | inr (e, e') ↦
        let d = header_byte junk start (done t z r m) b in
        loop_nothing (suc fuel) t z r m s b rest v.2 e e'
        ∙ loop-feed fuel d.state d.temp_type d.temp_size1 d.received_data d.message (dispatch m s)
            rest (header_byte-IsValid junk start (done t z r m) b (λ e. cc) refl) (omega arith)
        ∙ ap (λ q. foldl (feed junk dispatch) q rest)
            (sym (feed_nothing fuel t z r m s b rest v.2 e))
  ]

  -- The decoder with its chunked copies, on any valid state and any bytes, is the automaton that
  -- takes one byte at a time.
  pub decode-feed :
      (d : MessageDecoder) (s : S) (bytes : List ℕ)
      → IsValid d
      → decode junk dispatch d s bytes ≡ foldl (feed junk dispatch) (d, s) bytes
  unfolding decode
  decode-feed d s bytes v =
      loop-feed (2 * length bytes) d.state d.temp_type d.temp_size1 d.received_data d.message s
        bytes v (omega arith)
