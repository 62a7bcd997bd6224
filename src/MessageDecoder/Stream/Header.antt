-- ===== src/MessageDecoder/Stream/Header.antt =====
-- The bytes of the header, and the memory of a new message.
use camera_controller.Base.{
  ℕ, zero, suc, ◌^◌, ◌<◌, ◌≡◌, ◌≢◌, refl, ap, ◌⊎◌, inl, inr, Bool-cases, some, ◌==◌, length, arith,
}
use camera_controller.Message.{magic_word_1, magic_word_2}
use camera_controller.MessageDecoder.{
  DecoderState, start, magic1_found, magic2_found, type_received, size1_received, receiving_data,
  MessageDecoder, filled, size_of_bytes, new_message, header_byte,
}
use camera_controller.MessageDecoder.Automaton.{Receiving, IsValid}

pub length-filled : (n : ℕ) (f : ℕ → ℕ) → length (filled n f) ≡ n
length-filled zero f = refl
length-filled (suc n) f = ap suc (length-filled n (λ i. f (suc i)))

pub size_of_bytes-lt : (low high : ℕ) → size_of_bytes low high < 2 ^ 16
unfolding size_of_bytes
size_of_bytes-lt low high = omega arith

pub zero_or_pos : (n : ℕ) → (0 < n) ⊎ (n ≡ 0)
zero_or_pos zero = inr refl
zero_or_pos (suc n) = inl (omega arith)

module _ (junk : ℕ → ℕ) where
  pub new_message-Receiving :
      (t size : ℕ) → size < 2 ^ 16 → Receiving receiving_data 0 (some (new_message junk t size))
  unfolding new_message
  new_message-Receiving t size h = (fresh (zero_or_pos size), length-filled size junk, h)
    where
      fresh : (0 < size) ⊎ (size ≡ 0) → (0 < size) ⊎ ((size ≡ 0) × (◌≡◌ {A = ℕ} 0 0))
      fresh (inl p) = inl p
      fresh (inr e) = inr (e, refl)

  pub header_byte-IsValid :
      (st : DecoderState) (d : MessageDecoder) (b : ℕ)
      → st ≢ receiving_data
      → d.state ≡ st
      → IsValid (header_byte junk st d b)
  unfolding header_byte
  header_byte-IsValid start d b h e = elim (Bool-cases (b == magic_word_1)) [
    | inl q ↦ rw q tt
    | inr q ↦ rw (q, e) tt
  ]
  header_byte-IsValid magic1_found d b h e = elim (Bool-cases (b == magic_word_2)) [
    | inl q ↦ rw q tt
    | inr q ↦ rw q tt
  ]
  header_byte-IsValid magic2_found d b h e = tt
  header_byte-IsValid type_received d b h e = tt
  header_byte-IsValid size1_received d b h e =
      new_message-Receiving d.temp_type _ (size_of_bytes-lt d.temp_size1 b)
  header_byte-IsValid receiving_data d b h e = absurd (h refl)
