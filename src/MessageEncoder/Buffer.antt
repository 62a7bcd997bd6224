-- ===== src/MessageEncoder/Buffer.antt =====
-- `sendLog` writes within its buffer, which keeps its size.
use camera_controller.Base.{
  ℕ, zero, suc, ◌≡◌, refl, ◌∙◌, List, [], ◌∷◌, length, length-memcpy, ltb, Bool-cases, inl, inr,
  ◌-◌,
}
use camera_controller.Message.{msg_header_size}
use camera_controller.MessageEncoder.{MessageEncoder, put_at, fill, next_size, send_loop, send_log}

length-put_at : (buf : MessageEncoder) (i x : ℕ) → length (put_at buf i x) ≡ length buf
length-put_at buf i x = length-memcpy buf i (x ∷ [])

length-fill :
    (buf : MessageEncoder) (str : List ℕ) (consumed size : ℕ)
    → length (fill buf str consumed size) ≡ length buf
unfolding fill
length-fill buf str consumed size =
    length-memcpy _ msg_header_size _ ∙ length-put_at _ 4 _ ∙ length-put_at buf 3 _

module _ {T : Type 0} (send_data : List ℕ → T → T) where
  length-send_loop :
      (fuel : ℕ) (buf : MessageEncoder) (t : T) (str : List ℕ) (consumed : ℕ)
      → length (send_loop send_data fuel buf t str consumed).0 ≡ length buf
  unfolding send_loop
  length-send_loop zero buf t str consumed = refl
  length-send_loop (suc fuel) buf t str consumed =
      let size = next_size (length str - consumed) in
      elim (Bool-cases (ltb consumed (length str))) [
        | inl more ↦
            rw (more, send_loop)
              (length-send_loop fuel _ _ str _ ∙ length-fill buf str consumed size)
        | inr ended ↦ rw (ended, send_loop) refl
      ]

  pub length-send_log :
      (buf : MessageEncoder) (t : T) (str : List ℕ)
      → length (send_log send_data buf t str).0.0 ≡ length buf
  unfolding send_log
  length-send_log buf t str =
      length-send_loop (length str) _ t str 0
      ∙ length-put_at _ 2 _
      ∙ length-put_at _ 1 _
      ∙ length-put_at buf 0 _
