-- ===== src/TcpStream/Lossless.antt =====
-- Everything that is written to the stream is sent, in order, in pieces that fit the buffer.
use camera_controller.Base.{
  ℕ, ◌≤◌, ◌<◌, ◌≡◌, refl, sym, ap, ◌∙◌, List, [], ◌∷◌, ◌++◌, append-nil, append_assoc, ltb, length,
  length-append, All, arith, true, Bool-cases, inl, inr,
}
use camera_controller.TcpStream.{NetStreamBuf, send, sync, overflow, sputc, write}

-- An encoder that collects the texts it is given, joined, and their lengths.
pub record Collected : Type 0 where
  pub text : List ℕ
  pub lengths : List ℕ

abbrev pub collect : List ℕ → Collected → Collected
collect str c = record { text = c.text ++ str; lengths = length str ∷ c.lengths }

-- The place between `pptr()` and the end of the array is never used up.
abbrev pub IsValid : NetStreamBuf Collected → Type 0
IsValid s = (length s.buf < 2048) × All (λ n. n ≤ 2048) s.encoder.lengths

-- What is sent and what waits in the buffer.
abbrev pub written : NetStreamBuf Collected → List ℕ
written s = s.encoder.text ++ s.buf

sputc-written :
    (ch : ℕ) (s : NetStreamBuf Collected)
    → IsValid s
    → IsValid (sputc collect ch s) × (written (sputc collect ch s) ≡ written s ++ ch ∷ [])
unfolding sputc overflow send
sputc-written ch s v = elim (Bool-cases (ltb (length s.buf) 2047)) [
  | inl e ↦
      rw (e, sputc)
        (
          (omega (arith, length-append s.buf (ch ∷ []), below e), v.1),
          sym (append_assoc s.encoder.text s.buf (ch ∷ [])),
        )
  | inr e ↦
      rw (e, sputc)
        (
          ((omega arith, (omega (arith, v.0, length-append s.buf (ch ∷ [])), v.1))),
          append-nil _ ∙ sym (append_assoc s.encoder.text s.buf (ch ∷ [])),
        )
]
  where
    below : ltb (length s.buf) 2047 ≡ true → length s.buf < 2047
    below e = ground arith

-- Whatever is written to a stream with room left in its array, whose texts had at most 2048
-- characters each: the array of 2048 characters is never overrun, and the texts given to the
-- encoder, joined, followed by what waits in the buffer, are those of before followed by the text;
-- each is at most 2048 characters long.
pub write-written :
    (text : List ℕ) (s : NetStreamBuf Collected)
    → IsValid s
    → IsValid (write collect text s) × (written (write collect text s) ≡ written s ++ text)
unfolding write
write-written [] s v = (v, sym (append-nil (written s)))
write-written (ch ∷ text) s v =
    let (v', e) = sputc-written ch s v in
    let (v'', e') = write-written text (sputc collect ch s) v' in
    (v'', e' ∙ ap (λ xs. xs ++ text) e ∙ append_assoc (written s) (ch ∷ []) text)

-- After a flush nothing waits: all that was written is sent.
pub sync-write :
    (text : List ℕ) (s : NetStreamBuf Collected)
    → IsValid s
    → ((sync collect (write collect text s)).encoder.text ≡ written s ++ text)
      × ((sync collect (write collect text s)).buf ≡ [])
unfolding sync send
sync-write text s v = ((write-written text s v).1, refl)
