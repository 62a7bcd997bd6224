-- ===== src/Logger/Streams.antt =====
-- What `removeStream` does, by where the stream stands.
use camera_controller.Base.{ℕ, ◌≡◌, ◌≢◌, refl, [], ◌∷◌, ◌++◌, All, ◌==◌, ne-beq_false, arith, true}
use camera_controller.Outcome.{ok, fault, past_the_end, ◌>>=◌}
use camera_controller.Logger.{Logger, remove_stream}

-- The stream is not among the entries.
abbrev pub IsAbsent : ℕ → Logger → Type 0
IsAbsent stream = All (λ entry. entry.0 ≢ stream)

pass :
    (stream : ℕ) (entry : ℕ × ℕ) (streams : Logger)
    → entry.0 ≢ stream
    → remove_stream stream (entry ∷ streams)
      ≡ (remove_stream stream streams >>= λ kept. ok (entry ∷ kept))
unfolding remove_stream
pass stream entry [] h = rw (ne-beq_false entry.0 stream h) refl
pass stream entry (next ∷ streams) h = rw (ne-beq_false entry.0 stream h) refl

-- Entries of other streams are kept.
pass_all :
    (stream : ℕ) (before after kept : Logger)
    → IsAbsent stream before
    → remove_stream stream after ≡ ok kept
    → remove_stream stream (before ++ after) ≡ ok (before ++ kept)
pass_all stream [] after kept h e = e
pass_all stream (entry ∷ before) after kept h e =
    rw (pass stream entry (before ++ after) h.0, pass_all stream before after kept h.1 e) refl

pass_fault :
    (stream : ℕ) (before after : Logger)
    → IsAbsent stream before
    → remove_stream stream after ≡ fault past_the_end
    → remove_stream stream (before ++ after) ≡ fault past_the_end
pass_fault stream [] after h e = e
pass_fault stream (entry ∷ before) after h e =
    rw (pass stream entry (before ++ after) h.0, pass_fault stream before after h.1 e) refl

absent-kept :
    (stream : ℕ) (streams : Logger)
    → IsAbsent stream streams
    → remove_stream stream streams ≡ ok streams
unfolding remove_stream
absent-kept stream [] h = refl
absent-kept stream (entry ∷ streams) h =
    rw (pass stream entry streams h.0, absent-kept stream streams h.1) refl

-- `removeStream`, at the first entry of the stream: where an entry `next` follows it, and no later
-- one is of that stream, exactly the first is removed and `next` stays, whichever stream it is of;
-- where no entry follows, the iterator is moved past the end. With no entry of the stream nothing
-- changes.
pub remove_stream_lem :
    (stream level : ℕ) (before after : Logger) (next : ℕ × ℕ)
    → IsAbsent stream before
    → IsAbsent stream after
    → (remove_stream stream (before ++ (stream, level) ∷ next ∷ after)
        ≡ ok (before ++ next ∷ after))
      × (remove_stream stream (before ++ (stream, level) ∷ []) ≡ fault past_the_end)
      × (remove_stream stream before ≡ ok before)
remove_stream_lem stream level before after next h k = (
  pass_all stream before ((stream, level) ∷ next ∷ after) (next ∷ after) h removed,
  pass_fault stream before ((stream, level) ∷ []) h ends,
  absent-kept stream before h,
)
  where
    same : (stream == stream) ≡ true
    same = ground arith

    removed : remove_stream stream ((stream, level) ∷ next ∷ after) ≡ ok (next ∷ after)
    removed = unfold remove_stream in rw (same, absent-kept stream after k) refl

    ends : remove_stream stream ((stream, level) ∷ []) ≡ fault past_the_end
    ends = unfold remove_stream in rw same refl
