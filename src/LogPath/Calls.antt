-- ===== src/LogPath/Calls.antt =====
-- What the stream makes the encoder give to `sendData`.
use mathlib.Core.List.{map-append}
use camera_controller.Base.{
  ℕ, ◌^◌, ◌<◌, ◌≡◌, refl, sym, ap, subst, ◌∙◌, map, List, [], ◌∷◌, ◌++◌, append-nil, append_assoc,
  foldl, ltb, length, All, arith, Bool-cases, inl, inr,
}
use camera_controller.Message.{msgtype_log, msg_max_length}
use camera_controller.MessageDecoder.Frames.{frame}
use camera_controller.MessageEncoder.{MessageEncoder}
use camera_controller.MessageEncoder.Chunks.{
  chunks, joined, joined-chunks, chunks-fit, send_log-chunks,
}
use camera_controller.MessageEncoder.Buffer.{length-send_log}
use camera_controller.TcpStream.{NetStreamBuf, send, sync, overflow, sputc, write}
use camera_controller.LogPath.{Encoding, record_call, encode}

-- The texts of the frames: not empty, and within the two size bytes.
abbrev pub Fit : List (List ℕ) → Type 0
Fit = All (λ c. (0 < length c) × (length c < 2 ^ 16))

-- Joining, framing and `Fit` of one list of texts after another.
joined-append : (xs ys : List (List ℕ)) → joined (xs ++ ys) ≡ joined xs ++ joined ys
unfolding joined
joined-append [] ys = refl
joined-append (x ∷ xs) ys = rw (joined-append xs ys, append_assoc)

Fit-append : (xs ys : List (List ℕ)) → Fit xs → Fit ys → Fit (xs ++ ys)
Fit-append [] ys h k = k
Fit-append (x ∷ xs) ys h k = (h.0, Fit-append xs ys h.1 k)

frames-record_call :
    (cs calls : List (List ℕ))
    → foldl (λ t chunk. record_call (frame msgtype_log chunk) t) calls cs
      ≡ calls ++ map (frame msgtype_log) cs
frames-record_call [] calls = sym (append-nil calls)
frames-record_call (c ∷ cs) calls =
    frames-record_call cs (record_call (frame msgtype_log c) calls)
    ∙ append_assoc calls (frame msgtype_log c ∷ []) (map (frame msgtype_log) cs)

module _ (str : List ℕ) (e : Encoding) (size : length e.buf ≡ msg_max_length) where
  pub encode-calls :
      (encode str e).calls ≡ e.calls ++ map (frame msgtype_log) (chunks (length str) str)
  encode-calls =
      (send_log-chunks record_call e.buf e.calls str size).0
      ∙ frames-record_call (chunks (length str) str) e.calls

  pub length-encode : length (encode str e).buf ≡ msg_max_length
  length-encode = length-send_log record_call e.buf e.calls str ∙ size

-- The stream `s` has sent the frames of some texts, and these, joined, and what waits in its buffer are
-- the text `written` so far.
record Sent (written : List ℕ) (s : NetStreamBuf Encoding) : Type 0 where
  texts : List (List ℕ)
  calls : s.encoder.calls ≡ map (frame msgtype_log) texts
  all : joined texts ++ s.buf ≡ written
  fit : Fit texts
  size : length s.encoder.buf ≡ msg_max_length

send-Sent :
    {written : List ℕ} (s : NetStreamBuf Encoding) → Sent written s → Sent written (send encode s)
unfolding send
send-Sent s sent =
    let str = s.buf in
    let cs = chunks (length str) str in
    record {
      texts = sent.texts ++ cs;
      calls =
          encode-calls str s.encoder sent.size
          ∙ ap (λ l. l ++ map (frame msgtype_log) cs) sent.calls
          ∙ sym (map-append (frame msgtype_log) sent.texts cs);
      all =
          append-nil _
          ∙ joined-append sent.texts cs
          ∙ ap (λ l. joined sent.texts ++ l) (joined-chunks (length str) str (omega arith))
          ∙ sent.all;
      fit = Fit-append sent.texts cs sent.fit (chunks-fit (length str) str);
      size = length-encode str s.encoder sent.size;
    }

sputc-Sent :
    {written : List ℕ} (ch : ℕ) (s : NetStreamBuf Encoding)
    → Sent written s
    → Sent (written ++ ch ∷ []) (sputc encode ch s)
unfolding sputc overflow
sputc-Sent {written} ch s sent = elim (Bool-cases (ltb (length s.buf) 2047)) [
  | inl room ↦ rw (room, sputc) stored
  | inr full ↦ rw (full, sputc) (send-Sent (record s { buf = s.buf ++ ch ∷ [] }) stored)
]
  where
    stored : Sent (written ++ ch ∷ []) (record s { buf = s.buf ++ ch ∷ [] })
    stored = record {
      texts = sent.texts;
      calls = sent.calls;
      all =
          sym (append_assoc (joined sent.texts) s.buf (ch ∷ [])) ∙ ap (λ l. l ++ ch ∷ []) sent.all;
      fit = sent.fit;
      size = sent.size;
    }

write-Sent :
    {written : List ℕ} (text : List ℕ) (s : NetStreamBuf Encoding)
    → Sent written s
    → Sent (written ++ text) (write encode text s)
unfolding write
write-Sent {written} [] s sent = rw (append-nil written) sent
write-Sent {written} (ch ∷ text) s sent =
    subst (λ l. Sent l (write encode text (sputc encode ch s)))
      (append_assoc written (ch ∷ []) text)
      (write-Sent text (sputc encode ch s) (sputc-Sent ch s sent))

-- A stream over an encoder that has sent nothing.
abbrev pub fresh : MessageEncoder → NetStreamBuf Encoding
fresh buf = record { buf = []; encoder = record { buf = buf; calls = [] } }

-- The calls of `sendData` that a text written to a fresh stream and a flush lead to are frames of log
-- messages, none empty, whose data, joined in order, is the text.
pub sync-calls :
    (buf : MessageEncoder) (text : List ℕ)
    → length buf ≡ msg_max_length
    → (texts : List (List ℕ)) × ((sync encode (write encode text (fresh buf))).encoder.calls
        ≡ map (frame msgtype_log) texts)
      × (joined texts ≡ text)
      × Fit texts
unfolding sync send joined
sync-calls buf text size =
    let sent = send-Sent _ (write-Sent text (fresh buf) start) in
    (sent.texts, sent.calls, sym (append-nil _) ∙ sent.all, sent.fit)
  where
    start : Sent [] (fresh buf)
    start = record { texts = []; calls = refl; all = refl; fit = tt; size = size }
