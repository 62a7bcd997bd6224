-- ===== src/LogPath/Lines.antt =====
-- Calls of the logger of src/logger.h, and what they make the network stream, which src/main.cpp
-- gives it, send.
use Prim.Native.String.{String}
use camera_controller.Base.{
  ℕ, ◌+◌, ◌≤◌, ◌<◌, ◌≡◌, refl, sym, ap, subst, ◌∙◌, ◌⊎◌, map, List, [], ◌∷◌, ◌++◌, append-nil,
  append_assoc, length, length-append, All, ◌==◌, if◌then◌else◌, leb, lt→ltb, arith, Bool-cases,
  inl, inr,
}
use camera_controller.Message.{msgtype_log, msg_max_length}
use camera_controller.MessageDecoder.Frames.{frame}
use camera_controller.MessageEncoder.Chunks.{chunks, chunks_one}
use camera_controller.TcpStream.{NetStreamBuf, write, sync, send, sputc}
use camera_controller.Logger.{Logger, log, line, log_info}
use camera_controller.Startup.{cout, ofs, netstream}
use camera_controller.LogPath.{Encoding, encode}
use camera_controller.LogPath.Calls.{encode-calls, length-encode}

-- A call of the logger, at the time that `put_time` prints.
pub record LogCall : Type 0 where
  pub time : String
  pub level : ℕ
  pub text : String

-- The streams that `main` adds, with that of the constructor.
abbrev pub main_streams : Logger
main_streams = (cout, 0) ∷ (ofs, 0) ∷ (netstream, 1) ∷ []

-- `bytes` is how the program stores a text.
module _ (bytes : String → List ℕ) where
  -- What a stream is given for a line: its bytes, the flush of `std::endl`, and another.
  unfoldable pub print_line : String → NetStreamBuf Encoding → NetStreamBuf Encoding
  print_line text s = sync encode (sync encode (write encode (bytes text) s))

  -- The lines that go to the network stream.
  unfoldable pub print_lines : List (ℕ × String) → NetStreamBuf Encoding → NetStreamBuf Encoding
  print_lines [] s = s
  print_lines ((stream, text) ∷ lines) s =
      print_lines lines (if stream == netstream then print_line text s else s)

  unfoldable pub log_all : Logger → List LogCall → NetStreamBuf Encoding → NetStreamBuf Encoding
  log_all streams [] s = s
  log_all streams (c ∷ calls) s =
      log_all streams calls (print_lines (log c.time c.level c.text streams) s)

  abbrev pub line_of : LogCall → List ℕ
  line_of c = bytes (line c.time c.level c.text)

  -- The lines of the calls that are important enough for the network.
  unfoldable pub network_lines : List LogCall → List (List ℕ)
  network_lines [] = []
  network_lines (c ∷ calls) =
      let rest = network_lines calls in if leb log_info c.level then line_of c ∷ rest else rest

  -- A stream with nothing in its array, and its encoder with a buffer of the right size.
  pub record IsIdle (s : NetStreamBuf Encoding) : Type 0 where
    pub empty : s.buf ≡ []
    pub size : length s.encoder.buf ≡ msg_max_length

  write_short :
      (text : List ℕ) (s : NetStreamBuf Encoding)
      → length s.buf + length text ≤ 2047
      → write encode text s ≡ record s { buf = s.buf ++ text }
  unfolding write sputc
  write_short [] s h = ap (λ b. record s { buf = b }) (sym (append-nil s.buf))
  write_short (ch ∷ text) s h = rw (lt→ltb (length s.buf) 2047 (omega arith)) (
      write_short text (record s { buf = s.buf ++ ch ∷ [] })
        (omega (arith, length-append s.buf (ch ∷ [])))
      ∙ ap (λ b. record s { buf = b }) (append_assoc s.buf (ch ∷ []) text))

  -- One line is one frame.
  record OneFrame (text : List ℕ) (s s' : NetStreamBuf Encoding) : Type 0 where
    idle : IsIdle s'
    calls : s'.encoder.calls ≡ s.encoder.calls ++ frame msgtype_log text ∷ []

  sync-OneFrame :
      (text : List ℕ) (s : NetStreamBuf Encoding)
      → 0 < length text
      → length text ≤ 2047
      → IsIdle s
      → OneFrame text s (sync encode (record s { buf = text }))
  unfolding sync send
  sync-OneFrame text s h k idle = record {
    idle = record { empty = refl; size = length-encode text s.encoder idle.size };
    calls =
        encode-calls text s.encoder idle.size
        ∙ ap (λ cs. s.encoder.calls ++ map (frame msgtype_log) cs)
            (chunks_one text h (omega arith));
  }

  -- A flush with nothing in the array sends nothing.
  sync-nothing :
      (s : NetStreamBuf Encoding)
      → IsIdle s
      → IsIdle (sync encode s) × ((sync encode s).encoder.calls ≡ s.encoder.calls)
  unfolding sync send chunks
  sync-nothing s idle = (
    record { empty = refl; size = length-encode s.buf s.encoder idle.size },
    encode-calls s.buf s.encoder idle.size
        ∙ ap (λ b. s.encoder.calls ++ map (frame msgtype_log) (chunks (length b) b)) idle.empty
        ∙ append-nil s.encoder.calls,
  )

  print_line-OneFrame :
      (text : String) (s : NetStreamBuf Encoding)
      → 0 < length (bytes text)
      → length (bytes text) ≤ 2047
      → IsIdle s
      → OneFrame (bytes text) s (print_line text s)
  unfolding print_line
  print_line-OneFrame text s h k idle =
      let written : write encode (bytes text) s ≡ record s { buf = bytes text } =
        write_short (bytes text) s (rw (idle.empty) (omega arith))
        ∙ ap (λ b. record s { buf = b ++ bytes text }) idle.empty in
      let first = sync-OneFrame (bytes text) s h k idle in
      let (still, same) = sync-nothing (sync encode (record s { buf = bytes text })) first.idle in
      rw written (record { idle = still; calls = same ∙ first.calls })

  -- A call at a level that the network stream is given, or not.
  print_lines-log :
      (c : LogCall) (s : NetStreamBuf Encoding)
      → print_lines (log c.time c.level c.text main_streams) s
        ≡ (if leb log_info c.level then print_line (line c.time c.level c.text) s else s)
  unfolding print_lines log
  print_lines-log c s = ground arith

  abbrev pub AreShort : List (List ℕ) → Type 0
  AreShort = All (λ l. (0 < length l) × (length l ≤ 2047))

  -- A call does one of these two things.
  record IsPrinted (c : LogCall) (calls : List LogCall) (s : NetStreamBuf Encoding) : Type 0 where
    lines : network_lines (c ∷ calls) ≡ line_of c ∷ network_lines calls
    stream :
        log_all main_streams (c ∷ calls) s
        ≡ log_all main_streams calls (print_line (line c.time c.level c.text) s)

  record IsDropped (c : LogCall) (calls : List LogCall) (s : NetStreamBuf Encoding) : Type 0 where
    lines : network_lines (c ∷ calls) ≡ network_lines calls
    stream : log_all main_streams (c ∷ calls) s ≡ log_all main_streams calls s

  log_all_cases :
      (c : LogCall) (calls : List LogCall) (s : NetStreamBuf Encoding)
      → IsPrinted c calls s ⊎ IsDropped c calls s
  unfolding log_all network_lines
  log_all_cases c calls s =
      let logged = ap (log_all main_streams calls) (print_lines-log c s) in
      elim (Bool-cases (leb log_info c.level)) [
        | inl up ↦ inl (record { lines = rw (up) refl; stream = logged ∙ rw (up) refl })
        | inr low ↦ inr (record { lines = rw (low) refl; stream = logged ∙ rw (low) refl })
      ]

  -- Each line that is important enough is one call of `sendData`, of one frame.
  pub log_all-OneEach :
      (calls : List LogCall) (s : NetStreamBuf Encoding)
      → AreShort (network_lines calls)
      → IsIdle s
      → (log_all main_streams calls s).encoder.calls
        ≡ s.encoder.calls ++ map (frame msgtype_log) (network_lines calls)
  unfolding log_all network_lines
  log_all-OneEach [] s short idle = sym (append-nil s.encoder.calls)
  log_all-OneEach (c ∷ calls) s short idle = elim (log_all_cases c calls s) [
    | inl printed ↦
        let ((some_byte, room), others) = subst AreShort printed.lines short in
        let one = print_line-OneFrame (line c.time c.level c.text) s some_byte room idle in
        ap (λ r. r.encoder.calls) printed.stream
        ∙ log_all-OneEach calls (print_line (line c.time c.level c.text) s) others one.idle
        ∙ ap (λ l. l ++ map (frame msgtype_log) (network_lines calls)) one.calls
        ∙ append_assoc s.encoder.calls (frame msgtype_log (line_of c) ∷ [])
            (map (frame msgtype_log) (network_lines calls))
        ∙ ap (λ l. s.encoder.calls ++ map (frame msgtype_log) l) (sym printed.lines)
    | inr dropped ↦
        ap (λ r. r.encoder.calls) dropped.stream
        ∙ log_all-OneEach calls s (subst AreShort dropped.lines short) idle
        ∙ ap (λ l. s.encoder.calls ++ map (frame msgtype_log) l) (sym dropped.lines)
  ]
