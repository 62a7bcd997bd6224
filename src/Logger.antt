-- ===== src/Logger.antt =====
-- src/logger.h: the logger. A stream is known by a number, for its address; `sprintf` is a parameter.
pub mod Streams
pub mod Lines
pub mod Lengths
use Prim.Native.String.{String, ◌++◌, count, len}
use camera_controller.Base.{ℕ, zero, suc, ◌+◌, ◌-◌, List, [], ◌∷◌, ◌==◌, if◌then◌else◌, ltb, leb}
use camera_controller.Outcome.{Outcome, ok, fault, past_the_end, buffer_overflow, ◌>>=◌}

-- `enum LogLevel`, by its values.
abbrev pub log_debug : ℕ
log_debug = 0

abbrev pub log_info : ℕ
log_info = 1

abbrev pub log_warning : ℕ
log_warning = 2

abbrev pub log_error : ℕ
log_error = 3

-- `streams`: the address of each, and its least level.
abbrev pub Logger : Type 0
Logger = List (ℕ × ℕ)

-- `addStream`
unfoldable pub add_stream : ℕ → ℕ → Logger → Logger
add_stream stream minlevel [] = (stream, minlevel) ∷ []
add_stream stream minlevel (entry ∷ streams) = entry ∷ add_stream stream minlevel streams

-- `removeStream`, from the iterator on. After `erase` the iterator is at the next entry, which the
-- loop's `it++` then steps over; past the last one there is nothing to step over.
unfoldable pub remove_stream : ℕ → Logger → Outcome Logger
remove_stream stream [] = ok []
remove_stream stream (entry ∷ []) =
    if entry.0 == stream then fault past_the_end else ok (entry ∷ [])
remove_stream stream (entry ∷ next ∷ streams) =
    let skipped = remove_stream stream streams in
    let rest = remove_stream stream (next ∷ streams) in
    if entry.0 == stream
    then (skipped >>= λ kept. ok (next ∷ kept))
    else (rest >>= λ kept. ok (entry ∷ kept))

-- `clearStreams`
unfoldable pub clear_streams : Logger → Logger
clear_streams streams = []

-- `getLogLevelString`
unfoldable pub get_log_level_string : ℕ → String
get_log_level_string level =
    if level == log_debug
    then "[DEBUG]"
    else if level == log_info
    then "[INFO]"
    else if level == log_warning
    then "[WARNING]"
    else "[ERROR]"

-- `std::left << std::setw(10)`
unfoldable pub padded : ℕ → String → String
padded zero text = text
padded (suc n) text = if ltb (count text) 10 then padded n (text ++ " ") else text

-- The line for a message.
abbrev pub line : (time : String) (level : ℕ) (text : String) → String
line time level text = time ++ padded 10 (get_log_level_string level) ++ text ++ "\n"

-- `log(level, str)` at the time that `put_time` prints: the line that each stream is given.
unfoldable pub log : String → ℕ → String → Logger → List (ℕ × String)
log time level str [] = []
log time level str ((stream, minlevel) ∷ streams) =
    let rest = log time level str streams in
    if leb minlevel level then (stream, line time level str) ∷ rest else rest

-- `log(level, str, value, args...)`, where `sprintf` would print `text`: with its final null byte
-- it has to fit `buf[256]`.
unfoldable pub log_format : String → ℕ → String → Logger → Outcome (List (ℕ × String))
log_format time level text streams =
    if leb (len text + 1) 256 then ok (log time level text streams) else fault buffer_overflow
