-- ===== src/Logger/Lengths.antt =====
-- How long a line of src/logger.h is, in bytes.
use Prim.Native.String.{String, ◌++◌, len}
use text.Mathlib.TextPositions.{len-append}
use camera_controller.Base.{ℕ, zero, suc, ◌+◌, ◌≤◌, ◌<◌, arith, Bool-cases, inl, inr, ◌==◌}
use camera_controller.Logger.{line, padded, get_log_level_string, log_debug, log_info, log_warning}

len-padded : (n : ℕ) (text : String) → len (padded n text) ≤ len text + n
unfolding padded
len-padded zero text = omega arith
len-padded (suc n) text =
    let longer = len-padded n (text ++ " ") in let one = len-append text " " in ground arith

len-get_log_level_string : (level : ℕ) → len (get_log_level_string level) ≤ 9
unfolding get_log_level_string
len-get_log_level_string level = elim (Bool-cases (level == log_debug)) [
  | inl debug ↦ rw (debug) (omega arith)
  | inr other ↦ rw (other) (elim (Bool-cases (level == log_info)) [
    | inl info ↦ rw (info) (omega arith)
    | inr higher ↦ rw (higher) (elim (Bool-cases (level == log_warning)) [
      | inl warning ↦ rw (warning) (omega arith)
      | inr error ↦ rw (error) (omega arith)
    ])
  ])
]

pub len-line :
    (time : String) (level : ℕ) (text : String)
    → (0 < len (line time level text)) × (len (line time level text) ≤ len time + len text + 20)
len-line time level text =
    let name = get_log_level_string level in
    let whole = len-append time (padded 10 name ++ text ++ "\n") in
    let rest = len-append (padded 10 name) (text ++ "\n") in
    let last = len-append text "\n" in
    let short = len-get_log_level_string level in
    let wide = len-padded 10 name in (omega arith, omega arith)
