-- ===== src/Logger/Lines.antt =====
-- Which streams are given a message.
use Prim.Native.String.{String, len}
use mathlib.Core.List.{filter}
use mathlib.Core.Logic.{ite}
use native.Mathlib.Decide.{dec_le}
use camera_controller.Base.{
  ℕ, ◌+◌, ◌≤◌, ◌<◌, ◌≡◌, ◌⊎◌, inl, inr, refl, ap, map, List, ◌∙◌, [], ◌∷◌, leb, if◌then◌else◌,
  Bool-cases, true, false, arith,
}
use camera_controller.Outcome.{ok, fault, buffer_overflow}
use camera_controller.Logger.{Logger, log, log_format, line}

-- The streams whose least level is at most that of the message.
abbrev pub receivers : ℕ → Logger → Logger
receivers level = filter (λ entry. dec_le entry.1 level)

if-ite : {A : Type 0} (a b : ℕ) (d : Dec (a ≤ b)) (x y : A) → (if leb a b then x else y) ≡ ite d x y
if-ite a b (yes h) x y = rw (leb-true h) refl
  where
    leb-true : a ≤ b → leb a b ≡ true
    leb-true k = ground arith
if-ite a b (no h) x y = rw (leb-false h) refl
  where
    leb-false : ¬ (a ≤ b) → leb a b ≡ false
    leb-false k = ground arith

log-receivers :
    (time : String) (level : ℕ) (text : String) (streams : Logger)
    → log time level text streams
      ≡ map (λ entry. (entry.0, line time level text)) (receivers level streams)
unfolding log
log-receivers time level text [] = refl
log-receivers time level text ((stream, minlevel) ∷ streams) =
    let written : ℕ × String = (stream, line time level text) in
    let d = dec_le minlevel level in
    ap (λ l. if leb minlevel level then written ∷ l else l) (log-receivers time level text streams)
    ∙ if-ite minlevel level d _ _
    ∙ map-ite d
  where
    map-ite :
        {P : Type 0} (d : Dec P)
        → ite {C = List (ℕ × String)} d
            ((stream, line time level text)
              ∷ map (λ entry. (entry.0, line time level text)) (receivers level streams))
            (map (λ entry. (entry.0, line time level text)) (receivers level streams))
          ≡ map
              (λ entry. (entry.0, line time level text))
              (ite {C = Logger} d
                ((stream, minlevel) ∷ receivers level streams)
                (receivers level streams))
    map-ite (yes h) = refl
    map-ite (no h) = refl

-- A message whose text has at most 255 bytes is written once, in one line, to each stream whose
-- least level is at most its own, in the order of the streams, and to no other; a longer one
-- overruns the buffer of 256 bytes.
pub log_format-receivers :
    (time : String) (level : ℕ) (text : String) (streams : Logger)
    → ((len text < 256)
        × (log_format time level text streams
            ≡ ok (map (λ entry. (entry.0, line time level text)) (receivers level streams))))
      ⊎ ((256 ≤ len text) × (log_format time level text streams ≡ fault buffer_overflow))
unfolding log_format
log_format-receivers time level text streams = elim (Bool-cases (leb (len text + 1) 256)) [
  | inl h ↦ inl (ground arith, rw h (ap ok (log-receivers time level text streams)))
  | inr h ↦ inr (ground arith, rw h refl)
]
