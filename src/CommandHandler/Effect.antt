-- ===== src/CommandHandler/Effect.antt =====
-- What any command does to the active function, whatever it is doing.
use camera_controller.Base.{
  ◌≡◌, refl, sym, ap, Bool, ◌⊎◌, inl, inr, true, false, Option, none, some, List, if◌then◌else◌,
  arith, Bool-cases,
}
use camera_controller.Outcome.{ok}
use camera_controller.CameraFunction.{
  Camera, CameraFunction, still_testing, capture_folder, connect_camera, test_capture,
  is_operating as operates,
}
use camera_controller.Sequencer
use camera_controller.Intervalometer
use camera_controller.Intervalometer.{IntervalometerStats}
use camera_controller.Commands.{Command}
use camera_controller.CommandHandler.{
  ActiveFunction, sequencer, intervalometer, SystemCall, App, is_operating, is_started, abort,
  start, test, replace_function, with_function, stop_function, on_command_received,
}
use camera_controller.CommandHandler.Rule.{Cases, IsFresh, on_command_received-rule}
use camera_controller.CommandHandler.Safety.{
  SameRun, SameRun-refl, abort-SameRun, set_download-SameRun,
}

-- The function with its run thread started.
unfoldable pub begin : ActiveFunction → ActiveFunction
begin (sequencer s) = sequencer (record s { started = true })
begin (intervalometer s) = intervalometer (record s { started = true })

-- The member `testing`.
unfoldable pub is_testing : ActiveFunction → Bool
is_testing (sequencer s) = s.base.testing
is_testing (intervalometer s) = s.base.testing

-- The function with `testing` set.
unfoldable pub left_testing : ActiveFunction → ActiveFunction
left_testing (sequencer s) = sequencer (record s { base = record s.base { testing = true } })
left_testing (intervalometer s) =
    intervalometer (record s { base = record s.base { testing = true } })

-- No function, or one that does not operate.
abbrev pub IsIdle : Option ActiveFunction → Type 0
IsIdle none = Unit
IsIdle (some f) = is_operating f ≡ false

-- How a command changes the active function: there is none before and after; it is the same up to
-- the two flags; an idle one is replaced by a fresh one, or is left in a test capture; one that was
-- not started is started.
pub data Effect (junk : IntervalometerStats)
    : Option ActiveFunction → Option ActiveFunction → Type 0 where
  untouched : Effect junk none none
  kept : {f f' : ActiveFunction} → SameRun f f' → Effect junk (some f) (some f')
  made :
      {o : Option ActiveFunction} {g : ActiveFunction}
      → IsIdle o
      → IsFresh junk g
      → Effect junk o (some g)
  tested :
      {f : ActiveFunction} → is_operating f ≡ false → Effect junk (some f) (some (left_testing f))
  begun :
      {f : ActiveFunction}
      → is_started f ≡ false
      → is_testing f ≡ false
      → Effect junk (some f) (some (begin f))

pub not_testing :
    (is_started is_finished : Bool) (f : CameraFunction)
    → operates is_started is_finished f ≡ false
    → f.testing ≡ false
unfolding operates
not_testing is_started is_finished f h = ground arith

module _ {W : Type 0} (camera : Camera W) (junk : IntervalometerStats) where
  -- `start` of any function leaves it as it is or begins it.
  start-begin :
      (f : ActiveFunction) (w : W)
      → ((start camera junk f w).0 ≡ f)
        ⊎ ((is_started f ≡ false) × (is_testing f ≡ false) × ((start camera junk f w).0 ≡ begin f))
  unfolding start begin is_testing is_started Sequencer.start Intervalometer.start
  start-begin (sequencer s) w = elim (Bool-cases s.base.testing) [
    | inl t ↦ inl (rw t refl)
    | inr t ↦ elim (Bool-cases s.started) [
      | inl b ↦ inl (rw (t, b) refl)
      | inr b ↦ elim (Bool-cases (connect_camera camera w).0) [
        | inl c ↦ inr (b, t, rw (t, b, c) refl)
        | inr c ↦ inl (rw (t, b, c) refl)
      ]
    ]
  ]
  start-begin (intervalometer s) w = elim (Bool-cases s.base.testing) [
    | inl t ↦ inl (rw t refl)
    | inr t ↦ elim (Bool-cases s.started) [
      | inl b ↦ inl (rw (t, b) refl)
      | inr b ↦ elim (Bool-cases (connect_camera camera w).0) [
        | inl c ↦ inr (b, t, rw (t, b, c) refl)
        | inr c ↦ inl (rw (t, b, c) refl)
      ]
    ]
  ]

  -- A test capture leaves the function as it was, or, where it does not return from the camera, in
  -- the test.
  test-left_testing :
      (f : ActiveFunction) (w : W)
      → ((test camera junk f w).0 ≡ f)
        ⊎ ((is_operating f ≡ false) × ((test camera junk f w).0 ≡ left_testing f))
  unfolding test test_capture is_operating Sequencer.operating Intervalometer.operating operates
      Sequencer.do_test_capture Intervalometer.do_test_capture left_testing
  test-left_testing (sequencer s) w = elim (Bool-cases (Sequencer.operating s)) [
    | inl busy ↦ inl (rw busy refl)
    | inr idle ↦ elim (Bool-cases (connect_camera camera w).0) [
      | inr c ↦ inl (rw (idle, c) refl)
      | inl c ↦
          let tested =
            camera.capture s.exposure_time (capture_folder s.base) (connect_camera camera w).1 in
          elim (Bool-cases (still_testing tested.0)) [
            | inr back ↦ inl (
                rw (idle, c, back)
                  (ap (λ b. sequencer (record s { base = record s.base { testing = b } }))
                    (sym (not_testing s.started s.finished s.base idle))))
            | inl lost ↦ inr (idle, rw (idle, c, lost) refl)
          ]
    ]
  ]
  test-left_testing (intervalometer s) w = elim (Bool-cases (Intervalometer.operating s)) [
    | inl busy ↦ inl (rw busy refl)
    | inr idle ↦ elim (Bool-cases (connect_camera camera w).0) [
      | inr c ↦ inl (rw (idle, c) refl)
      | inl c ↦
          let tested =
            camera.capture s.exposure_time (capture_folder s.base) (connect_camera camera w).1 in
          elim (Bool-cases (still_testing tested.0)) [
            | inr back ↦ inl (
                rw (idle, c, back)
                  (ap (λ b. intervalometer (record s { base = record s.base { testing = b } }))
                    (sym (not_testing s.started s.finished s.base idle))))
            | inl lost ↦ inr (idle, rw (idle, c, lost) refl)
          ]
    ]
  ]

  -- The state after a command, from one with the function `o`.
  abbrev Leads : Option ActiveFunction → App W → Type 0
  Leads o a' = Effect junk o a'.active_function

  stop-Leads :
      (f : ActiveFunction) (a : App W)
      → a.active_function ≡ some f
      → Leads (some f) (if is_started f then record a { active_function = some (abort f) } else a)
  stop-Leads f a e = elim (Bool-cases (is_started f)) [
    | inl s ↦ rw s (kept (abort-SameRun f))
    | inr n ↦ rw (n, e) (kept (SameRun-refl f))
  ]

  cases :
      (o : Option ActiveFunction) (w : W) (calls : List SystemCall)
      → Cases camera junk
          (record { active_function = o; world = w; system_calls = calls })
          (Leads o)
  unfolding replace_function with_function stop_function
  cases none w calls = record {
    unchanged = λ calls'. untouched;
    tested_connection = untouched;
    reconnected = λ calls'. untouched;
    replaced = λ new fresh. made tt fresh;
    flagged = λ d. untouched;
    tested = untouched;
    begun = untouched;
    stopped = untouched;
  }
  cases (some f) w calls = record {
    unchanged = λ calls'. kept (SameRun-refl f);
    tested_connection = kept (SameRun-refl f);
    reconnected = λ calls'. kept (SameRun-refl f);
    replaced = λ new fresh. elim (Bool-cases (is_operating f)) [
      | inl busy ↦ rw busy (kept (SameRun-refl f))
      | inr idle ↦ rw idle (made idle fresh)
    ];
    flagged = λ d. kept (set_download-SameRun d f);
    tested = elim (test-left_testing f w) [
      | inl e ↦ rw e (kept (SameRun-refl f))
      | inr (idle, e) ↦ rw e (tested idle)
    ];
    begun = elim (start-begin f w) [
      | inl e ↦ rw e (kept (SameRun-refl f))
      | inr (n, t, e) ↦ rw e (begun n t)
    ];
    stopped = stop-Leads f _ refl;
  }

  pub on_command_received-Effect :
      (c : Command) (a a' : App W)
      → on_command_received camera junk c a ≡ ok a'
      → Effect junk a.active_function a'.active_function
  on_command_received-Effect c a =
      on_command_received-rule camera junk a (Leads a.active_function)
        (cases a.active_function a.world a.system_calls) c
