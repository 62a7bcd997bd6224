-- ===== src/CommandHandler/Stuck.antt =====
-- What a test capture that throws does to the active function.
use camera_controller.Base.{
  ◌≡◌, refl, ap, ◌∙◌, subst, Bool, true, false, Option, some, List, [], ◌∷◌, All, arith,
}
use camera_controller.Outcome.{Outcome, ok, ◌>>=◌}
use camera_controller.CameraFunction.{
  Camera, exception, still_testing, capture_folder, connect_camera, test_capture,
  is_operating as operates,
}
use camera_controller.Sequencer
use camera_controller.Sequencer.{Sequencer}
use camera_controller.Intervalometer
use camera_controller.Intervalometer.{Intervalometer, IntervalometerStats}
use camera_controller.Commands.{Command, plain, cmd_id_of, cmd_id_function_test_capture}
use camera_controller.Commands.Typing.{IsWellTyped}
use camera_controller.CommandHandler.{
  ActiveFunction, sequencer, intervalometer, SystemCall, App, is_operating, test, plain_case,
  with_function, on_command_received,
}
use camera_controller.CommandHandler.Safety.{SameRun, SameRun-refl, on_command_received-ok}
use camera_controller.CommandHandler.Effect.{
  Effect, IsIdle, untouched, kept, made, tested, begun, is_testing, left_testing,
  on_command_received-Effect,
}

-- A function that is in a test operates.
testing-operates : (f : ActiveFunction) → is_testing f ≡ true → is_operating f ≡ true
unfolding is_operating Sequencer.operating Intervalometer.operating operates is_testing
testing-operates (sequencer s) h = ground arith
testing-operates (intervalometer s) h = ground arith

SameRun-is_testing : (f g : ActiveFunction) → SameRun f g → is_testing g ≡ is_testing f
unfolding is_testing
SameRun-is_testing (sequencer s) (sequencer t) e = ap (λ k. k.base.testing) e
SameRun-is_testing (intervalometer s) (intervalometer t) e = ap (λ k. k.base.testing) e
SameRun-is_testing (sequencer s) (intervalometer t) e = absurd e
SameRun-is_testing (intervalometer s) (sequencer t) e = absurd e

sequencer_flags : (abort_cond download : Bool) → Sequencer → Sequencer
sequencer_flags abort_cond download s = record s {
  abort_cond = abort_cond;
  base = record s.base { download_after_exposure = download };
}

intervalometer_flags : (abort_cond download : Bool) → Intervalometer → Intervalometer
intervalometer_flags abort_cond download s = record s {
  abort_cond = abort_cond;
  base = record s.base { download_after_exposure = download };
}

SameRun-later : (f g h : ActiveFunction) → SameRun f g → SameRun g h → SameRun f h
unfolding sequencer_flags intervalometer_flags
SameRun-later (sequencer s) (sequencer t) (sequencer u) e k =
    k ∙ ap (sequencer_flags u.abort_cond u.base.download_after_exposure) e
SameRun-later (intervalometer s) (intervalometer t) (intervalometer u) e k =
    k ∙ ap (intervalometer_flags u.abort_cond u.base.download_after_exposure) e
SameRun-later (sequencer s) (intervalometer t) h e k = absurd e
SameRun-later (intervalometer s) (sequencer t) h e k = absurd e
SameRun-later (sequencer s) (sequencer t) (intervalometer u) e k = absurd k
SameRun-later (intervalometer s) (intervalometer t) (sequencer u) e k = absurd k

-- The same function is active, up to the request to abort and the download flag.
abbrev pub StillActive : ActiveFunction → Option ActiveFunction → Type 0
StillActive f o = (g : ActiveFunction) × (o ≡ some g) × SameRun f g

-- No command starts or replaces a function that is in a test.
Effect-StillActive :
    {junk : IntervalometerStats} {o o' : Option ActiveFunction} (f : ActiveFunction)
    → Effect junk o o'
    → o ≡ some f
    → is_testing f ≡ true
    → StillActive f o'
Effect-StillActive f untouched same t = cc
Effect-StillActive f (kept {f = g} {f'} e) same t =
    (f', refl, subst (λ k. SameRun k f') (the_same same) e)
  where
    the_same : some g ≡ some f → g ≡ f
    the_same h = cc
Effect-StillActive f (made idle fresh) same t =
    let rests : is_operating f ≡ false = subst IsIdle same idle in
    let operates_now = testing-operates f t in cc
Effect-StillActive f (tested {f = g} idle) same t = let operates_now = testing-operates f t in cc
Effect-StillActive f (begun {f = g} n idle) same t = cc

module _ {W : Type 0} (camera : Camera W) (junk : IntervalometerStats) where
  -- Commands one after another.
  unfoldable pub on_commands : List Command → App W → Outcome (App W)
  on_commands [] a = ok a
  on_commands (c ∷ cs) a = on_command_received camera junk c a >>= λ a'. on_commands cs a'

  -- From a function that is in a test, through any commands.
  on_commands-StillActive :
      (cs : List Command) (a : App W) (f : ActiveFunction)
      → All IsWellTyped cs
      → a.active_function ≡ some f
      → is_testing f ≡ true
      → (a' : App W) × (on_commands cs a ≡ ok a') × StillActive f a'.active_function
  unfolding on_commands
  on_commands-StillActive [] a f typed same t = (a, refl, (f, same, SameRun-refl f))
  on_commands-StillActive (c ∷ cs) a f typed same t =
      let (b, e) = on_command_received-ok camera junk c a typed.0 in
      let (g, same', run) =
        Effect-StillActive f (on_command_received-Effect camera junk c a b e) same t in
      let (a', e', (h, same'', run')) =
        on_commands-StillActive cs b g typed.1 same' (SameRun-is_testing f g run ∙ t) in
      (a', rw (e, on_commands) e', (h, same'', SameRun-later f g h run run'))

  -- What `doTestCapture` asks of the camera.
  abbrev pub Throws : ActiveFunction → W → Type 0
  Throws (sequencer s) w = (camera.capture s.exposure_time (capture_folder s.base) w).0 ≡ exception
  Throws (intervalometer s) w =
      (camera.capture s.exposure_time (capture_folder s.base) w).0 ≡ exception

  test-Throws :
      (f : ActiveFunction) (w : W)
      → is_operating f ≡ false
      → (connect_camera camera w).0 ≡ true
      → Throws f (connect_camera camera w).1
      → (test camera junk f w).0 ≡ left_testing f
  unfolding test test_capture is_operating Sequencer.do_test_capture Intervalometer.do_test_capture
      left_testing still_testing
  test-Throws (sequencer s) w idle c x = rw (idle, c, x) refl
  test-Throws (intervalometer s) w idle c x = rw (idle, c, x) refl

  left_testing-is_testing : (f : ActiveFunction) → is_testing (left_testing f) ≡ true
  unfolding is_testing left_testing
  left_testing-is_testing (sequencer s) = refl
  left_testing-is_testing (intervalometer s) = refl

  -- A function that does not operate is tested, the camera connects, and the capture throws. Then,
  -- whatever well-typed commands follow with no step of a run thread between them, the same
  -- function stays active, neither started nor replaced nor out of its test: it is the one from
  -- before with `testing` set, up to the request to abort and the download flag.
  pub on_commands_stuck :
      (cs : List Command) (f : ActiveFunction) (w : W) (calls : List SystemCall)
      → All IsWellTyped cs
      → is_operating f ≡ false
      → (connect_camera camera w).0 ≡ true
      → Throws f (connect_camera camera w).1
      → (a' : App W) × (on_commands
            (plain cmd_id_function_test_capture ∷ cs)
            (record { active_function = some f; world = w; system_calls = calls })
          ≡ ok a')
        × StillActive (left_testing f) a'.active_function
  unfolding on_commands on_command_received plain_case cmd_id_of with_function
  on_commands_stuck cs f w calls typed idle c x =
      on_commands-StillActive cs
        (record {
          active_function = some (test camera junk f w).0;
          world = (test camera junk f w).1;
          system_calls = calls;
        })
        (left_testing f) typed (ap some (test-Throws f w idle c x)) (left_testing-is_testing f)
