-- ===== src/RunThread.antt =====
-- The thread of `Sequencer::run` and of `Intervalometer::run` (src/functions/sequencer.cpp,
-- intervalometer.cpp) beside the thread that handles commands (src/main.cpp), as a step relation: between
-- any two steps of the run thread the other may handle a command.
pub mod Invariant
pub mod Abort
pub mod World
use Prim.Native.String.{String}
use camera_controller.Base.{
  ℕ, suc, ◌≡◌, Bool, true, false, ◌&&◌, not, Option, none, some, List, [], ◌∷◌, ◌++◌, if◌then◌else◌,
  ◌+◌,
}
use camera_controller.Base.Int.{ℤ, pos}
use camera_controller.Outcome.{Outcome, ok}
use camera_controller.CameraFunction.{Camera, Captured, success, failure}
use camera_controller.Sequencer
use camera_controller.Intervalometer
use camera_controller.Intervalometer.{IntervalometerStats}
use camera_controller.Commands.{Command}
use camera_controller.CommandHandler.{
  ActiveFunction, sequencer, intervalometer, App, is_started, on_command_received,
}

-- Where the run thread of a function stands, with the local `i`. In `leaving` the loop is over and
-- `finished` is not set yet; in `logging` it is set, and the line that reads the members again is
-- to come.
pub data Thread : Type 0 where
  absent : Thread
  looping shooting waiting leaving logging over : ℕ → Thread

unfoldable pub is_finished : ActiveFunction → Bool
is_finished (sequencer s) = s.finished
is_finished (intervalometer s) = s.finished

unfoldable pub abort_cond : ActiveFunction → Bool
abort_cond (sequencer s) = s.abort_cond
abort_cond (intervalometer s) = s.abort_cond

unfoldable pub num_shots : ActiveFunction → ℤ
num_shots (sequencer s) = s.num_shots
num_shots (intervalometer s) = s.num_shots

-- The test of the loop.
unfoldable pub may_go_on : ActiveFunction → ℕ → Bool
may_go_on (sequencer s) i = not s.abort_cond && Sequencer.shots_left s i
may_go_on (intervalometer s) i = not s.abort_cond && Intervalometer.shots_left s i

-- The statistics of a capture, from the two readings of the clock.
unfoldable pub registered : (start_time end_time : ℤ) → ActiveFunction → ActiveFunction
registered start_time end_time (sequencer s) = sequencer (
    Sequencer.after_shot
      (record { aborted = false; download = false; start_time = start_time; end_time = end_time })
      s)
registered start_time end_time (intervalometer s) = intervalometer (
    Intervalometer.after_shot
      (record {
        aborted = false;
        download = false;
        start_time = start_time;
        end_time = end_time;
        wakes = [];
      })
      s)

-- After a capture the intervalometer waits for the next one.
unfoldable pub after_capture : ActiveFunction → ℕ → Thread
after_capture (sequencer s) i = looping i
after_capture (intervalometer s) i = waiting i

-- `finished = true`
unfoldable pub finish : ActiveFunction → ActiveFunction
finish (sequencer s) = sequencer (record s { finished = true })
finish (intervalometer s) = intervalometer (record s { finished = true })

module _ {W : Type 0} (camera : Camera W) where
  -- `camera.capture(exposure_time, downloadAfterExposure() ? download_folder : "")`
  unfoldable pub shoot : ActiveFunction → W → Captured × W
  shoot (sequencer s) w =
      camera.capture s.exposure_time
        (if s.base.download_after_exposure then s.base.download_folder else "") w
  shoot (intervalometer s) w =
      camera.capture s.exposure_time
        (if s.base.download_after_exposure then s.base.download_folder else "") w

  -- The steps of `run()` on its function: the test, which begins the next exposure or leaves the
  -- loop; the capture, which is registered or breaks the loop; the two ways out of the wait; the
  -- end. There is no step out of a capture that never returns, and none of the program after one
  -- that throws: nothing in the thread catches the exception.
  pub data RunStep : ActiveFunction → W → Thread → ActiveFunction → W → Thread → Type 0 where
    go_on :
        {f : ActiveFunction} {w : W} {i : ℕ}
        → may_go_on f i ≡ true
        → RunStep f w (looping i) f w (shooting (i + 1))
    stop :
        {f : ActiveFunction} {w : W} {i : ℕ}
        → may_go_on f i ≡ false
        → RunStep f w (looping i) f w (leaving i)
    captured :
        {f : ActiveFunction} {w w' : W} {i : ℕ} (start_time end_time : ℤ)
        → shoot f w ≡ (success, w')
        → RunStep f w (shooting i) (registered start_time end_time f) w' (after_capture f i)
    failed :
        {f : ActiveFunction} {w w' : W} {i : ℕ}
        → shoot f w ≡ (failure, w')
        → RunStep f w (shooting i) f w' (leaving i)
    timed_out : {f : ActiveFunction} {w : W} {i : ℕ} → RunStep f w (waiting i) f w (looping i)
    woken :
        {f : ActiveFunction} {w : W} {i : ℕ}
        → abort_cond f ≡ true
        → RunStep f w (waiting i) f w (looping i)
    ended : {f : ActiveFunction} {w : W} {i : ℕ} → RunStep f w (leaving i) (finish f) w (logging i)
    logged : {f : ActiveFunction} {w : W} {i : ℕ} → RunStep f w (logging i) f w (over i)

  -- `n` steps of the run thread.
  pub data RunSteps : ℕ → ActiveFunction → W → Thread → ActiveFunction → W → Thread → Type 0 where
    none_left : {f : ActiveFunction} {w : W} {t : Thread} → RunSteps 0 f w t f w t
    one_more :
        {n : ℕ} {f f' f'' : ActiveFunction} {w w' w'' : W} {t t' t'' : Thread}
        → RunStep f w t f' w' t'
        → RunSteps n f' w' t' f'' w'' t''
        → RunSteps (suc n) f w t f'' w'' t''

-- The handler's state, the thread of the active function, and the threads of functions that have been
-- deleted.
pub record Program (W : Type 0) : Type 0 where
  pub app : App W
  pub thread : Thread
  pub orphans : List Thread

unfoldable pub is_started? : Option ActiveFunction → Bool
is_started? none = false
is_started? (some f) = is_started f

-- A thread that has still something to do when its function is deleted.
unfoldable pub orphaned : Thread → List Thread → List Thread
orphaned absent orphans = orphans
orphaned (over i) orphans = orphans
orphaned (looping i) orphans = looping i ∷ orphans
orphaned (shooting i) orphans = shooting i ∷ orphans
orphaned (waiting i) orphans = waiting i ∷ orphans
orphaned (leaving i) orphans = leaving i ∷ orphans
orphaned (logging i) orphans = logging i ∷ orphans

-- What a command that leads from the function `o` to `o'` does to the threads: `start` sets `started` and
-- creates the thread; a function that is not started has none, so that where there was one, its function
-- has been deleted.
unfoldable pub thread_after : (o o' : Option ActiveFunction) → Thread → Thread
thread_after o o' t = if is_started? o' then (if is_started? o then t else looping 0) else absent

unfoldable pub orphans_after : (o' : Option ActiveFunction) → Thread → List Thread → List Thread
orphans_after o' t orphans = if is_started? o' then orphans else orphaned t orphans

abbrev pub after_command : {W : Type 0} → Program W → App W → Program W
after_command p app' = record {
  app = app';
  thread = thread_after p.app.active_function app'.active_function p.thread;
  orphans = orphans_after app'.active_function p.thread p.orphans;
}

-- No function is configured.
abbrev pub booted : {W : Type 0} → W → Program W
booted w = record {
  app = record { active_function = none; world = w; system_calls = [] };
  thread = absent;
  orphans = [];
}

module _ {W : Type 0} (camera : Camera W) (junk : IntervalometerStats) where
  pub data Step : Program W → Program W → Type 0 where
    command :
        {p : Program W} (c : Command) {app' : App W}
        → on_command_received camera junk c p.app ≡ ok app'
        → Step p (after_command p app')
    run :
        {p : Program W} {f f' : ActiveFunction} {t' : Thread} {w' : W}
        → p.app.active_function ≡ some f
        → RunStep camera f p.app.world p.thread f' w' t'
        → Step p
            (record p { app = record p.app { active_function = some f'; world = w' }; thread = t' })

  pub data Reach (p : Program W) : Program W → Type 0 where
    here : Reach p p
    next : {q r : Program W} → Reach p q → Step q r → Reach p r
