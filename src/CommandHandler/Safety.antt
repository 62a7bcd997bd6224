-- ===== src/CommandHandler/Safety.antt =====
-- The handler never makes a bad cast, and leaves a running function alone.
use camera_controller.Base.{
  Bool-cases, inl, inr, ℕ, ◌≡◌, refl, ap, Bool, true, false, some, List, ◌==◌, if◌then◌else◌, arith,
}
use camera_controller.Outcome.{Outcome, ok}
use camera_controller.CameraFunction.{Camera, test_capture, is_operating as operates}
use camera_controller.Sequencer
use camera_controller.Sequencer.{Sequencer}
use camera_controller.Intervalometer
use camera_controller.Intervalometer.{Intervalometer, IntervalometerStats}
use camera_controller.Commands.{
  Command, plain, download_after_exposure, sequencer_setup, intervalometer_setup, cmd_id_of,
  cmd_id_download_after_exposure, cmd_id_sequencersetup, cmd_id_intervalometersetup,
}
use camera_controller.Commands.Typing.{IsWellTyped, is_plain_id}
use camera_controller.CommandHandler.Rule.{Cases, on_command_received-rule}
use camera_controller.CommandHandler.{
  ActiveFunction, sequencer, intervalometer, App, is_operating, is_started, abort, set_download,
  start, test, replace_function, setup_sequencer, setup_intervalometer, set_download_after_exposure,
  with_function, stop_function, on_command_received, SystemCall,
}

-- The commands with no data are not cast.
not-cast :
    (id : ℕ)
    → is_plain_id id ≡ true
    → ((id == cmd_id_sequencersetup) ≡ false)
      × ((id == cmd_id_intervalometersetup) ≡ false)
      × ((id == cmd_id_download_after_exposure) ≡ false)
not-cast id k = ground arith

module _ {W : Type 0} (camera : Camera W) (junk : IntervalometerStats) where
  abbrev pub Returns : Outcome (App W) → Type 0
  Returns r = (a' : App W) × (r ≡ ok a')

  -- A command whose class is the one that its id stands for, as every decoded command is, is handled
  -- without a bad cast.
  pub on_command_received-ok :
      (c : Command) (a : App W) → IsWellTyped c → Returns (on_command_received camera junk c a)
  unfolding on_command_received cmd_id_of setup_sequencer setup_intervalometer
      set_download_after_exposure
  on_command_received-ok (plain id) a k =
      let (not_sequencer, not_intervalometer, not_download) = not-cast id k in
      rw (not_sequencer, not_intervalometer, not_download) (_, refl)
  on_command_received-ok (download_after_exposure id d) a k = rw k (_, refl)
  on_command_received-ok (sequencer_setup id n e d) a k = rw k (_, refl)
  on_command_received-ok (intervalometer_setup id n e i d) a k = rw k (_, refl)

-- The two functions differ at most in the request to abort and in the download flag, which the run
-- thread reads: class, settings, progress and statistics are the same.
abbrev pub SameRun : ActiveFunction → ActiveFunction → Type 0
SameRun (sequencer s) (sequencer t) = t ≡ record s {
  abort_cond = t.abort_cond;
  base = record s.base { download_after_exposure = t.base.download_after_exposure };
}
SameRun (intervalometer s) (intervalometer t) = t ≡ record s {
  abort_cond = t.abort_cond;
  base = record s.base { download_after_exposure = t.base.download_after_exposure };
}
SameRun (sequencer s) (intervalometer t) = ⊥
SameRun (intervalometer s) (sequencer t) = ⊥

pub SameRun-refl : (f : ActiveFunction) → SameRun f f
SameRun-refl (sequencer s) = refl
SameRun-refl (intervalometer s) = refl

pub abort-SameRun : (f : ActiveFunction) → SameRun f (abort f)
unfolding abort Sequencer.abort Intervalometer.abort
abort-SameRun (sequencer s) = ground arith
abort-SameRun (intervalometer s) = ground arith

pub set_download-SameRun : (v : Bool) (f : ActiveFunction) → SameRun f (set_download v f)
unfolding set_download
set_download-SameRun v (sequencer s) = refl
set_download-SameRun v (intervalometer s) = refl

module _ {W : Type 0} (camera : Camera W) (junk : IntervalometerStats) where
  -- A function that operates is not started again and takes no test capture.
  start-operating :
      (f : ActiveFunction) (w : W) → is_operating f ≡ true → (start camera junk f w).0 ≡ f
  unfolding start is_operating Sequencer.start Sequencer.operating Intervalometer.start
      Intervalometer.operating operates
  start-operating (sequencer s) w h = ground arith
  start-operating (intervalometer s) w h = ground arith

  test-operating :
      (f : ActiveFunction) (w : W) → is_operating f ≡ true → (test camera junk f w).0 ≡ f
  unfolding test is_operating test_capture
  test-operating (sequencer s) w h = rw h
  test-operating (intervalometer s) w h = rw h

  -- The function of `a` is `f`, up to the two flags.
  abbrev pub Kept : ActiveFunction → App W → Type 0
  Kept f a = (f' : ActiveFunction) × (a.active_function ≡ some f') × SameRun f f'

  -- A call of `abort` of a function that is started.
  pub stop-Kept :
      (f : ActiveFunction) (a : App W)
      → a.active_function ≡ some f
      → Kept f (if is_started f then record a { active_function = some (abort f) } else a)
  stop-Kept f a e = elim (Bool-cases (is_started f)) [
    | inl s ↦ rw s (abort f, refl, abort-SameRun f)
    | inr n ↦ rw n (f, e, SameRun-refl f)
  ]

  module _ (f : ActiveFunction) (h : is_operating f ≡ true) (w : W) (calls : List SystemCall) where
    -- The state before the command.
    abbrev before : App W
    before = record { active_function = some f; world = w; system_calls = calls }

    cases : Cases camera junk before (Kept f)
    unfolding replace_function with_function stop_function
    cases = record {
      unchanged = λ calls'. (f, refl, SameRun-refl f);
      tested_connection = (f, refl, SameRun-refl f);
      reconnected = λ calls'. (f, refl, SameRun-refl f);
      replaced = λ new fresh. rw h (f, refl, SameRun-refl f);
      flagged = λ d. (set_download d f, refl, set_download-SameRun d f);
      tested = (f, ap some (test-operating f w h), SameRun-refl f);
      begun = (f, ap some (start-operating f w h), SameRun-refl f);
      stopped = stop-Kept f before refl;
    }

    -- No command replaces a function that operates, or touches more of it than the request to abort and
    -- the download flag.
    pub on_command_received-SameRun :
        (c : Command) (a' : App W) → on_command_received camera junk c before ≡ ok a' → Kept f a'
    on_command_received-SameRun = on_command_received-rule camera junk before (Kept f) cases
