-- ===== src/CommandHandler/World.antt =====
-- What the camera keeps, no command breaks.
use camera_controller.Base.{◌≡◌, Bool, not, Option, none, some, List}
use camera_controller.Outcome.{ok}
use camera_controller.CameraFunction.{Camera, connect_camera}
use camera_controller.CameraFunction.Laws.{Keeps, if-P, connect_camera-P, test_capture-P}
use camera_controller.Sequencer
use camera_controller.Intervalometer
use camera_controller.Intervalometer.{IntervalometerStats}
use camera_controller.Commands.{Command}
use camera_controller.CommandHandler.{
  ActiveFunction, sequencer, intervalometer, SystemCall, App, is_operating, is_started, start, test,
  replace_function, with_function, stop_function, on_command_received,
}
use camera_controller.CommandHandler.Rule.{Cases, on_command_received-rule}

module _ {W : Type 0} (camera : Camera W) (junk : IntervalometerStats) (P : W → Type 0)
    (keeps : Keeps camera P) where
  start-P : (f : ActiveFunction) (w : W) → P w → P (start camera junk f w).1
  unfolding start Sequencer.start Intervalometer.start
  start-P (sequencer s) w h =
      let h' = connect_camera-P camera P keeps w h in
      let Q : (Sequencer.Sequencer × W) × Bool → Type 0 = λ r. P r.0.1 in
      if-P Q s.base.testing _ _ h
        (if-P Q (not s.started) _ _ (if-P Q (not (connect_camera camera w).0) _ _ h' h') h)
  start-P (intervalometer s) w h =
      let h' = connect_camera-P camera P keeps w h in
      let Q : (Intervalometer.Intervalometer × W) × Bool → Type 0 = λ r. P r.0.1 in
      if-P Q s.base.testing _ _ h
        (if-P Q (not s.started) _ _ (if-P Q (not (connect_camera camera w).0) _ _ h' h') h)

  test-P : (f : ActiveFunction) (w : W) → P w → P (test camera junk f w).1
  unfolding test Sequencer.do_test_capture Intervalometer.do_test_capture
  test-P (sequencer s) w h =
      test_capture-P camera P keeps (Sequencer.operating s) (Sequencer.do_test_capture camera) s w
        (λ w' h'. keeps.captures _ _ w' h') h
  test-P (intervalometer s) w h =
      test_capture-P camera P keeps (Intervalometer.operating s)
        (Intervalometer.do_test_capture camera) s w (λ w' h'. keeps.captures _ _ w' h') h

  cases :
      (o : Option ActiveFunction) (w : W) (calls : List SystemCall)
      → P w
      → Cases camera junk
          (record { active_function = o; world = w; system_calls = calls })
          (λ a. P a.world)
  unfolding replace_function with_function stop_function
  cases none w calls h = record {
    unchanged = λ calls'. h;
    tested_connection = keeps.responsive w h;
    reconnected = λ calls'. keeps.connects _ (keeps.disconnects w h);
    replaced = λ new fresh. h;
    flagged = λ d. h;
    tested = h;
    begun = h;
    stopped = h;
  }
  cases (some f) w calls h = record {
    unchanged = λ calls'. h;
    tested_connection = keeps.responsive w h;
    reconnected = λ calls'. keeps.connects _ (keeps.disconnects w h);
    replaced = λ new fresh. if-P (λ (a : App W). P a.world) (not (is_operating f)) _ _ h h;
    flagged = λ d. h;
    tested = test-P f w h;
    begun = start-P f w h;
    stopped = if-P (λ (a : App W). P a.world) (is_started f) _ _ h h;
  }

  -- What each method of the camera keeps, every command keeps.
  pub on_command_received-P :
      (c : Command) (a a' : App W)
      → P a.world
      → on_command_received camera junk c a ≡ ok a'
      → P a'.world
  on_command_received-P c a a' h =
      on_command_received-rule camera junk a (λ a'. P a'.world)
        (cases a.active_function a.world a.system_calls h) c a'
