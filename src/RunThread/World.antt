-- ===== src/RunThread/World.antt =====
-- What the camera keeps holds in every reachable state of the two threads.
use camera_controller.Base.{ap, subst}
use camera_controller.CameraFunction.{Camera}
use camera_controller.CameraFunction.Laws.{Keeps}
use camera_controller.Intervalometer.{IntervalometerStats}
use camera_controller.CommandHandler.{ActiveFunction, sequencer, intervalometer}
use camera_controller.CommandHandler.World.{on_command_received-P}
use camera_controller.RunThread.{
  Thread, RunStep, go_on, stop, captured, failed, timed_out, woken, ended, logged, shoot, Program,
  Step, command, run, Reach, here, next,
}

module _ {W : Type 0} (camera : Camera W) (P : W → Type 0) (keeps : Keeps camera P) where
  shoot-P : (f : ActiveFunction) (w : W) → P w → P (shoot camera f w).1
  unfolding shoot
  shoot-P (sequencer s) w h = keeps.captures _ _ w h
  shoot-P (intervalometer s) w h = keeps.captures _ _ w h

  RunStep-P :
      {f f' : ActiveFunction} {w w' : W} {t t' : Thread}
      → RunStep camera f w t f' w' t'
      → P w
      → P w'
  RunStep-P (go_on g) h = h
  RunStep-P (stop g) h = h
  RunStep-P (captured {f} {w} b e r) h = subst P (ap (λ p. p.1) r) (shoot-P f w h)
  RunStep-P (failed {f} {w} r) h = subst P (ap (λ p. p.1) r) (shoot-P f w h)
  RunStep-P timed_out h = h
  RunStep-P (woken a) h = h
  RunStep-P ended h = h
  RunStep-P logged h = h

  module _ (junk : IntervalometerStats) where
    Step-P : {p q : Program W} → Step camera junk p q → P p.app.world → P q.app.world
    Step-P (command {p} c {app'} e) h = on_command_received-P camera junk P keeps c p.app app' h e
    Step-P (run e r) h = RunStep-P r h

    -- What each method of the camera keeps holds of the camera in every state that the program
    -- reaches from one where it holds, whichever commands come and however the threads interleave.
    pub Reach-P : {p q : Program W} → P p.app.world → Reach camera junk p q → P q.app.world
    Reach-P h here = h
    Reach-P h (next r s) = Step-P s (Reach-P h r)
