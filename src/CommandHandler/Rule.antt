-- ===== src/CommandHandler/Rule.antt =====
-- One rule for what holds after a command: a case for each thing that a command can do.
use camera_controller.Base.{ℕ, ◌≡◌, subst, Bool, true, false, none, some, List, ◌==◌, if◌then◌else◌}
use camera_controller.Base.Int.{ℤ}
use camera_controller.Outcome.{Outcome, ok, fault, bad_cast}
use camera_controller.CameraFunction.{Camera}
use camera_controller.Sequencer
use camera_controller.Intervalometer
use camera_controller.Intervalometer.{IntervalometerStats}
use camera_controller.Commands.{
  Command, plain, download_after_exposure, sequencer_setup, intervalometer_setup, cmd_id_of,
  cmd_id_shutdown, cmd_id_reboot, cmd_id_functionstart, cmd_id_functionstop,
  cmd_id_camera_test_connection, cmd_id_camera_reconnect, cmd_id_function_test_capture,
  cmd_id_download_after_exposure, cmd_id_sequencersetup, cmd_id_intervalometersetup,
}
use camera_controller.CommandHandler.{
  ActiveFunction, sequencer, intervalometer, SystemCall, App, start, test, set_download,
  replace_function, setup_sequencer, setup_intervalometer, set_download_after_exposure,
  with_function, stop_function, test_connection, reconnect, power, plain_case, on_command_received,
}

-- A function as its constructor leaves it.
pub data IsFresh (junk : IntervalometerStats) : ActiveFunction → Type 0 where
  new_sequencer : (n e : ℤ) (d : Bool) → IsFresh junk (sequencer (Sequencer.init n e d))
  new_intervalometer :
      (n i e : ℤ) (d : Bool) → IsFresh junk (intervalometer (Intervalometer.init junk n i e d))

module _ {W : Type 0} (camera : Camera W) (junk : IntervalometerStats) (a : App W)
    (P : App W → Type 0) where
  -- What has to be shown of each thing that a command can do in the state `a`.
  pub record Cases : Type 0 where
    pub unchanged : (calls : List SystemCall) → P (record a { system_calls = calls })
    pub tested_connection : P (record a { world = (camera.is_responsive a.world).1 })
    pub reconnected :
        (calls : List SystemCall)
        → P (record a {
          world = (camera.connect (camera.disconnect a.world)).1;
          system_calls = calls;
        })
    pub replaced :
        (new : ActiveFunction) → IsFresh junk new → P (replace_function camera junk a new)
    pub flagged :
        (d : Bool)
        → P (elim a.active_function as (λ _. App W) [
          | some f ↦ record a { active_function = some (set_download d f) }
          | none ↦ a
        ])
    pub tested : P (with_function camera junk (test camera junk) a)
    pub begun : P (with_function camera junk (start camera junk) a)
    pub stopped : P (stop_function camera junk a)

  module _ (cases : Cases) where
    open cases use {
      unchanged, tested_connection, reconnected, replaced, flagged, tested, begun, stopped,
    }

    if-P : (b : Bool) (x y : App W) → P x → P y → P (if b then x else y)
    if-P true x y h k = h
    if-P false x y h k = k

    plain_case-P : (id : ℕ) → P (plain_case camera junk id a)
    unfolding plain_case power test_connection reconnect
    plain_case-P id = if-P (id == cmd_id_reboot) _ _ (unchanged _) (
        if-P (id == cmd_id_shutdown) _ _ (unchanged _) (
          if-P (id == cmd_id_camera_test_connection) _ _
            (if-P (camera.is_connected a.world) _ _ tested_connection (unchanged a.system_calls))
            (if-P (id == cmd_id_camera_reconnect) _ _ (reconnected _) (
              if-P (id == cmd_id_function_test_capture) _ _ tested (
                if-P (id == cmd_id_functionstart) _ _ begun
                  (if-P (id == cmd_id_functionstop) _ _ stopped (unchanged a.system_calls)))))))

    -- The states that the handler returns.
    abbrev Settles : Outcome (App W) → Type 0
    Settles r = (a' : App W) → r ≡ ok a' → P a'

    ok_injective : {x y : App W} → ok x ≡ ok y → x ≡ y
    ok_injective e = cc

    ok-Settles : (x : App W) → P x → Settles (ok x)
    ok-Settles x k a' e = subst P (ok_injective e) k

    fault-Settles : Settles (fault bad_cast)
    fault-Settles a' e = cc

    if-Settles :
        (b : Bool) (x y : Outcome (App W)) → Settles x → Settles y → Settles (if b then x else y)
    if-Settles true x y h k = h
    if-Settles false x y h k = k

    setup_sequencer-Settles : (c : Command) → Settles (setup_sequencer camera junk a c)
    unfolding setup_sequencer
    setup_sequencer-Settles (sequencer_setup id n e d) =
        ok-Settles _ (replaced _ (IsFresh.new_sequencer n e d))
    setup_sequencer-Settles (plain id) = fault-Settles
    setup_sequencer-Settles (download_after_exposure id d) = fault-Settles
    setup_sequencer-Settles (intervalometer_setup id n e i d) = fault-Settles

    setup_intervalometer-Settles : (c : Command) → Settles (setup_intervalometer camera junk a c)
    unfolding setup_intervalometer
    setup_intervalometer-Settles (intervalometer_setup id n e i d) =
        ok-Settles _ (replaced _ (IsFresh.new_intervalometer n i e d))
    setup_intervalometer-Settles (plain id) = fault-Settles
    setup_intervalometer-Settles (download_after_exposure id d) = fault-Settles
    setup_intervalometer-Settles (sequencer_setup id n e d) = fault-Settles

    set_download_after_exposure-Settles :
        (c : Command) → Settles (set_download_after_exposure camera junk a c)
    unfolding set_download_after_exposure
    set_download_after_exposure-Settles (download_after_exposure id d) = ok-Settles _ (flagged d)
    set_download_after_exposure-Settles (plain id) = fault-Settles
    set_download_after_exposure-Settles (sequencer_setup id n e d) = fault-Settles
    set_download_after_exposure-Settles (intervalometer_setup id n e i d) = fault-Settles

    pub on_command_received-rule :
        (c : Command) (a' : App W) → on_command_received camera junk c a ≡ ok a' → P a'
    unfolding on_command_received
    on_command_received-rule c =
        if-Settles (cmd_id_of c == cmd_id_sequencersetup) _ _ (setup_sequencer-Settles c) (
          if-Settles (cmd_id_of c == cmd_id_intervalometersetup) _ _
            (setup_intervalometer-Settles c)
            (if-Settles (cmd_id_of c == cmd_id_download_after_exposure) _ _
              (set_download_after_exposure-Settles c) (ok-Settles _ (plain_case-P (cmd_id_of c)))))
