-- ===== src/CommandHandler.antt =====
-- src/main.cpp: the handler of telecommands, over the camera (an interface on the state `W`) and the
-- active function. What it asks of the operating system is recorded.
pub mod Rule
pub mod Safety
pub mod Effect
pub mod Stuck
pub mod World
use Prim.Native.String.{String}
use camera_controller.Base.{
  ℕ, ◌+◌, Bool, true, false, ◌&&◌, not, Option, none, some, List, [], ◌∷◌, ◌++◌, ◌==◌,
  if◌then◌else◌,
}
use camera_controller.Base.Int.{ℤ, pos}
use camera_controller.Outcome.{Outcome, ok, fault, bad_cast}
use camera_controller.CameraFunction.{Camera, CameraFunction, test_capture}
use camera_controller.Sequencer
use camera_controller.Sequencer.{Sequencer}
use camera_controller.Intervalometer
use camera_controller.Intervalometer.{Intervalometer, IntervalometerStats}
use camera_controller.Commands.{
  Command, plain, download_after_exposure, sequencer_setup, intervalometer_setup, cmd_id_of,
  cmd_id_shutdown, cmd_id_reboot, cmd_id_functionstart, cmd_id_functionstop,
  cmd_id_camera_test_connection, cmd_id_camera_reconnect, cmd_id_function_test_capture,
  cmd_id_download_after_exposure, cmd_id_sequencersetup, cmd_id_intervalometersetup,
}

-- `CameraFunction*`, by the class of the object.
pub data ActiveFunction : Type 0 where
  sequencer : Sequencer → ActiveFunction
  intervalometer : Intervalometer → ActiveFunction

pub data SystemCall : Type 0 where
  sleep_for_seconds : ℕ → SystemCall
  sudo_reboot sudo_halt : SystemCall

pub record App (W : Type 0) : Type 0 where
  pub active_function : Option ActiveFunction
  pub world : W
  pub system_calls : List SystemCall

-- The virtual methods.
unfoldable pub is_operating : ActiveFunction → Bool
is_operating (sequencer s) = Sequencer.operating s
is_operating (intervalometer s) = Intervalometer.operating s

unfoldable pub is_started : ActiveFunction → Bool
is_started (sequencer s) = s.started
is_started (intervalometer s) = s.started

unfoldable pub abort : ActiveFunction → ActiveFunction
abort (sequencer s) = sequencer (Sequencer.abort s)
abort (intervalometer s) = intervalometer (Intervalometer.abort s)

pub set_download : Bool → ActiveFunction → ActiveFunction
set_download value (sequencer s) =
    sequencer (record s { base = record s.base { download_after_exposure = value } })
set_download value (intervalometer s) =
    intervalometer (record s { base = record s.base { download_after_exposure = value } })

module _ {W : Type 0} (camera : Camera W) (junk : IntervalometerStats) where
  unfoldable pub start : ActiveFunction → W → ActiveFunction × W
  start (sequencer s) w = let (r, started) = Sequencer.start camera s w in (sequencer r.0, r.1)
  start (intervalometer s) w =
      let (r, started) = Intervalometer.start camera s w in (intervalometer r.0, r.1)

  pub test : ActiveFunction → W → ActiveFunction × W
  test (sequencer s) w =
      let (s', w') =
        test_capture camera (Sequencer.operating s) (Sequencer.do_test_capture camera) s w in
      (sequencer s', w')
  test (intervalometer s) w =
      let (s', w') =
        test_capture camera (Intervalometer.operating s) (Intervalometer.do_test_capture camera) s
          w in
      (intervalometer s', w')

  -- The two setup cases: a function that operates is kept, any other is replaced.
  unfoldable pub replace_function : App W → ActiveFunction → App W
  replace_function a new = elim a.active_function [
    | some f ↦ if not (is_operating f) then record a { active_function = some new } else a
    | none ↦ record a { active_function = some new }
  ]

  -- The casts of a command by its id. A command of another class is a bad cast.
  unfoldable pub setup_sequencer : App W → Command → Outcome (App W)
  setup_sequencer a (sequencer_setup id n e d) =
      ok (replace_function a (sequencer (Sequencer.init n e d)))
  setup_sequencer a (plain id) = fault bad_cast
  setup_sequencer a (download_after_exposure id d) = fault bad_cast
  setup_sequencer a (intervalometer_setup id n e i d) = fault bad_cast

  pub setup_intervalometer : App W → Command → Outcome (App W)
  setup_intervalometer a (intervalometer_setup id n e i d) =
      ok (replace_function a (intervalometer (Intervalometer.init junk n i e d)))
  setup_intervalometer a (plain id) = fault bad_cast
  setup_intervalometer a (download_after_exposure id d) = fault bad_cast
  setup_intervalometer a (sequencer_setup id n e d) = fault bad_cast

  pub set_download_after_exposure : App W → Command → Outcome (App W)
  set_download_after_exposure a (download_after_exposure id d) = ok (elim a.active_function [
    | some f ↦ record a { active_function = some (set_download d f) }
    | none ↦ a
  ])
  set_download_after_exposure a (plain id) = fault bad_cast
  set_download_after_exposure a (sequencer_setup id n e d) = fault bad_cast
  set_download_after_exposure a (intervalometer_setup id n e i d) = fault bad_cast

  -- A method of the active function that may use the camera, where there is a function.
  unfoldable pub with_function : (ActiveFunction → W → ActiveFunction × W) → App W → App W
  with_function method a = elim a.active_function [
    | some f ↦ let (f', w') = method f a.world in record a { active_function = some f'; world = w' }
    | none ↦ a
  ]

  unfoldable pub stop_function : App W → App W
  stop_function a = elim a.active_function [
    | some f ↦ if is_started f then record a { active_function = some (abort f) } else a
    | none ↦ a
  ]

  pub test_connection : App W → App W
  test_connection a =
      if camera.is_connected a.world
      then record a { world = (camera.is_responsive a.world).1 }
      else a

  pub reconnect : App W → App W
  reconnect a = record a {
    world = (camera.connect (camera.disconnect a.world)).1;
    system_calls = a.system_calls ++ (sleep_for_seconds 5 ∷ []);
  }

  pub power : SystemCall → App W → App W
  power call a = record a { system_calls = a.system_calls ++ (sleep_for_seconds 5 ∷ call ∷ []) }

  -- The cases of the `switch` that read nothing but the id; any other id does nothing.
  unfoldable pub plain_case : ℕ → App W → App W
  plain_case id a =
      if id == cmd_id_reboot
      then power sudo_reboot a
      else if id == cmd_id_shutdown
      then power sudo_halt a
      else if id == cmd_id_camera_test_connection
      then test_connection a
      else if id == cmd_id_camera_reconnect
      then reconnect a
      else if id == cmd_id_function_test_capture
      then with_function test a
      else if id == cmd_id_functionstart
      then with_function start a
      else if id == cmd_id_functionstop
      then stop_function a
      else a

  -- `onCommandReceived`. The cases that cast the command stand first: the ids are distinct, so the
  -- order of the cases does not matter.
  unfoldable pub on_command_received : Command → App W → Outcome (App W)
  on_command_received c a =
      let id = cmd_id_of c in
      if id == cmd_id_sequencersetup
      then setup_sequencer a c
      else if id == cmd_id_intervalometersetup
      then setup_intervalometer a c
      else if id == cmd_id_download_after_exposure
      then set_download_after_exposure a c
      else ok (plain_case id a)
