-- ===== src/Tests/Telecommands.antt =====
-- Runs of the telecommands of src/commands/, src/main.cpp and src/communication/MessageHandler.h.
use Prim.Native.String.{String, compare}
use Prim.Native.Nat.{Ordering}
use camera_controller.Base.{
  ℕ, ◌≡◌, ◌≢◌, ◌↔◌, ◌⊎◌, refl, List, [], ◌∷◌, Bool, true, false, Option, none, some, if◌then◌else◌,
  ◌==◌,
}
use camera_controller.Base.Int.{ℤ, pos}
use camera_controller.Outcome.{ok, fault, uncaught_exception}
use camera_controller.Message.{Message, msgtype_telecommand}
use camera_controller.CameraFunction.{Camera, exception, connect_camera, is_operating as operates}
use camera_controller.Sequencer.{operating}
use camera_controller.Intervalometer.{IntervalometerStats}
use camera_controller.Commands.{
  Command, plain, cmd_id_functionstart, cmd_id_function_test_capture, sequencer_setup, JsonLib,
  key_cmdid, key_num_exposures, key_exposure_time, key_download, decode,
}
use camera_controller.Commands.Typing.{IsWellTyped, HasFields, decode_iff}
use camera_controller.CommandHandler.{
  ActiveFunction, sequencer, App, on_command_received, is_operating,
}
use camera_controller.CommandHandler.Safety.{Returns, on_command_received-ok}
use camera_controller.CommandHandler.Effect.{Effect, left_testing}
use camera_controller.CommandHandler.Stuck.{on_commands, StillActive, on_commands_stuck}
use camera_controller.MessageHandler.{handle_message}
use camera_controller.MessageHandler.Faults.{listener, handle_message-fault}
use camera_controller.Tests.Functions.{working, sequence}

-- A JSON library in small: the one text `[1]` is a sequencer's setup, any other does not parse.
pub data Value : Type 0 where
  number : ℕ → Value
  flag : Bool → Value
  setup : Value

is_equal : Ordering → Bool
is_equal Ordering.eq = true
is_equal Ordering.lt = false
is_equal Ordering.gt = false

pub value_at : Value → String → Option Value
value_at setup key =
    if is_equal (compare key key_cmdid)
    then some (number 20)
    else if is_equal (compare key key_num_exposures)
    then some (number 3)
    else if is_equal (compare key key_exposure_time)
    then some (number 500)
    else if is_equal (compare key key_download)
    then some (flag true)
    else none
value_at (number n) key = none
value_at (flag b) key = none

pub number_of : Value → Option ℕ
number_of (number n) = some n
number_of (flag b) = none
number_of setup = none

pub flag_of : Value → Option Bool
flag_of (flag b) = some b
flag_of (number n) = none
flag_of setup = none

pub int_of : Value → Option ℤ
int_of (number n) = some (pos n)
int_of (flag b) = none
int_of setup = none

unfoldable pub parse_setup : List ℕ → Option Value
parse_setup [] = none
parse_setup (x ∷ xs) = if x == 1 then some setup else none

abbrev pub small : JsonLib
small = record {
  Json = Value;
  parse = parse_setup;
  at = value_at;
  get_uint8 = number_of;
  get_int = int_of;
  get_bool = flag_of;
}

abbrev pub setup_command : Command
setup_command = sequencer_setup 20 (pos 3) (pos 500) true

decode_iff_example :
    (decode small setup ≡ some setup_command)
    ↔ (HasFields small setup setup_command × IsWellTyped setup_command)
decode_iff_example = decode_iff small setup setup_command

-- The command is read back from its object.
pub decodes_setup : decode small setup ≡ some setup_command
unfolding value_at is_equal number_of int_of flag_of
decodes_setup = decode_iff_example.1 ((refl, refl, refl, refl), refl)

abbrev pub no_statistics : IntervalometerStats
no_statistics = record {
  total_delay = pos 0;
  max_delay = pos 0;
  delayed_exposures_count = 0;
  exposures_count = 0;
}

abbrev pub operating_app : App ℕ
operating_app = record {
  active_function = some (sequencer (sequence (pos 2)));
  world = 0;
  system_calls = [];
}

on_command_received-ok_example :
    Returns working no_statistics
      (on_command_received working no_statistics setup_command operating_app)
on_command_received-ok_example =
    on_command_received-ok working no_statistics setup_command operating_app refl

abbrev garbled : Message
garbled = record { type = 2; size = 1; bytes = 0 ∷ [] }

handle_message-fault_example :
    ((garbled.type ≡ msgtype_telecommand)
      × (parse_setup garbled.bytes ≡ none)
      × (handle_message small (listener small working no_statistics) garbled operating_app
          ≡ fault uncaught_exception))
    ⊎ (((garbled.type ≢ msgtype_telecommand) ⊎ ((j : Value) × (parse_setup garbled.bytes ≡ some j)))
        × (a' : App ℕ) × (handle_message small
              (listener small working no_statistics)
              garbled
              operating_app
            ≡ ok a'))
handle_message-fault_example =
    handle_message-fault small working no_statistics garbled operating_app

-- A camera whose text for the exposure time is no number.
abbrev throwing : Camera ℕ
throwing = record working { capture = λ t folder w. (exception, w) }

abbrev idle_sequence : ActiveFunction
idle_sequence = sequencer (record (sequence (pos 2)) { started = false })

-- The function is started after the test, in vain.
on_commands_stuck_example :
    (a' : App ℕ) × (on_commands throwing no_statistics
        (plain cmd_id_function_test_capture ∷ plain cmd_id_functionstart ∷ [])
        (record { active_function = some idle_sequence; world = 0; system_calls = [] })
      ≡ ok a')
    × StillActive (left_testing idle_sequence) a'.active_function
unfolding is_operating operating operates connect_camera
on_commands_stuck_example =
    on_commands_stuck throwing no_statistics (plain cmd_id_functionstart ∷ []) idle_sequence 0 []
      (refl, tt) refl refl refl
