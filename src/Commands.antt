-- ===== src/Commands.antt =====
-- src/commands/Commands.{h,cpp}: the telecommands and their decoding from JSON. The JSON library is a
-- parameter; where it throws, and the source catches, the result is `none`. Log lines are left out.
pub mod Typing
use Prim.Native.String.{String}
use camera_controller.Base.{
  ℕ, suc, ◌+◌, Bool, true, false, Option, none, some, List, [], ◌∷◌, ◌==◌, if◌then◌else◌,
}
use camera_controller.Base.Int.{ℤ}

-- `enum Commands`
abbrev pub cmd_id_shutdown : ℕ
cmd_id_shutdown = 1

abbrev pub cmd_id_reboot : ℕ
cmd_id_reboot = 2

abbrev pub cmd_id_functionstart : ℕ
cmd_id_functionstart = 5

abbrev pub cmd_id_functionstop : ℕ
cmd_id_functionstop = 6

abbrev pub cmd_id_camera_test_connection : ℕ
cmd_id_camera_test_connection = 9

abbrev pub cmd_id_camera_reconnect : ℕ
cmd_id_camera_reconnect = 10

abbrev pub cmd_id_function_test_capture : ℕ
cmd_id_function_test_capture = 18

abbrev pub cmd_id_download_after_exposure : ℕ
cmd_id_download_after_exposure = 19

abbrev pub cmd_id_sequencersetup : ℕ
cmd_id_sequencersetup = 20

abbrev pub cmd_id_intervalometersetup : ℕ
cmd_id_intervalometersetup = 30

abbrev pub key_cmdid : String
key_cmdid = "cmd_id"

abbrev pub key_num_exposures : String
key_num_exposures = "num_exposures"

abbrev pub key_exposure_time : String
key_exposure_time = "exposure_time"

abbrev pub key_interval : String
key_interval = "interval"

abbrev pub key_download : String
key_download = "download"

-- A constructor for each class, with its fields in the order of the constructors' arguments.
pub data Command : Type 0 where
  plain : (cmd_id : ℕ) → Command
  download_after_exposure : (cmd_id : ℕ) → (download : Bool) → Command
  sequencer_setup :
      (cmd_id : ℕ) → (num_exposures : ℤ) → (exp_time : ℤ) → (download : Bool) → Command
  intervalometer_setup :
      (cmd_id : ℕ)
      → (num_exposures : ℤ) → (exp_time : ℤ) → (interval : ℤ) → (download : Bool) → Command

-- The field that every class has from `Command`.
unfoldable pub cmd_id_of : Command → ℕ
cmd_id_of (plain id) = id
cmd_id_of (download_after_exposure id download) = id
cmd_id_of (sequencer_setup id num_exposures exp_time download) = id
cmd_id_of (intervalometer_setup id num_exposures exp_time interval download) = id

-- What the code calls of nlohmann::json. `none` is an exception: a text that does not parse, a key
-- that is not there, a value of another type.
pub record JsonLib : Type 1 where
  pub Json : Type 0
  pub parse : List ℕ → Option Json
  pub at : Json → String → Option Json
  pub get_uint8 : Json → Option ℕ
  pub get_int : Json → Option ℤ
  pub get_bool : Json → Option Bool

infixl 5 ◌>>=◌
abbrev pub ◌>>=◌ {ℓ κ} : {A : Type ℓ} {B : Type κ} → Option A → (A → Option B) → Option B
none >>= f = none
some a >>= f = f a

module _ (lib : JsonLib) where
  open lib use {Json, at, get_uint8, get_int, get_bool}

  -- `j.at(key).get<T>()`
  abbrev pub uint8_at : Json → String → Option ℕ
  uint8_at j key = at j key >>= get_uint8

  abbrev pub int_at : Json → String → Option ℤ
  int_at j key = at j key >>= get_int

  abbrev pub bool_at : Json → String → Option Bool
  bool_at j key = at j key >>= get_bool

  pub decode_empty_command : Json → Option Command
  decode_empty_command j = do id ← uint8_at j key_cmdid; some (plain id)

  pub decode_setup_sequencer : Json → Option Command
  decode_setup_sequencer j = do
    id ← uint8_at j key_cmdid
    num_exposures ← int_at j key_num_exposures
    exp_time ← int_at j key_exposure_time
    download ← bool_at j key_download
    some (sequencer_setup id num_exposures exp_time download)

  pub decode_setup_intervalometer : Json → Option Command
  decode_setup_intervalometer j = do
    id ← uint8_at j key_cmdid
    num_exposures ← int_at j key_num_exposures
    exp_time ← int_at j key_exposure_time
    interval ← int_at j key_interval
    download ← bool_at j key_download
    some (intervalometer_setup id num_exposures exp_time interval download)

  pub decode_download_after_exposure : Json → Option Command
  decode_download_after_exposure j = do
    id ← uint8_at j key_cmdid
    download ← bool_at j key_download
    some (download_after_exposure id download)

  -- `decoder_map`, in the order of its initialiser.
  pub decoder_map : List (ℕ × (Json → Option Command))
  decoder_map =
      (cmd_id_shutdown, decode_empty_command)
      ∷ (cmd_id_reboot, decode_empty_command)
      ∷ (cmd_id_functionstart, decode_empty_command)
      ∷ (cmd_id_functionstop, decode_empty_command)
      ∷ (cmd_id_camera_test_connection, decode_empty_command)
      ∷ (cmd_id_camera_reconnect, decode_empty_command)
      ∷ (cmd_id_function_test_capture, decode_empty_command)
      ∷ (cmd_id_download_after_exposure, decode_download_after_exposure)
      ∷ (cmd_id_sequencersetup, decode_setup_sequencer)
      ∷ (cmd_id_intervalometersetup, decode_setup_intervalometer)
      ∷ []

  -- `count(id) >= 1` and `at(id)` of the map, in one.
  pub find_decoder : ℕ → List (ℕ × (Json → Option Command)) → Option (Json → Option Command)
  find_decoder id [] = none
  find_decoder id ((key, decoder) ∷ rest) = if key == id then some decoder else find_decoder id rest

  -- `JsonCommandDecoder::decode`
  pub decode : Json → Option Command
  decode j = do id ← uint8_at j key_cmdid; decoder ← find_decoder id decoder_map; decoder j
