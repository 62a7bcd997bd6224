-- ===== src/CameraWrapper.antt =====
-- src/camera/CameraWrapper.{h,cpp}: the camera, over the calls of gphoto2, of the clock and of the file
-- system, which are an interface on the state `W`. Log lines are left out.
pub mod Config
pub mod Capture
pub mod Connection
use Prim.Native.String.{String, compare, ◌++◌}
use Prim.Native.Nat.{Ordering}
use camera_controller.Base.{
  ℕ, zero, suc, ◌+◌, ◌-◌, Bool, true, false, ◌&&◌, not, Option, none, some, List, [], ◌∷◌,
  if◌then◌else◌, ltb, length, ◌==◌,
}
use camera_controller.Base.Int.{ℤ, pos, negsuc, ◌+ℤ◌, ◌-ℤ◌, ◌*ℤ◌, ltb_ℤ, eqb_ℤ}
use camera_controller.Outcome.{Outcome, ok, fault, uncaught_exception, use_after_free, ◌>>=◌}
use camera_controller.RemoteTrigger.{Call, trigger}

-- `Camera*`: what it points to.
pub data Pointer : Type 0 where
  null live freed : Pointer

pub data WidgetType : Type 0 where
  menu radio text other_type : WidgetType

pub data EventType : Type 0 where
  unknown timed_out file_added folder_added capture_complete file_changed : EventType

pub record FilePath : Type 0 where
  pub folder : String
  pub name : String

-- The calls that the wrapper makes. A call that fails returns false or `none`; `wait_for_event` also
-- returns the event, its file and the milliseconds it took, and `stoi` is `none` where it throws.
pub record Gphoto (W : Type 0) : Type 1 where
  pub Widget : Type 0
  pub camera_new : W → Bool × W
  pub camera_init : W → Bool × W
  pub camera_exit : W → W
  pub get_single_config : Pointer → String → W → Option Widget × W
  pub set_single_config : Pointer → String → Widget → W → Bool × W
  pub get_value : Widget → Option String
  pub set_value : Widget → String → Option Widget
  pub get_type : Widget → Option WidgetType
  pub count_choices : Widget → ℤ
  pub get_choice : Widget → ℕ → Option String
  pub camera_capture : Pointer → W → Option FilePath × W
  pub wait_for_event : Pointer → ℤ → W → Option (EventType × FilePath × ℤ) × W
  pub camera_file_get : Pointer → FilePath → W → Bool × W
  pub file_new_from_fd : W → Bool × W
  pub fopen : String → W → Bool × W
  pub fileno : W → Bool
  pub fclose : W → W
  pub now : W → ℤ × W
  pub sleep_for : ℤ → W → W
  pub sleep_until : ℤ → W → W
  pub gpio : List Call → W → W
  pub stoi : String → Option ℤ

-- The members, the state of everything else, and how many widgets, open files and camera files the
-- wrapper has and has not given back.
pub record CameraWrapper (W : Type 0) : Type 0 where
  pub connected : Bool
  pub serial : String
  pub camera : Pointer
  pub widgets : ℕ
  pub open_files : ℕ
  pub camera_files : ℕ
  pub world : W

abbrev pub config_serial_number : String
config_serial_number = "serialnumber"

abbrev pub config_exposure_time : String
config_exposure_time = "500d"

unfoldable pub is_eq : Ordering → Bool
is_eq Ordering.eq = true
is_eq Ordering.lt = false
is_eq Ordering.gt = false

-- `==` of `std::string`.
unfoldable pub string_eq : String → String → Bool
string_eq s t = is_eq (compare s t)

unfoldable pub is_freed : Pointer → Bool
is_freed null = false
is_freed live = false
is_freed freed = true

-- What a call of gphoto2 on the camera makes: one on a camera that is freed is undefined. A null
-- pointer is what gphoto2 answers itself.
unfoldable pub on_camera :
    {W A : Type 0} → CameraWrapper W → A × CameraWrapper W → Outcome A × CameraWrapper W
on_camera c called =
    if is_freed c.camera then (fault use_after_free, c) else (ok called.0, called.1)

-- The types that `setConfigValue` can set.
unfoldable pub is_settable : WidgetType → Bool
is_settable menu = true
is_settable radio = true
is_settable text = true
is_settable other_type = false

unfoldable pub is_file_added : EventType → Bool
is_file_added file_added = true
is_file_added unknown = false
is_file_added timed_out = false
is_file_added folder_added = false
is_file_added capture_complete = false
is_file_added file_changed = false

-- `exposures[index]`, for `index >= 0 && index < exposures.size()`.
unfoldable pub choice_at : ℤ → List String → Option String
choice_at (negsuc n) exposures = none
choice_at (pos n) [] = none
choice_at (pos zero) (x ∷ xs) = some x
choice_at (pos (suc n)) (x ∷ xs) = choice_at (pos n) xs

module _ {W : Type 0} (gp : Gphoto W) where
  open gp use {
    Widget, get_single_config, set_single_config, get_value, set_value, get_type, count_choices,
    get_choice,
  }

  -- A config call that gets a widget, uses it and frees it on every way out; `failed` is returned where
  -- there is no widget.
  unfoldable pub with_widget :
      {A : Type 0}
      → A
      → (Widget → W → A × W)
      → String
      → CameraWrapper W
      → Outcome A × CameraWrapper W
  with_widget failed body config_name c =
      let (widget, w) = get_single_config c.camera config_name c.world in
      on_camera c (elim widget [
        | none ↦ (failed, record c { world = w })
        | some widget ↦
            let opened = record c { widgets = c.widgets + 1 } in
            let (result, w') = body widget w in
            (result, record opened { world = w'; widgets = opened.widgets - 1 })
      ])

  -- `getTextConfigValue(config_name)`
  unfoldable pub get_text_config_value : String → CameraWrapper W → Outcome String × CameraWrapper W
  get_text_config_value =
      with_widget "" λ widget w. (elim (get_value widget) [ none ↦ "" | some value ↦ value ], w)

  -- `setConfigValue(config_name, value)`
  unfoldable pub set_config_value :
      String → String → CameraWrapper W → Outcome Bool × CameraWrapper W
  set_config_value config_name value c =
      with_widget false
        (λ widget w. elim (get_type widget) [
          | none ↦ (false, w)
          | some type ↦
              if is_settable type
              then elim (set_value widget value) [
                | none ↦ (false, w)
                | some widget' ↦ set_single_config c.camera config_name widget' w
              ]
              else (false, w)
        ])
        config_name c

  -- The loop over the choices, with `left` to go from `i`; it stops at the first that fails.
  unfoldable pub choices_from : Widget → ℕ → ℕ → List String
  choices_from widget zero i = []
  choices_from widget (suc left) i = elim (get_choice widget i) [
    | none ↦ []
    | some ch ↦ ch ∷ choices_from widget left (i + 1)
  ]

  -- `for (int i = 0; i < n; i++)` does nothing for a negative `n`.
  unfoldable pub choice_count : ℤ → ℕ
  choice_count (pos n) = n
  choice_count (negsuc n) = 0

  -- `listConfigChoices(config_name)`
  unfoldable pub list_config_choices :
      String → CameraWrapper W → Outcome (List String) × CameraWrapper W
  list_config_choices =
      with_widget [] λ widget w. (choices_from widget (choice_count (count_choices widget)) 0, w)

  -- `getSerialNumber()`
  unfoldable pub get_serial_number : CameraWrapper W → Outcome String × CameraWrapper W
  get_serial_number = get_text_config_value config_serial_number

  -- `setExposureTime(index)`
  unfoldable pub set_exposure_time : ℤ → CameraWrapper W → Outcome Bool × CameraWrapper W
  set_exposure_time index c =
      let (exposures, c') = list_config_choices config_exposure_time c in
      elim exposures [
        | fault e ↦ (fault e, c')
        | ok exposures ↦ elim (choice_at index exposures) [
          | none ↦ (ok false, c')
          | some exposure ↦ set_config_value config_exposure_time exposure c'
        ]
      ]
