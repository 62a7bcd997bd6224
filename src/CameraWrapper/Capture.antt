-- ===== src/CameraWrapper/Capture.antt =====
-- src/camera/CameraWrapper.cpp: exposures, the wait for the picture, and its download.
pub mod Wait
pub mod Members
pub mod Duration
pub mod Dangling
use Prim.Native.String.{String, ◌++◌}
use camera_controller.Base.{
  ℕ, zero, suc, ◌+◌, ◌-◌, ◌≡◌, refl, sym, ap, ◌∙◌, Bool, true, false, not, Option, none, some,
  Option-cases, List, [], ◌∷◌, if◌then◌else◌, arith, Bool-cases,
}
use camera_controller.Base.Int.{ℤ, pos, negsuc, ◌+ℤ◌, ◌-ℤ◌, ◌*ℤ◌, ltb_ℤ, eqb_ℤ, int_of}
use camera_controller.Outcome.{Outcome, ok, fault, uncaught_exception, use_after_free, ◌>>=◌}
use camera_controller.RemoteTrigger.{trigger}
use camera_controller.CameraWrapper.{
  EventType, file_added, is_freed, on_camera, is_file_added, FilePath, Gphoto, CameraWrapper,
  get_text_config_value, list_config_choices, string_eq, config_exposure_time,
}
use camera_controller.CameraWrapper.Config.{SameMembers}

-- A wait that may go on: `ok none` while it does.
abbrev pub Waited : Type 0 → Type 0
Waited W = Outcome (Option (Bool × FilePath)) × CameraWrapper W

module _ {W : Type 0} (gp : Gphoto W) where
  open gp use {
    wait_for_event, camera_capture, camera_file_get, file_new_from_fd, fopen, fileno, fclose, now,
    sleep_for, sleep_until, gpio, stoi,
  }

  -- `exposureTimeFromString`: `stoi` throws for a text that begins with no number.
  unfoldable pub exposure_time_from_string : String → Outcome ℤ
  exposure_time_from_string exposure_time = elim (stoi exposure_time) [
    | none ↦ fault uncaught_exception
    | some n ↦
        let exp_time = n *ℤ pos 100 in
        ok (if not (eqb_ℤ exp_time (negsuc 99)) then exp_time else pos 0)
  ]

  -- `getCurrentExposureTime()`
  unfoldable pub get_current_exposure_time : CameraWrapper W → Outcome ℤ × CameraWrapper W
  get_current_exposure_time c =
      let (exp, c') = get_text_config_value gp config_exposure_time c in
      (
        exp >>= λ text.
            if not (string_eq text "") then exposure_time_from_string text else ok (negsuc 0),
        c',
      )

  -- The loop of `listAvailableExposureTimes()`
  unfoldable pub exposure_times : List String → Outcome (List ℤ)
  exposure_times [] = ok []
  exposure_times (choice ∷ choices) = do
    time ← exposure_time_from_string choice
    times ← exposure_times choices
    ok (time ∷ times)

  -- `listAvailableExposureTimes()`
  unfoldable pub list_available_exposure_times :
      CameraWrapper W → Outcome (List ℤ) × CameraWrapper W
  list_available_exposure_times c =
      let (choices, c') = list_config_choices gp config_exposure_time c in
      (choices >>= λ texts. exposure_times texts, c')

  -- The loop of `waitForCapture` over at most `fuel` events: the last event's file, or that a wait
  -- failed.
  unfoldable pub event_loop :
      ℕ → ℤ → CameraWrapper W → Outcome (Option (Option FilePath)) × CameraWrapper W
  event_loop zero timeout c = (ok none, c)
  event_loop (suc fuel) timeout c =
      let (event, w) = wait_for_event c.camera timeout c.world in
      if is_freed c.camera then (fault use_after_free, c) else elim event [
        | none ↦ (ok (some none), record c { world = w })
        | some (type, file, dur) ↦
            let rest = event_loop fuel (timeout -ℤ int_of dur) (record c { world = w }) in
            if is_file_added type then (ok (some (some file)), record c { world = w }) else rest
      ]

  -- `waitForCapture(file, timeout)`, with the file that it sets. The loop ends at GP_EVENT_FILE_ADDED
  -- only, so that is the case taken after it.
  unfoldable pub wait_for_capture : ℕ → ℤ → FilePath → CameraWrapper W → Waited W
  wait_for_capture fuel timeout file c =
      let (c_start, w₀) = now c.world in
      let (event, c₁) = event_loop fuel timeout (record c { world = w₀ }) in
      elim event [
        | fault e ↦ (fault e, c₁)
        | ok none ↦ (ok none, c₁)
        | ok (some none) ↦ (ok (some (false, file)), c₁)
        | ok (some (some added)) ↦
            let (c_end, w₂) = now c₁.world in
            let duration = c_end -ℤ c_start in
            let w₃ =
              if ltb_ℤ duration (pos 1000) then sleep_for (pos 1000 -ℤ duration) w₂ else w₂ in
            (ok (some (true, added)), record c₁ { world = w₃ })
      ]

  -- The do-while loop that waits for the end of the exposure, over at most `fuel` rounds: whether it is
  -- over.
  unfoldable pub exposure_loop : ℕ → ℤ → W → Bool × W
  exposure_loop zero end_exposure w = (false, w)
  exposure_loop (suc fuel) end_exposure w =
      let (t, w₁) = now w in
      let remaining = end_exposure -ℤ t in
      let w₂ =
        if ltb_ℤ remaining (pos 30000)
        then sleep_until end_exposure w₁
        else sleep_for (pos 30000) w₁ in
      let rest = exposure_loop fuel end_exposure w₂ in
      if ltb_ℤ t end_exposure then rest else (true, w₂)

  -- The exposure between the two triggers, and the wait for its picture.
  unfoldable pub expose : ℕ → ℤ → FilePath → CameraWrapper W → Waited W
  expose fuel exposure_time path c =
      let (t, w₁) = now (gpio (trigger 1) c.world) in
      let (over, w₂) = exposure_loop fuel (t +ℤ exposure_time) w₁ in
      let waited =
        wait_for_capture fuel (pos 30000) path (record c { world = gpio (trigger 1) w₂ }) in
      if over then waited else (ok none, record c { world = w₂ })

  -- `remoteCapture(exposure_time, path)`
  unfoldable pub remote_capture :
      ℕ → ℤ → FilePath → CameraWrapper W → Outcome (Option (Bool × FilePath)) × CameraWrapper W
  remote_capture fuel exposure_time path c =
      let (curr_exp, c₁) = get_current_exposure_time c in
      elim curr_exp [
        | fault e ↦ (fault e, c₁)
        | ok n ↦
            let (waited, c₂) = expose fuel exposure_time path c₁ in
            if not (eqb_ℤ n (pos 0)) then (ok (some (false, path)), c₁) else (waited, c₂)
      ]

  -- `wiredCapture(path)`
  unfoldable pub wired_capture :
      FilePath → CameraWrapper W → Outcome (Bool × FilePath) × CameraWrapper W
  wired_capture path c =
      let (result, w) = camera_capture c.camera c.world in
      on_camera c (
        elim result [ none ↦ (false, path) | some captured ↦ (true, captured) ],
        record c { world = w },
      )

  -- The two parts of the end of `downloadFile`.
  unfoldable pub close_file : CameraWrapper W → CameraWrapper W
  close_file c = record c { open_files = c.open_files - 1; world = fclose c.world }

  unfoldable pub free_file : CameraWrapper W → CameraWrapper W
  free_file c = record c { camera_files = c.camera_files - 1 }

  -- `downloadFile(path, dest_file_path)`
  unfoldable pub download_file :
      FilePath → String → CameraWrapper W → Outcome Bool × CameraWrapper W
  download_file path dest_file_path c =
      let (opened, w₁) = fopen dest_file_path c.world in
      let c₁ = record c { open_files = c.open_files + 1; world = w₁ } in
      let (created, w₂) = file_new_from_fd w₁ in
      let (success, w₃) = camera_file_get c.camera path w₂ in
      if not opened
      then (ok false, record c { world = w₁ })
      else if not (fileno w₁)
      then (ok false, close_file c₁)
      else if not created
      then (ok false, close_file (record c₁ { world = w₂ }))
      else if is_freed c.camera
      then (fault use_after_free, record c₁ { camera_files = c₁.camera_files + 1; world = w₂ })
      else (
        ok success,
        free_file (close_file (record c₁ { camera_files = c₁.camera_files + 1; world = w₃ })),
      )

  -- The download at the end of `capture`, between two readings of the clock. Its failure is logged only:
  -- what `capture` returns is true.
  unfoldable pub download : String → FilePath → CameraWrapper W → Outcome Bool × CameraWrapper W
  download download_folder p c =
      let started = record c { world = (now c.world).1 } in
      let (success, c') = download_file p (download_folder ++ p.name) started in
      if not (string_eq download_folder "")
      then elim success [
        | fault e ↦ (fault e, c')
        | ok b ↦ (ok true, record c' { world = (now c'.world).1 })
      ]
      else (ok true, c)

  -- The end of `capture`, after one of the two ways to expose.
  unfoldable pub captured :
      String
      → Outcome (Option (Bool × FilePath))
      → CameraWrapper W
      → Outcome (Option Bool) × CameraWrapper W
  captured download_folder (fault e) c = (fault e, c)
  captured download_folder (ok none) c = (ok none, c)
  captured download_folder (ok (some (false, p))) c = (ok (some false), c)
  captured download_folder (ok (some (true, p))) c =
      let (result, c') = download download_folder p c in (result >>= λ b. ok (some b), c')

  -- `capture(exposure_time, download_folder)`: `ok none` is a capture that waits after `fuel` rounds.
  unfoldable pub capture :
      ℕ → ℤ → String → CameraWrapper W → Outcome (Option Bool) × CameraWrapper W
  capture fuel exposure_time download_folder c =
      let p : FilePath = record { folder = ""; name = "" } in
      let (current, c₁) = get_current_exposure_time c in
      elim current [
        | fault e ↦ (fault e, c₁)
        | ok n ↦
            let (by_trigger, c₂) = remote_capture fuel exposure_time p c₁ in
            let (by_wire, c₃) = wired_capture p c₁ in
            if eqb_ℤ n (pos 0)
            then captured download_folder by_trigger c₂
            else captured download_folder (by_wire >>= λ result. ok (some result)) c₃
      ]
