-- ===== src/CameraWrapper/Capture/Members.antt =====
-- What a capture leaves as it was.
use Prim.Native.String.{String, ◌++◌}
use camera_controller.Base.{
  ℕ, zero, suc, ◌+◌, ◌-◌, ◌≡◌, ◌⊎◌, refl, ap, ◌∙◌, Bool, true, false, Option, none, some,
  Option-cases, if◌then◌else◌, arith, Bool-cases, inl, inr,
}
use camera_controller.Base.Int.{ℤ, pos, ◌+ℤ◌, ◌-ℤ◌, eqb_ℤ, int_of}
use camera_controller.Outcome.{Outcome, ok, fault, Fault, ◌>>=◌}
use camera_controller.RemoteTrigger.{trigger}
use camera_controller.CameraWrapper.{
  is_freed, on_camera, is_file_added, FilePath, Gphoto, CameraWrapper, string_eq,
  config_exposure_time,
}
use camera_controller.CameraWrapper.Config.{SameMembers, config-SameMembers}
use camera_controller.CameraWrapper.Capture.{
  get_current_exposure_time, event_loop, wait_for_capture, exposure_loop, expose, remote_capture,
  wired_capture, close_file, free_file, download_file, download, captured, capture,
}

module _ {W : Type 0} (gp : Gphoto W) where
  open gp use {wait_for_event, now, fopen, fileno, file_new_from_fd, camera_file_get, gpio, fclose}

  then-SameMembers :
      (c c' c'' : CameraWrapper W)
      → SameMembers gp c c'
      → SameMembers gp c' c''
      → SameMembers gp c c''
  then-SameMembers c c' c'' p q = q ∙ ap (with_world c''.world) p
    where
      with_world : W → CameraWrapper W → CameraWrapper W
      with_world w k = record k { world = w }

  if-SameMembers :
      {A : Type 0} (b : Bool) (c : CameraWrapper W) (x y : A × CameraWrapper W)
      → SameMembers gp c x.1
      → SameMembers gp c y.1
      → SameMembers gp c (if b then x else y).1
  if-SameMembers true c x y p q = p
  if-SameMembers false c x y p q = q

  event_loop-SameMembers :
      (fuel : ℕ) (timeout : ℤ) (c : CameraWrapper W)
      → SameMembers gp c (event_loop gp fuel timeout c).1
  unfolding event_loop
  event_loop-SameMembers zero timeout c = refl
  event_loop-SameMembers (suc fuel) timeout c =
      if-SameMembers (is_freed c.camera) c _ _ refl
        (elim (Option-cases (wait_for_event c.camera timeout c.world).0) [
          | inl e ↦ rw (e, event_loop) refl
          | inr ((type, file, dur), e) ↦
              rw (e, event_loop)
                (if-SameMembers (is_file_added type) c _ _ refl (
                  event_loop-SameMembers fuel (timeout -ℤ int_of dur)
                    (record c { world = (wait_for_event c.camera timeout c.world).1 })))
        ])

  -- The end of `waitForCapture` after the loop.
  pub wait_for_capture-SameMembers :
      (fuel : ℕ) (timeout : ℤ) (file : FilePath) (c : CameraWrapper W)
      → SameMembers gp c (wait_for_capture gp fuel timeout file c).1
  unfolding wait_for_capture
  wait_for_capture-SameMembers fuel timeout file c =
      let start : CameraWrapper W = record c { world = (now c.world).1 } in
      go (event_loop gp fuel timeout start).0 refl
    where
      go :
          (event : Outcome (Option (Option FilePath)))
          → (event_loop gp fuel timeout (record c { world = (now c.world).1 })).0 ≡ event
          → SameMembers gp c (wait_for_capture gp fuel timeout file c).1
      go (fault f) e =
          rw (wait_for_capture, e)
            (event_loop-SameMembers fuel timeout (record c { world = (now c.world).1 }))
      go (ok none) e =
          rw (wait_for_capture, e)
            (event_loop-SameMembers fuel timeout (record c { world = (now c.world).1 }))
      go (ok (some none)) e =
          rw (wait_for_capture, e)
            (event_loop-SameMembers fuel timeout (record c { world = (now c.world).1 }))
      go (ok (some (some added))) e =
          let looped : CameraWrapper W =
            (event_loop gp fuel timeout (record c { world = (now c.world).1 })).1 in
          rw (wait_for_capture, e)
            (then-SameMembers c looped _
              (event_loop-SameMembers fuel timeout (record c { world = (now c.world).1 })) refl)

  expose-SameMembers :
      (fuel : ℕ) (t : ℤ) (path : FilePath) (c : CameraWrapper W)
      → SameMembers gp c (expose gp fuel t path c).1
  unfolding expose
  expose-SameMembers fuel t path c =
      if-SameMembers _ c _ _
        (wait_for_capture-SameMembers fuel (pos 30000) path (record c { world = after })) refl
    where
      after : W
      after =
          let (t', w₁) = now (gpio (trigger 1) c.world) in
          gpio (trigger 1) (exposure_loop gp fuel (t' +ℤ t) w₁).1

  pub get_current_exposure_time-SameMembers :
      (c : CameraWrapper W) → SameMembers gp c (get_current_exposure_time gp c).1
  unfolding get_current_exposure_time
  get_current_exposure_time-SameMembers c = (config-SameMembers gp config_exposure_time "" c).0

  remote_capture-SameMembers :
      (fuel : ℕ) (t : ℤ) (path : FilePath) (c : CameraWrapper W)
      → SameMembers gp c (remote_capture gp fuel t path c).1
  unfolding remote_capture
  remote_capture-SameMembers fuel t path c = go (get_current_exposure_time gp c).0 refl
    where
      go :
          (current : Outcome ℤ)
          → (get_current_exposure_time gp c).0 ≡ current
          → SameMembers gp c (remote_capture gp fuel t path c).1
      go (fault f) e = rw (remote_capture, e) (get_current_exposure_time-SameMembers c)
      go (ok n) e =
          rw (remote_capture, e)
            (if-SameMembers _ c _ _ (get_current_exposure_time-SameMembers c) (
              then-SameMembers c (get_current_exposure_time gp c).1 _
                (get_current_exposure_time-SameMembers c) (expose-SameMembers fuel t path _)))

  -- One more and one less is as before.
  closed :
      (c : CameraWrapper W) (w : W)
      → (record c { open_files = c.open_files + 1 - 1; world = w }) ≡ record c { world = w }
  closed c w = ap same_files (omega arith)
    where
      same_files : ℕ → CameraWrapper W
      same_files n = record c { open_files = n; world = w }

  both_closed :
      (c : CameraWrapper W) (w : W)
      → (record c {
        open_files = c.open_files + 1 - 1;
        camera_files = c.camera_files + 1 - 1;
        world = w;
      })
        ≡ record c { world = w }
  both_closed c w = ap same_files (omega arith) ∙ closed c w
    where
      same_files : ℕ → CameraWrapper W
      same_files n = record c { open_files = c.open_files + 1 - 1; camera_files = n; world = w }

  -- `downloadFile` closes and frees every file that it opens, whatever fails.
  pub download_file-SameMembers :
      (path : FilePath) (dest : String) (c : CameraWrapper W)
      → is_freed c.camera ≡ false
      → SameMembers gp c (download_file gp path dest c).1
  unfolding download_file close_file free_file
  download_file-SameMembers path dest c there =
      let w₁ : W = (fopen dest c.world).1 in
      elim (Bool-cases (fopen dest c.world).0) [
        | inr o ↦ rw (o, download_file) refl
        | inl o ↦ elim (Bool-cases (fileno w₁)) [
          | inr f ↦ rw (o, f, download_file) (closed c _)
          | inl f ↦ elim (Bool-cases (file_new_from_fd w₁).0) [
            | inr n ↦ rw (o, f, n, download_file) (closed c _)
            | inl n ↦ rw (o, f, n, there, download_file) (both_closed c _)
          ]
        ]
      ]

  Outcome-cases :
      {A : Type 0} (r : Outcome A) → ((a : A) × (r ≡ ok a)) ⊎ ((f : Fault) × (r ≡ fault f))
  Outcome-cases (ok a) = inl (a, refl)
  Outcome-cases (fault f) = inr (f, refl)

  pub captured-SameMembers :
      (folder : String) (r : Outcome (Option (Bool × FilePath))) (c : CameraWrapper W)
      → is_freed c.camera ≡ false
      → SameMembers gp c (captured gp folder r c).1
  unfolding captured download
  captured-SameMembers folder (fault e) c there = refl
  captured-SameMembers folder (ok none) c there = refl
  captured-SameMembers folder (ok (some (false, p))) c there = refl
  captured-SameMembers folder (ok (some (true, p))) c there =
      elim (Bool-cases (string_eq folder "")) [
        | inl e ↦ rw (e, download) refl
        | inr e ↦
            let started : CameraWrapper W = record c { world = (now c.world).1 } in
            let c' : CameraWrapper W = (download_file gp p (folder ++ p.name) started).1 in
            let kept =
              then-SameMembers c started c' refl
                (download_file-SameMembers p (folder ++ p.name) started there) in
            elim (Outcome-cases (download_file gp p (folder ++ p.name) started).0) [
              | inl (b, g) ↦ rw (e, g, download) (then-SameMembers c c' _ kept refl)
              | inr (x, g) ↦ rw (e, g, download) kept
            ]
      ]

  wired_capture-SameMembers :
      (path : FilePath) (c : CameraWrapper W) → SameMembers gp c (wired_capture gp path c).1
  unfolding wired_capture on_camera
  wired_capture-SameMembers path c = if-SameMembers (is_freed c.camera) c _ _ refl refl

  still :
      (c c' : CameraWrapper W)
      → is_freed c.camera ≡ false
      → SameMembers gp c c'
      → is_freed c'.camera ≡ false
  still c c' there e = ap (λ k. is_freed k.camera) e ∙ there

  -- A capture of a camera that is not freed, in bulb mode or by wire, with a download or without,
  -- leaves the connection, the camera and the serial number as they were and gives back every
  -- widget and file, on every way out.
  pub capture-SameMembers :
      (fuel : ℕ) (t : ℤ) (folder : String) (c : CameraWrapper W)
      → is_freed c.camera ≡ false
      → SameMembers gp c (capture gp fuel t folder c).1
  unfolding capture wired_capture on_camera
  capture-SameMembers fuel t folder c there = go (get_current_exposure_time gp c).0 refl
    where
      c₁ : CameraWrapper W
      c₁ = (get_current_exposure_time gp c).1

      go :
          (current : Outcome ℤ)
          → (get_current_exposure_time gp c).0 ≡ current
          → SameMembers gp c (capture gp fuel t folder c).1
      go (fault f) e = rw (capture, e) (get_current_exposure_time-SameMembers c)
      go (ok n) e =
          let p : FilePath = record { folder = ""; name = "" } in
          let (by_trigger, c₂) = remote_capture gp fuel t p c₁ in
          let (by_wire, c₃) = wired_capture gp p c₁ in
          let kept = get_current_exposure_time-SameMembers c in
          let wired = wired_capture-SameMembers p c₁ in
          rw (capture, e)
            (if-SameMembers (eqb_ℤ n (pos 0)) c _ _
              (then-SameMembers c c₂ _
                (then-SameMembers c c₁ c₂ kept (remote_capture-SameMembers fuel t p c₁))
                (captured-SameMembers folder by_trigger c₂ (
                  still c c₂ there
                    (then-SameMembers c c₁ c₂ kept (remote_capture-SameMembers fuel t p c₁)))))
              (then-SameMembers c c₃ _ (then-SameMembers c c₁ c₃ kept wired) (
                captured-SameMembers folder (by_wire >>= λ result. ok (some result)) c₃
                  (still c c₃ there (then-SameMembers c c₁ c₃ kept wired)))))
