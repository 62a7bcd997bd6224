-- ===== src/CameraWrapper/Capture/Wait.antt =====
-- The wait for the picture.
use camera_controller.Base.{ℕ, zero, suc, ◌≡◌, refl, false, none, some}
use camera_controller.Outcome.{ok}
use camera_controller.Base.Int.{ℤ}
use camera_controller.CameraWrapper.{
  Pointer, EventType, is_freed, is_file_added, FilePath, Gphoto, CameraWrapper,
}
use camera_controller.CameraWrapper.Capture.{event_loop, wait_for_capture}

module _ {W : Type 0} (gp : Gphoto W) where
  open gp use {wait_for_event, now}

  -- Every wait succeeds with another event than a new file.
  module _
      (silent : (p : Pointer) (t : ℤ) (w : W)
        → (e : EventType × FilePath × ℤ) × ((wait_for_event p t w).0 ≡ some e)
          × (is_file_added e.0 ≡ false)) where
    event_loop_endless :
        (fuel : ℕ) (timeout : ℤ) (c : CameraWrapper W)
        → is_freed c.camera ≡ false
        → (event_loop gp fuel timeout c).0 ≡ ok none
    unfolding event_loop
    event_loop_endless zero timeout c there = refl
    event_loop_endless (suc fuel) timeout c there =
        let ((type, file, dur), e, other) = silent c.camera timeout c.world in
        rw (e, there, event_loop, other) (event_loop_endless fuel _ _ there)

    -- If the camera is not freed and every event is another one than a new file, as when each wait
    -- times out, `waitForCapture` never returns, whatever its timeout: it is still waiting after
    -- any number of events.
    pub wait_for_capture_endless :
        (fuel : ℕ) (timeout : ℤ) (file : FilePath) (c : CameraWrapper W)
        → is_freed c.camera ≡ false
        → (wait_for_capture gp fuel timeout file c).0 ≡ ok none
    unfolding wait_for_capture
    wait_for_capture_endless fuel timeout file c there =
        rw
          (
            wait_for_capture,
            event_loop_endless fuel timeout (record c { world = (now c.world).1 }) there,
          )
          refl
