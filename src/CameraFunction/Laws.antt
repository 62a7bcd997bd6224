-- ===== src/CameraFunction/Laws.antt =====
-- What a camera promises to keep, and that the functions of src/functions/camerafunction.h keep it.
use Prim.Native.String.{String}
use camera_controller.Base.{Bool, true, false, not, if◌then◌else◌}
use camera_controller.Base.Int.{ℤ}
use camera_controller.CameraFunction.{Camera, connect_camera, test_capture}

-- Each method of the camera keeps `P`.
pub record Keeps {W : Type 0} (camera : Camera W) (P : W → Type 0) : Type 0 where
  pub responsive : (w : W) → P w → P (camera.is_responsive w).1
  pub connects : (w : W) → P w → P (camera.connect w).1
  pub disconnects : (w : W) → P w → P (camera.disconnect w)
  pub captures : (t : ℤ) (folder : String) (w : W) → P w → P (camera.capture t folder w).1

-- What holds of both branches holds of the test.
pub if-P {ℓ κ} :
    {A : Type ℓ} (P : A → Type κ) (b : Bool) (x y : A) → P x → P y → P (if b then x else y)
if-P P true x y h k = h
if-P P false x y h k = k

module _ {W : Type 0} (camera : Camera W) (P : W → Type 0) (keeps : Keeps camera P) where
  pub connect_camera-P : (w : W) → P w → P (connect_camera camera w).1
  unfolding connect_camera
  connect_camera-P w h =
      if-P (λ (r : Bool × W). P r.1) (not (camera.is_connected w)) _ _
        (if-P (λ (r : Bool × W). P r.1) (camera.connect w).0 _ _ (keeps.connects w h)
          (keeps.connects w h))
        (if-P (λ (r : Bool × W). P r.1) (not (camera.is_responsive w).0) _ _ (keeps.responsive w h)
          (keeps.responsive w h))

  pub test_capture-P :
      {F : Type 0} (operating : Bool) (capture : F → W → F × W) (f : F) (w : W)
      → ((w : W) → P w → P (capture f w).1)
      → P w
      → P (test_capture camera operating capture f w).1
  unfolding test_capture
  test_capture-P {F} operating capture f w c h =
      let h' = connect_camera-P w h in
      if-P (λ (r : F × W). P r.1) (not operating) _ _
        (if-P (λ (r : F × W). P r.1) (not (connect_camera camera w).0) _ _ h' (c _ h')) h
