-- ===== src/CameraFunction.antt =====
-- src/functions/camerafunction.h: what the sequencer and the intervalometer have in common. The camera
-- wrapper is an interface, on a state `W` that holds the camera and the world outside the program.
pub mod Laws
use Prim.Native.String.{String}
use camera_controller.Base.{Bool, true, false, ◌&&◌, ◌||◌, not, if◌then◌else◌}
use camera_controller.Base.Int.{ℤ}

-- How a call of `CameraWrapper::capture` ends: it returns true or false, it throws (`stoi` of a text that
-- begins with no number), or it never returns, for a camera that adds no file.
pub data Captured : Type 0 where
  success failure exception endless : Captured

-- The methods of `CameraWrapper` that the functions call.
pub record Camera (W : Type 0) : Type 0 where
  pub is_connected : W → Bool
  pub is_responsive : W → Bool × W
  pub connect : W → Bool × W
  pub disconnect : W → W
  pub capture : ℤ → String → W → Captured × W

pub data FunctionId : Type 0 where
  sequencer intervalometer : FunctionId

abbrev pub default_download_folder : String
default_download_folder = "/home/pi/CCCaptures/"

-- The members of the base class.
pub record CameraFunction : Type 0 where
  pub download_folder : String
  pub testing : Bool
  pub download_after_exposure : Bool

-- The folder that a capture is given: none if it is not to be downloaded.
abbrev pub capture_folder : CameraFunction → String
capture_folder f = if f.download_after_exposure then f.download_folder else ""

-- What `doTestCapture` leaves in `testing`. A call that throws or does not return never comes to
-- `testing = false`.
unfoldable pub still_testing : Captured → Bool
still_testing success = false
still_testing failure = false
still_testing exception = true
still_testing endless = true

-- `isOperating()`, from what the virtual `isStarted` and `isFinished` return.
unfoldable pub is_operating : (is_started : Bool) → (is_finished : Bool) → CameraFunction → Bool
is_operating is_started is_finished f = (is_started && not is_finished) || f.testing

module _ {W : Type 0} (camera : Camera W) where
  -- `connectCamera()`
  unfoldable pub connect_camera : W → Bool × W
  connect_camera w =
      let (connected, w₁) = camera.connect w in
      let (responsive, w₂) = camera.is_responsive w in
      if not (camera.is_connected w)
      then (if connected then (true, w₁) else (false, w₁))
      else (if not responsive then (false, w₂) else (true, w₂))

  -- `testCapture()`: the future of `std::async` is discarded, so that its destructor waits until
  -- `doTestCapture` has run; what it throws stays in the future. Where it does not return, the
  -- state is that in which the handler waits, and takes no other command.
  unfoldable pub test_capture : {F : Type 0} → Bool → (F → W → F × W) → F → W → F × W
  test_capture operating do_test_capture f w =
      let (connected, w') = connect_camera w in
      if not operating then (if not connected then (f, w') else do_test_capture f w') else (f, w)
