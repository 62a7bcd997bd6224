-- ===== src/Tests/Camera.antt =====
-- Runs of the camera wrapper of src/camera/.
use Prim.Native.String.{String}
use camera_controller.Base.{ℕ, ◌+◌, ◌≡◌, refl, Bool, true, false, none, some}
use camera_controller.Base.Int.{pos}
use camera_controller.Outcome.{ok, fault, use_after_free}
use camera_controller.CameraWrapper.{
  Pointer, null, live, is_freed, timed_out, is_file_added, text, Gphoto, CameraWrapper,
}
use camera_controller.CameraWrapper.Connection.{
  connect, connect-IsValid, disconnect, disconnect-ok, free_camera, free_camera-connect, IsValid,
}
use camera_controller.CameraWrapper.Capture.{wait_for_capture, capture}
use camera_controller.CameraWrapper.Capture.Wait.{wait_for_capture_endless}
use camera_controller.CameraWrapper.Config.{SameMembers}
use camera_controller.CameraWrapper.Capture.Dangling.{reconnect-capture}
use camera_controller.CameraWrapper.Capture.Members.{capture-SameMembers}

-- A camera whose initiation works as `initiates` says, whose events are all time-outs, and whose every
-- other call works; the world counts milliseconds.
abbrev pub gphoto : Bool → Gphoto ℕ
gphoto initiates = record {
  Widget = String;
  camera_new = λ w. (true, w);
  camera_init = λ w. (initiates, w);
  camera_exit = λ w. w;
  get_single_config = λ p name w. (some "1", w);
  set_single_config = λ p name widget w. (true, w);
  get_value = λ widget. some widget;
  set_value = λ widget value. some value;
  get_type = λ widget. some text;
  count_choices = λ widget. pos 1;
  get_choice = λ widget i. some widget;
  camera_capture = λ p w. (some (record { folder = "/"; name = "a" }), w);
  wait_for_event =
      λ p t w. (some (timed_out, record { folder = ""; name = "" }, pos 1000), w + 1000);
  camera_file_get = λ p path w. (true, w);
  file_new_from_fd = λ w. (true, w);
  fopen = λ path w. (true, w);
  fileno = λ w. true;
  fclose = λ w. w;
  now = λ w. (pos w, w);
  sleep_for = λ t w. w;
  sleep_until = λ t w. w;
  gpio = λ calls w. w;
  stoi = λ t. some (pos 1);
}

abbrev pub wrapper : Bool → Pointer → CameraWrapper ℕ
wrapper connected camera = record {
  connected = connected;
  serial = "1";
  camera = camera;
  widgets = 0;
  open_files = 0;
  camera_files = 0;
  world = 0;
}

free_camera-connect_example :
    ((connect (gphoto false) (wrapper false null)).0 ≡ ok false)
    × (free_camera (gphoto false) (connect (gphoto false) (wrapper false null)).1
        ≡ fault use_after_free)
free_camera-connect_example = free_camera-connect (gphoto false) (wrapper false null) refl refl refl

wait_for_capture_endless_example :
    (wait_for_capture
      (gphoto true)
      100
      (pos 30000)
      (record { folder = ""; name = "" })
      (wrapper true live)).0
    ≡ ok none
unfolding is_file_added is_freed
wait_for_capture_endless_example =
    wait_for_capture_endless (gphoto true) (λ p t w. (_, refl, refl)) 100 (pos 30000)
      (record { folder = ""; name = "" }) (wrapper true live) refl

connect-IsValid_example :
    IsValid (gphoto true) (connect (gphoto true) (wrapper false null)).1
    × ((connect (gphoto true) (wrapper false null)).0
        ≡ ok (connect (gphoto true) (wrapper false null)).1.connected)
connect-IsValid_example = connect-IsValid (gphoto true) (wrapper false null) (λ q. cc)

disconnect-ok_example :
    (c' : CameraWrapper ℕ) × (disconnect (gphoto true) (wrapper true live) ≡ ok c')
    × IsValid (gphoto true) c'
    × (c'.connected ≡ false)
disconnect-ok_example = disconnect-ok (gphoto true) (wrapper true live) (λ q. refl)

capture-SameMembers_example :
    SameMembers
      (gphoto true)
      (wrapper true live)
      (capture (gphoto true) 100 (pos 500) "/tmp/" (wrapper true live)).1
unfolding is_freed
capture-SameMembers_example =
    capture-SameMembers (gphoto true) 100 (pos 500) "/tmp/" (wrapper true live) refl

reconnect-capture_example :
    (c₁ : CameraWrapper ℕ) × (disconnect (gphoto false) (wrapper true live) ≡ ok c₁)
    × ((connect (gphoto false) c₁).0 ≡ ok false)
    × ((connect (gphoto false) c₁).1.connected ≡ false)
    × ((capture (gphoto false) 100 (pos 500) "/tmp/" (connect (gphoto false) c₁).1).0
        ≡ fault use_after_free)
reconnect-capture_example =
    reconnect-capture (gphoto false) (wrapper true live) 100 (pos 500) "/tmp/" refl refl refl refl
