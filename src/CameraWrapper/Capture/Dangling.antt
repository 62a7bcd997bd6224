-- ===== src/CameraWrapper/Capture/Dangling.antt =====
-- What a capture does after a reconnection that failed.
use Prim.Native.String.{String}
use camera_controller.Base.{ℕ, ◌≡◌, refl, true, false}
use camera_controller.Base.Int.{ℤ}
use camera_controller.Outcome.{ok, fault, use_after_free}
use camera_controller.CameraWrapper.{
  live, null, is_freed, on_camera, Gphoto, CameraWrapper, with_widget, get_text_config_value,
}
use camera_controller.CameraWrapper.Connection.{
  connect, disconnect, disconnect_freed, free_camera, free_pointer,
}
use camera_controller.CameraWrapper.Capture.{capture, get_current_exposure_time}

module _ {W : Type 0} (gp : Gphoto W) where
  open gp use {camera_new, camera_init, camera_exit}

  -- A wrapper that is connected to a camera is disconnected and connected anew, as by the command
  -- to reconnect, and its new camera fails to initiate: the wrapper says that it is not connected,
  -- and any capture after that, as the next one of a run thread that has not ended, uses the camera
  -- that is freed.
  pub reconnect-capture :
      (c : CameraWrapper W) (fuel : ℕ) (t : ℤ) (folder : String)
      → c.connected ≡ true
      → c.camera ≡ live
      → (camera_new (camera_exit c.world)).0 ≡ true
      → (camera_init (camera_new (camera_exit c.world)).1).0 ≡ false
      → (c₁ : CameraWrapper W) × (disconnect gp c ≡ ok c₁)
        × ((connect gp c₁).0 ≡ ok false)
        × ((connect gp c₁).1.connected ≡ false)
        × ((capture gp fuel t folder (connect gp c₁).1).0 ≡ fault use_after_free)
  unfolding disconnect disconnect_freed free_camera free_pointer connect capture
      get_current_exposure_time get_text_config_value with_widget on_camera is_freed
  reconnect-capture c fuel t folder h v n i =
      let c₁ : CameraWrapper W = record c {
        camera = null;
        world = camera_exit c.world;
        connected = false;
      } in
      (c₁, rw (h, v) refl, rw (n, i) refl, rw (n, i) refl, rw (n, i) refl)
