-- ===== src/CameraWrapper/Connection.antt =====
-- src/camera/CameraWrapper.cpp: the connection, and what happens to the camera object.
use camera_controller.Base.{
  ◌≡◌, inl, inr, refl, ap, ◌∙◌, Bool, true, false, ◌&&◌, not, if◌then◌else◌, Bool-cases,
}
use Prim.Native.String.{String}
use camera_controller.Base.Int.{pos}
use camera_controller.Outcome.{Outcome, ok, fault, use_after_free, ◌>>=◌}
use camera_controller.CameraWrapper.Config.{config-SameMembers}
use camera_controller.CameraWrapper.{
  Pointer, null, live, freed, Gphoto, CameraWrapper, get_serial_number, get_text_config_value,
  with_widget, on_camera, is_freed, string_eq, config_serial_number,
}

unfoldable pub is_null : Pointer → Bool
is_null null = true
is_null live = false
is_null freed = false

module _ {W : Type 0} (gp : Gphoto W) where
  open gp use {camera_new, camera_init, camera_exit, sleep_for}

  -- `gp_camera_exit` and `gp_camera_free` of a camera that is freed already are undefined.
  unfoldable pub free_pointer : Pointer → CameraWrapper W → Outcome (CameraWrapper W)
  free_pointer null c = ok c
  free_pointer live c = ok (record c { camera = null; world = camera_exit c.world })
  free_pointer freed c = fault use_after_free

  -- `freeCamera()`, which is also the destructor.
  unfoldable pub free_camera : CameraWrapper W → Outcome (CameraWrapper W)
  free_camera c = free_pointer c.camera c

  -- `connect()`. `gp_camera_new` sets the pointer where it succeeds; where `gp_camera_init` fails, the
  -- camera is freed and the pointer is left as it is.
  unfoldable pub connect : CameraWrapper W → Outcome Bool × CameraWrapper W
  connect c =
      let (created, w₁) = camera_new c.world in
      let (initiated, w₂) = camera_init w₁ in
      let opened = record c { camera = live; world = w₂ } in
      let (serial, named) = get_serial_number gp opened in
      if not c.connected
      then (if not created
          then (ok false, record c { world = w₁ })
          else if initiated
          then elim serial [
            | fault e ↦ (fault e, named)
            | ok serial ↦ (
              ok true,
              record named {
                serial = serial;
                world = sleep_for (pos 2000) named.world;
                connected = true;
              },
            )
          ]
          else (ok false, record opened { camera = freed }))
      else (ok true, c)

  -- `disconnect()`
  unfoldable pub disconnect_freed : Outcome (CameraWrapper W) → Outcome (CameraWrapper W)
  disconnect_freed (ok c) = ok (record c { connected = false })
  disconnect_freed (fault e) = fault e

  unfoldable pub disconnect : CameraWrapper W → Outcome (CameraWrapper W)
  disconnect c = if c.connected then disconnect_freed (free_camera c) else ok c

  -- `isConnected()`
  unfoldable pub is_connected : CameraWrapper W → Bool
  is_connected c = c.connected

  -- `isResponsive()`
  unfoldable pub is_responsive : CameraWrapper W → Outcome Bool × CameraWrapper W
  is_responsive c =
      let (serial, c') = get_serial_number gp c in
      if c.connected && not (is_null c.camera)
      then (serial >>= λ s. ok (string_eq s c.serial), c')
      else (ok false, c)

  -- While the wrapper is connected, it has a camera.
  abbrev pub IsValid : CameraWrapper W → Type 0
  IsValid c = c.connected ≡ true → c.camera ≡ live

  get_serial_number-ok :
      (c : CameraWrapper W)
      → c.camera ≡ live
      → ((serial : String) × ((get_serial_number gp c).0 ≡ ok serial))
        × ((get_serial_number gp c).1.camera ≡ live)
  unfolding get_serial_number get_text_config_value with_widget on_camera is_freed
  get_serial_number-ok c there = (
    rw there (_, refl),
    ap (λ k. k.camera) (config-SameMembers gp config_serial_number "" c).0 ∙ there,
  )

  -- `connect` of a wrapper that has a camera if it is connected leaves it so, and returns whether
  -- it is connected then.
  pub connect-IsValid :
      (c : CameraWrapper W)
      → IsValid c
      → IsValid (connect c).1 × ((connect c).0 ≡ ok (connect c).1.connected)
  unfolding connect
  connect-IsValid c v = elim (Bool-cases c.connected) [
    | inl h ↦ rw (h, connect) (λ _. v h, refl)
    | inr h ↦ elim (Bool-cases (camera_new c.world).0) [
      | inr n ↦ rw (h, n, connect) (λ q. cc, refl)
      | inl n ↦ elim (Bool-cases (camera_init (camera_new c.world).1).0) [
        | inl i ↦
            let opened : CameraWrapper W = record c {
              camera = live;
              world = (camera_init (camera_new c.world).1).1;
            } in
            let ((serial, e), same_camera) = get_serial_number-ok opened refl in
            let idle : not c.connected ≡ true = rw h in
            rw (idle, n, i, e, connect) (λ _. same_camera, refl)
        | inr i ↦ rw (h, n, i, connect) (λ q. cc, refl)
      ]
    ]
  ]

  -- `disconnect` of a wrapper that has a camera if it is connected never frees a camera twice; it
  -- leaves the wrapper so, and not connected.
  pub disconnect-ok :
      (c : CameraWrapper W)
      → IsValid c
      → (c' : CameraWrapper W) × (disconnect c ≡ ok c') × IsValid c' × (c'.connected ≡ false)
  unfolding disconnect disconnect_freed free_camera free_pointer
  disconnect-ok c v = elim (Bool-cases c.connected) [
    | inl h ↦ (
      record c { camera = null; world = camera_exit c.world; connected = false },
      rw (h, v h) refl,
      (λ q. cc),
      refl,
    )
    | inr h ↦ (c, rw h refl, v, h)
  ]

  -- A wrapper that is not connected and whose new camera fails to initiate is left with a pointer
  -- to a freed camera, which its destructor frees again.
  pub free_camera-connect :
      (c : CameraWrapper W)
      → c.connected ≡ false
      → (camera_new c.world).0 ≡ true
      → (camera_init (camera_new c.world).1).0 ≡ false
      → ((connect c).0 ≡ ok false) × (free_camera (connect c).1 ≡ fault use_after_free)
  unfolding free_camera free_pointer connect
  free_camera-connect c v n i = rw (v, n, i) (refl, refl)
