-- ===== src/CameraWrapper/Config.antt =====
-- src/camera/CameraWrapper.cpp: reading and setting the camera's configuration.
use Prim.Native.String.{String}
use camera_controller.Base.{ℕ, ◌≡◌, inl, inr, refl, ap, Bool-cases, Option-cases, arith}
use camera_controller.CameraWrapper.{
  is_freed, on_camera, Gphoto, CameraWrapper, with_widget, get_text_config_value, set_config_value,
  list_config_choices,
}

module _ {W : Type 0} (gp : Gphoto W) where
  -- The two wrappers differ at most in the world outside: no member has changed, and every widget and
  -- file that was opened is given back.
  abbrev pub SameMembers : CameraWrapper W → CameraWrapper W → Type 0
  SameMembers c c' = c' ≡ record c { world = c'.world }

  with_widget-SameMembers :
      {A : Type 0} (failed : A) (body : gp.Widget → W → A × W) (config_name : String)
      (c : CameraWrapper W)
      → SameMembers c (with_widget gp failed body config_name c).1
  unfolding with_widget on_camera
  with_widget-SameMembers failed body config_name c = elim (Bool-cases (is_freed c.camera)) [
    | inl gone ↦ rw (gone, with_widget, on_camera) refl
    | inr there ↦ elim (Option-cases (gp.get_single_config c.camera config_name c.world).0) [
      | inl e ↦ rw (e, there, with_widget, on_camera) refl
      | inr (widget, e) ↦
          rw (e, there, with_widget, on_camera)
            (ap
              (λ (k : ℕ). record c {
                widgets = k;
                world = (body widget (gp.get_single_config c.camera config_name c.world).1).1;
              })
              (omega arith))
    ]
  ]

  -- Reading a value or the choices of the configuration and setting it change nothing but the world
  -- outside, on every branch: each widget is freed once.
  pub config-SameMembers :
      (config_name value : String) (c : CameraWrapper W)
      → SameMembers c (get_text_config_value gp config_name c).1
        × SameMembers c (list_config_choices gp config_name c).1
        × SameMembers c (set_config_value gp config_name value c).1
  unfolding get_text_config_value list_config_choices set_config_value
  config-SameMembers config_name value c = (
    with_widget-SameMembers _ _ config_name c,
    with_widget-SameMembers _ _ config_name c,
    with_widget-SameMembers _ _ config_name c,
  )
