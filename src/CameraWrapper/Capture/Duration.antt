-- ===== src/CameraWrapper/Capture/Duration.antt =====
-- How long the shutter stays open in bulb mode.
use camera_controller.Base.{
  ℕ, zero, suc, ◌*◌, ◌<◌, ◌≡◌, refl, sym, subst, true, false, Bool-cases, inl, inr, arith,
  le→ltb_false, if◌then◌else◌,
}
use camera_controller.Base.Int.{ℤ, pos, ◌+ℤ◌, ◌-ℤ◌, ◌≤ℤ◌, ltb_ℤ, +ℤ_parts}
use camera_controller.RemoteTrigger.{trigger}
use camera_controller.CameraWrapper.{Gphoto, FilePath, CameraWrapper}
use camera_controller.CameraWrapper.Capture.{exposure_loop, expose, wait_for_capture}

-- A clock that nobody sets while it is read: it does not go back, and a sleep lasts at least as
-- long as it is asked to.
pub record IsClock {W : Type 0} (gp : Gphoto W) (time : W → ℤ) : Type 0 where
  pub tells : (w : W) → (gp.now w).0 ≡ time w
  pub now_after : (w : W) → time w ≤ℤ time (gp.now w).1
  pub sleep_for_after : (n : ℕ) (w : W) → (time w +ℤ pos n) ≤ℤ time (gp.sleep_for (pos n) w)
  pub sleep_until_after :
      (end : ℤ) (w : W)
      → (time w ≤ℤ time (gp.sleep_until end w)) × (end ≤ℤ time (gp.sleep_until end w))

ltb_ℤ_false : (a b : ℤ) → ltb_ℤ a b ≡ false → b ≤ℤ a
ltb_ℤ_false a b h = ground arith

module _ {W : Type 0} (gp : Gphoto W) (time : W → ℤ) (clock : IsClock gp time) where
  open gp use {now, sleep_for, sleep_until, gpio}

  -- The sleep of a round, which begins with a reading of the clock.
  slept : ℤ → W → W
  slept end w =
      let (t, w₁) = now w in
      if ltb_ℤ (end -ℤ t) (pos 30000) then sleep_until end w₁ else sleep_for (pos 30000) w₁

  slept_later : (end : ℤ) (w : W) → time w ≤ℤ time (slept end w)
  unfolding slept
  slept_later end w =
      let (t, w₁) = now w in
      let later = clock.now_after w in
      elim (Bool-cases (ltb_ℤ (end -ℤ t) (pos 30000))) [
        | inl short ↦ rw (short, slept) (omega (arith, later, (clock.sleep_until_after end w₁).0))
        | inr long ↦
            rw (long, slept)
              (omega (arith, later, clock.sleep_for_after 30000 w₁, +ℤ_parts (time w₁) (pos 30000)))
      ]

  -- Where `k + 1` sleeps of 30 seconds would do, it leaves a need for `k` at most.
  slept_after :
      (k : ℕ) (end : ℤ) (w : W)
      → end ≤ℤ (time w +ℤ pos (30000 * suc k))
      → end ≤ℤ (time (slept end w) +ℤ pos (30000 * k))
  unfolding slept
  slept_after k end w h =
      let (t, w₁) = now w in
      elim (Bool-cases (ltb_ℤ (end -ℤ t) (pos 30000))) [
        | inl short ↦
            rw (short, slept)
              (omega (
                arith,
                (clock.sleep_until_after end w₁).1,
                +ℤ_parts (time (sleep_until end w₁)) (pos (30000 * k)),
              ))
        | inr long ↦
            rw (long, slept)
              (omega (
                arith,
                h,
                clock.now_after w,
                clock.sleep_for_after 30000 w₁,
                +ℤ_parts (time w₁) (pos 30000),
                +ℤ_parts (time w) (pos (30000 * suc k)),
                +ℤ_parts (time (sleep_for (pos 30000) w₁)) (pos (30000 * k)),
              ))
      ]

  due : (end : ℤ) (w : W) → end ≤ℤ (time w +ℤ pos 0) → end ≤ℤ time w
  due end w h = omega (arith, +ℤ_parts (time w) (pos 0))

  not_early : (end : ℤ) (w : W) → end ≤ℤ time w → ltb_ℤ (now w).0 end ≡ false
  not_early end w h = rw (clock.tells w) (le→ltb_false _ _ (omega arith))

  step :
      (fuel : ℕ) (end : ℤ) (w : W)
      → exposure_loop gp (suc fuel) end w ≡ (
          if ltb_ℤ (now w).0 end
          then exposure_loop gp fuel end (slept end w)
          else (true, slept end w))
  unfolding exposure_loop slept
  step fuel end w = refl

  -- If nobody sets the clock while it runs, the loop of `remoteCapture` that waits for the time
  -- `end` is over after `k + 1` rounds where `end` is at most `k` times 30 seconds away, and not
  -- before `end`.
  pub exposure_loop-lasts :
      (fuel k : ℕ) (end : ℤ) (w : W)
      → end ≤ℤ (time w +ℤ pos (30000 * k))
      → k < fuel
      → ((exposure_loop gp fuel end w).0 ≡ true) × (end ≤ℤ time (exposure_loop gp fuel end w).1)
  exposure_loop-lasts zero k end w h lt = absurd (omega arith)
  exposure_loop-lasts (suc fuel) zero end w h lt =
      let reached = due end w h in
      rw (step fuel end w, not_early end w reached)
        (refl, omega (arith, reached, slept_later end w))
  exposure_loop-lasts (suc fuel) (suc k) end w h lt = elim (Bool-cases (ltb_ℤ (now w).0 end)) [
    | inr past ↦
        let reached : end ≤ℤ time w =
          subst (λ t. end ≤ℤ t) (clock.tells w) (ltb_ℤ_false (now w).0 end past) in
        rw (step fuel end w, past) (refl, omega (arith, reached, slept_later end w))
    | inl early ↦
        rw (step fuel end w, early)
          (exposure_loop-lasts fuel k end (slept end w) (slept_after k end w h) (omega arith))
  ]

  -- If nobody sets the clock while it runs, and the exposure time `t` is at most `k` times 30
  -- seconds, then `k + 1` rounds are enough for `remoteCapture` to come to its second trigger; the
  -- clock, which it read first when the first trigger had been made, shows `t` more at least when
  -- the second one is made; and what it returns is what `waitForCapture`, called with 30 seconds
  -- after that trigger, does.
  pub expose-lasts :
      (fuel k : ℕ) (t : ℤ) (path : FilePath) (c : CameraWrapper W)
      → t ≤ℤ pos (30000 * k)
      → k < fuel
      → (w : W) × ((time (gpio (trigger 1) c.world) +ℤ t) ≤ℤ time w)
        × (expose gp fuel t path c
            ≡ wait_for_capture gp fuel (pos 30000) path (record c { world = gpio (trigger 1) w }))
  unfolding expose
  expose-lasts fuel k t path c h lt =
      let w₀ : W = gpio (trigger 1) c.world in
      let (n, w₁) = now w₀ in
      let far : (time w₀ +ℤ t) ≤ℤ (time w₁ +ℤ pos (30000 * k)) = omega (
        arith,
        h,
        clock.now_after w₀,
        +ℤ_parts (time w₀) t,
        +ℤ_parts (time w₁) (pos (30000 * k)),
      ) in
      let end_far =
        subst (λ m. (m +ℤ t) ≤ℤ (time w₁ +ℤ pos (30000 * k))) (sym (clock.tells w₀)) far in
      let (over, reached) = exposure_loop-lasts fuel k (n +ℤ t) w₁ end_far lt in
      let w₂ : W = (exposure_loop gp fuel (n +ℤ t) w₁).1 in
      (w₂, subst (λ m. (m +ℤ t) ≤ℤ time w₂) (clock.tells w₀) reached, rw over refl)
