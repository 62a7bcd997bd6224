-- ===== src/Intervalometer/Run.antt =====
-- How many exposures the intervalometer takes, and how its run ends.
use camera_controller.Base.{
  ℕ, zero, suc, ◌+◌, ◌≤◌, ◌<◌, ◌≡◌, refl, ◌∙◌, Bool, true, false, ◌&&◌, not, List, [], ◌∷◌, length,
  All, arith, Bool-cases, inl, inr,
}
use native.Mathlib.Decide.{dec_lt}
use camera_controller.Base.Int.{ℤ, pos}
use Prim.Native.String.{String}
use camera_controller.CameraFunction.{Camera, Captured, success, failure, exception, endless}
use camera_controller.Intervalometer.{
  Intervalometer, Round, running, done, terminated, register_exposure_stat, shots_left, run, shoot,
  after_shot, wait_next,
}

shots_left-lt : (s : Intervalometer) (n i : ℕ) → s.num_shots ≡ pos n → i < n → shots_left s i ≡ true
shots_left-lt s n i e h = rw e (ground arith)

shots_left-le :
    (s : Intervalometer) (n i : ℕ) → s.num_shots ≡ pos n → n ≤ i → shots_left s i ≡ false
shots_left-le s n i e h = rw e (ground arith)

after_shot-keeps :
    (r : Round) (s : Intervalometer)
    → ((after_shot r s).num_shots ≡ s.num_shots)
      × ((after_shot r s).stats.exposures_count ≡ s.stats.exposures_count + 1)
unfolding after_shot register_exposure_stat
after_shot-keeps r s = (refl, refl)

module _ {W : Type 0} (camera : Camera W) where
  -- The ways through a round.
  module _ (r : Round) (rounds : List Round) (s : Intervalometer) (w : W) (i : ℕ) where
    abbrev test : Bool
    test = not r.aborted && shots_left s i

    run_stop :
        test ≡ false → run camera (r ∷ rounds) s w i ≡ (done, record s { finished = true }, w, i)
    unfolding run
    run_stop t = rw t

    run_fail :
        test ≡ true
        → (shoot camera r s w).0 ≡ failure
        → run camera (r ∷ rounds) s w i
          ≡ (done, record s { finished = true }, (shoot camera r s w).1, i + 1)
    unfolding run
    run_fail t f = rw (t, f)

    run_waits :
        test ≡ true
        → (shoot camera r s w).0 ≡ success
        → wait_next r.wakes ≡ false
        → run camera (r ∷ rounds) s w i ≡ (running, after_shot r s, (shoot camera r s w).1, i + 1)
    unfolding run
    run_waits t g v = rw (t, g, v)

    run_next :
        test ≡ true
        → (shoot camera r s w).0 ≡ success
        → wait_next r.wakes ≡ true
        → run camera (r ∷ rounds) s w i
          ≡ run camera rounds (after_shot r s) (shoot camera r s w).1 (i + 1)
    unfolding run
    run_next t g v = rw (t, g, v)

    run_throws :
        test ≡ true
        → (shoot camera r s w).0 ≡ exception
        → run camera (r ∷ rounds) s w i ≡ (terminated, s, (shoot camera r s w).1, i + 1)
    unfolding run
    run_throws t f = rw (t, f)

    run_endless :
        test ≡ true
        → (shoot camera r s w).0 ≡ endless
        → run camera (r ∷ rounds) s w i ≡ (running, s, (shoot camera r s w).1, i + 1)
    unfolding run
    run_endless t f = rw (t, f)

    test-lt : (n : ℕ) → s.num_shots ≡ pos n → test ≡ true → i < n
    test-lt n e t = elim (dec_lt i n) [
      | yes p ↦ p
      | no p ↦ let f = shots_left-le s n i e (omega arith) in absurd (ground arith)
    ]

  -- An intervalometer told to take `n` exposures never takes more, whatever the camera answers, however
  -- often it is aborted, and however its waits end.
  pub run-le_programmed :
      (rounds : List Round) (s : Intervalometer) (w : W) (n i : ℕ)
      → s.num_shots ≡ pos n
      → i ≤ n
      → (run camera rounds s w i).3 ≤ n
  run-le_programmed [] s w n i e h = unfold run in h
  run-le_programmed (r ∷ rounds) s w n i e h = elim (Bool-cases (test r rounds s w i)) [
    | inr t ↦ rw (run_stop r rounds s w i t) h
    | inl t ↦
        let lt = test-lt r rounds s w i n e t in
        let rest =
          run-le_programmed rounds (after_shot r s) (shoot camera r s w).1 n (i + 1)
            ((after_shot-keeps r s).0 ∙ e) (omega (arith, lt)) in
        answer rest t lt (shoot camera r s w).0 refl
  ]
    where
      answer :
          (run camera rounds (after_shot r s) (shoot camera r s w).1 (i + 1)).3 ≤ n
          → test r rounds s w i ≡ true
          → i < n
          → (c : Captured) → (shoot camera r s w).0 ≡ c
          → (run camera (r ∷ rounds) s w i).3 ≤ n
      answer rest t lt success g = elim (Bool-cases (wait_next r.wakes)) [
        | inr v ↦ rw (run_waits r rounds s w i t g v) (omega (arith, lt))
        | inl v ↦ rw (run_next r rounds s w i t g v) rest
      ]
      answer rest t lt failure f = rw (run_fail r rounds s w i t f) (omega (arith, lt))
      answer rest t lt exception f = rw (run_throws r rounds s w i t f) (omega (arith, lt))
      answer rest t lt endless f = rw (run_endless r rounds s w i t f) (omega (arith, lt))

  -- The camera takes every exposure, and every wait ends.
  module _
      (works : (t : ℤ) (folder : String) (w : W) → (camera.capture t folder w).0 ≡ success) where
    shoot_works : (r : Round) (s : Intervalometer) (w : W) → (shoot camera r s w).0 ≡ success
    unfolding shoot
    shoot_works r s w = works s.exposure_time _ w

    -- If nobody aborts, every capture succeeds and every wait comes to its end, an intervalometer
    -- that has taken `i` of the `n` exposures that it is told to take ends after exactly `n`, in
    -- one round for each that is left and one more; each is counted.
    pub run-completes_at_interval :
        (rounds : List Round) (s : Intervalometer) (w : W) (n i k : ℕ)
        → s.num_shots ≡ pos n
        → i + k ≡ n
        → length rounds ≡ k + 1
        → All (λ r. (r.aborted ≡ false) × (wait_next r.wakes ≡ true)) rounds
        → let (p, s', w', i') = run camera rounds s w i in
          (p ≡ done)
          × (i' ≡ n)
          × (s'.finished ≡ true)
          × (s'.stats.exposures_count ≡ s.stats.exposures_count + k)
    run-completes_at_interval [] s w n i k e h len a = absurd (omega arith)
    run-completes_at_interval (r ∷ rounds) s w n i zero e h len a =
        rw (run_stop r rounds s w i (rw (a.0.0, shots_left-le s n i e (omega arith))))
          (refl, omega arith, refl, omega arith)
    run-completes_at_interval (r ∷ rounds) s w n i (suc k) e h len a =
        let keeps = after_shot-keeps r s in
        let rest =
          run-completes_at_interval rounds (after_shot r s) (shoot camera r s w).1 n (i + 1) k
            (keeps.0 ∙ e) (omega arith) (omega arith) a.1 in
        rw
          (run_next r rounds s w i (rw (a.0.0, shots_left-lt s n i e (omega arith)))
            (shoot_works r s w) a.0.1)
          (rest.0, rest.1, rest.2, rest.3 ∙ omega (arith, keeps.1))
