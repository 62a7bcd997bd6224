-- ===== src/Sequencer/Run.antt =====
-- How many exposures the sequencer takes, and how its run ends.
use camera_controller.Base.{
  ℕ, zero, suc, ◌+◌, ◌≤◌, ◌<◌, ◌≡◌, refl, sym, subst, ◌∙◌, Bool, true, false, ◌&&◌, not, List, [],
  ◌∷◌, length, All, arith, Bool-cases, inl, inr,
}
use Prim.Native.String.{String}
use camera_controller.Base.Int.{ℤ, pos, negsuc}
use native.Mathlib.Decide.{dec_lt}
use camera_controller.CameraFunction.{Camera, Captured, success, failure, exception, endless}
use camera_controller.Sequencer.{
  Sequencer, Round, Progress, running, done, terminated, register_exposure_stat, shots_left, run,
  shoot, after_shot,
}

-- The test fails at the last shot, and never fails where no number is set.
shots_left-lt : (s : Sequencer) (n i : ℕ) → s.num_shots ≡ pos n → i < n → shots_left s i ≡ true
shots_left-lt s n i e h = rw e (ground arith)

shots_left-le : (s : Sequencer) (n i : ℕ) → s.num_shots ≡ pos n → n ≤ i → shots_left s i ≡ false
shots_left-le s n i e h = rw e (ground arith)

shots_left-unlimited : (s : Sequencer) (i : ℕ) → s.num_shots ≡ negsuc 0 → shots_left s i ≡ true
shots_left-unlimited s i e = rw e (ground arith)

-- A shot changes the statistics alone.
after_shot-keeps :
    (r : Round) (s : Sequencer)
    → ((after_shot r s).num_shots ≡ s.num_shots)
      × ((after_shot r s).stats.exposures_count ≡ s.stats.exposures_count + 1)
unfolding after_shot register_exposure_stat
after_shot-keeps r s = (refl, refl)

module _ {W : Type 0} (camera : Camera W) where
  -- The ways through a round: the loop's test fails, or one for each way in which the capture ends.
  module _ (r : Round) (rounds : List Round) (s : Sequencer) (w : W) (i : ℕ) where
    abbrev pub test : Bool
    test = not r.aborted && shots_left s i

    run_stop :
        test ≡ false → run camera (r ∷ rounds) s w i ≡ (done, record s { finished = true }, w, i)
    unfolding run
    run_stop t = rw t

    run_fail :
        test ≡ true
        → (shoot camera r s w).0 ≡ failure
        → run camera (r ∷ rounds) s w i
          ≡ (done, record s { finished = true }, (shoot camera r s w).1, i + 1)
    unfolding run
    run_fail t f = rw (t, f)

    run_next :
        test ≡ true
        → (shoot camera r s w).0 ≡ success
        → run camera (r ∷ rounds) s w i
          ≡ run camera rounds (after_shot r s) (shoot camera r s w).1 (i + 1)
    unfolding run
    run_next t g = rw (t, g)

    run_throws :
        test ≡ true
        → (shoot camera r s w).0 ≡ exception
        → run camera (r ∷ rounds) s w i ≡ (terminated, s, (shoot camera r s w).1, i + 1)
    unfolding run
    run_throws t f = rw (t, f)

    run_endless :
        test ≡ true
        → (shoot camera r s w).0 ≡ endless
        → run camera (r ∷ rounds) s w i ≡ (running, s, (shoot camera r s w).1, i + 1)
    unfolding run
    run_endless t f = rw (t, f)

    test-lt : (n : ℕ) → s.num_shots ≡ pos n → test ≡ true → i < n
    test-lt n e t = elim (dec_lt i n) [
      | yes p ↦ p
      | no p ↦ let f = shots_left-le s n i e (omega arith) in absurd (ground arith)
    ]

  -- A property of where a run ends holds if it holds of each way through a round.
  pub round_cases {κ} :
      (P : Progress × Sequencer × W × ℕ → Type κ) (r : Round) (rounds : List Round) (s : Sequencer)
      (w : W) (i : ℕ)
      → P (done, record s { finished = true }, w, i)
      → (test r rounds s w i ≡ true
          → P (done, record s { finished = true }, (shoot camera r s w).1, i + 1))
      → (test r rounds s w i ≡ true
          → P (run camera rounds (after_shot r s) (shoot camera r s w).1 (i + 1)))
      → (test r rounds s w i ≡ true → P (terminated, s, (shoot camera r s w).1, i + 1))
      → (test r rounds s w i ≡ true → P (running, s, (shoot camera r s w).1, i + 1))
      → P (run camera (r ∷ rounds) s w i)
  round_cases P r rounds s w i stop fail next throws waits =
      elim (Bool-cases (test r rounds s w i)) [
        | inr t ↦ subst P (sym (run_stop r rounds s w i t)) stop
        | inl t ↦ answer t (shoot camera r s w).0 refl
      ]
    where
      answer :
          test r rounds s w i ≡ true
          → (c : Captured) → (shoot camera r s w).0 ≡ c
          → P (run camera (r ∷ rounds) s w i)
      answer t success c = subst P (sym (run_next r rounds s w i t c)) (next t)
      answer t failure c = subst P (sym (run_fail r rounds s w i t c)) (fail t)
      answer t exception c = subst P (sym (run_throws r rounds s w i t c)) (throws t)
      answer t endless c = subst P (sym (run_endless r rounds s w i t c)) (waits t)

  -- A sequencer told to take `n` exposures never takes more, whatever the camera answers and however
  -- often it is aborted.
  pub run-le :
      (rounds : List Round) (s : Sequencer) (w : W) (n i : ℕ)
      → s.num_shots ≡ pos n
      → i ≤ n
      → (run camera rounds s w i).3 ≤ n
  run-le [] s w n i e h = unfold run in h
  run-le (r ∷ rounds) s w n i e h =
      round_cases (λ p. p.3 ≤ n) r rounds s w i h (λ t. omega (arith, test-lt r rounds s w i n e t))
        (λ t.
          run-le rounds (after_shot r s) (shoot camera r s w).1 n (i + 1)
            ((after_shot-keeps r s).0 ∙ e) (omega (arith, test-lt r rounds s w i n e t)))
        (λ t. omega (arith, test-lt r rounds s w i n e t))
        (λ t. omega (arith, test-lt r rounds s w i n e t))

  -- A run that has ended has set `finished`, whether it took its shots, failed or was aborted.
  pub run-done :
      (rounds : List Round) (s : Sequencer) (w : W) (i : ℕ)
      → (run camera rounds s w i).0 ≡ done
      → (run camera rounds s w i).1.finished ≡ true
  run-done [] s w i = unfold run in λ h. cc
  run-done (r ∷ rounds) s w i =
      round_cases (λ p. p.0 ≡ done → p.1.finished ≡ true) r rounds s w i (λ _. refl) (λ _ _. refl)
        (λ t. run-done rounds (after_shot r s) (shoot camera r s w).1 (i + 1)) (λ _ h. cc)
        (λ _ h. cc)

  -- An abort that the loop's test sees ends the run there: no further exposure is taken.
  pub run_aborted :
      (r : Round) (rounds : List Round) (s : Sequencer) (w : W) (i : ℕ)
      → r.aborted ≡ true
      → run camera (r ∷ rounds) s w i ≡ (done, record s { finished = true }, w, i)
  run_aborted r rounds s w i a = run_stop r rounds s w i (rw a)

  -- The camera takes every exposure.
  module _
      (works : (t : ℤ) (folder : String) (w : W) → (camera.capture t folder w).0 ≡ success) where
    shoot_works : (r : Round) (s : Sequencer) (w : W) → (shoot camera r s w).0 ≡ success
    unfolding shoot
    shoot_works r s w = works s.exposure_time _ w

    -- If nobody aborts and every capture succeeds, a sequencer that has taken `i` of the `n`
    -- exposures that it is told to take ends after exactly `n`, in one round for each that is left
    -- and one more; each is counted.
    pub run-completes :
        (rounds : List Round) (s : Sequencer) (w : W) (n i k : ℕ)
        → s.num_shots ≡ pos n
        → i + k ≡ n
        → length rounds ≡ k + 1
        → All (λ r. r.aborted ≡ false) rounds
        → let (p, s', w', i') = run camera rounds s w i in
          (p ≡ done)
          × (i' ≡ n)
          × (s'.finished ≡ true)
          × (s'.stats.exposures_count ≡ s.stats.exposures_count + k)
    run-completes [] s w n i k e h len a = absurd (omega arith)
    run-completes (r ∷ rounds) s w n i zero e h len a =
        rw (run_stop r rounds s w i (rw (a.0, shots_left-le s n i e (omega arith))))
          (refl, omega arith, refl, omega arith)
    run-completes (r ∷ rounds) s w n i (suc k) e h len a =
        let keeps = after_shot-keeps r s in
        let rest =
          run-completes rounds (after_shot r s) (shoot camera r s w).1 n (i + 1) k (keeps.0 ∙ e)
            (omega arith) (omega arith) a.1 in
        rw
          (run_next r rounds s w i (rw (a.0, shots_left-lt s n i e (omega arith)))
            (shoot_works r s w))
          (rest.0, rest.1, rest.2, rest.3 ∙ omega (arith, keeps.1))

    -- If nobody aborts and every capture succeeds, then with -1 for the number the run goes on as
    -- long as there are rounds, with an exposure in each.
    pub run-unlimited :
        (rounds : List Round) (s : Sequencer) (w : W) (i : ℕ)
        → s.num_shots ≡ negsuc 0
        → All (λ r. r.aborted ≡ false) rounds
        → ((run camera rounds s w i).0 ≡ running)
          × ((run camera rounds s w i).3 ≡ i + length rounds)
    run-unlimited [] s w i e a = unfold run in (refl, omega arith)
    run-unlimited (r ∷ rounds) s w i e a =
        let rest =
          run-unlimited rounds (after_shot r s) (shoot camera r s w).1 (i + 1)
            ((after_shot-keeps r s).0 ∙ e) a.1 in
        rw (run_next r rounds s w i (rw (a.0, shots_left-unlimited s i e)) (shoot_works r s w))
          (rest.0, omega (arith, rest.1))
