-- ===== src/RunThread/Abort.antt =====
-- How a run ends after a request to abort.
use camera_controller.Base.{
  ℕ, ◌<◌, ◌≡◌, ◌≢◌, refl, ap, Bool, true, false, arith, suc, ◌+◌, ◌⊎◌, inl, inr, ◌≤◌, subst, ◌∙◌,
}
use Prim.Native.String.{String}
use camera_controller.Base.Int.{ℤ, pos}
use camera_controller.CameraFunction.{Camera, success, failure}
use camera_controller.Sequencer
use camera_controller.Intervalometer
use camera_controller.CommandHandler.{ActiveFunction, sequencer, intervalometer}
use camera_controller.RunThread.{
  Thread, absent, looping, shooting, waiting, leaving, logging, over, abort_cond, may_go_on,
  registered, after_capture, finish, shoot, RunStep, RunSteps, none_left, one_more, go_on, stop,
  captured, failed, timed_out, woken, ended, logged,
}

-- The exposures that the thread has begun.
unfoldable pub shots : Thread → ℕ
shots absent = 0
shots (looping i) = i
shots (shooting i) = i
shots (waiting i) = i
shots (leaving i) = i
shots (logging i) = i
shots (over i) = i

-- The steps that an aborted thread has before it at most.
unfoldable pub steps_left : Thread → ℕ
steps_left absent = 0
steps_left (shooting i) = 5
steps_left (waiting i) = 4
steps_left (looping i) = 3
steps_left (leaving i) = 2
steps_left (logging i) = 1
steps_left (over i) = 0

aborted-may_go_on : (f : ActiveFunction) (i : ℕ) → abort_cond f ≡ true → may_go_on f i ≡ false
unfolding may_go_on abort_cond
aborted-may_go_on (sequencer s) i a = rw a refl
aborted-may_go_on (intervalometer s) i a = rw a refl

steps_left-le : (t : Thread) → steps_left t ≤ 5
unfolding steps_left
steps_left-le absent = omega arith
steps_left-le (looping i) = omega arith
steps_left-le (shooting i) = omega arith
steps_left-le (waiting i) = omega arith
steps_left-le (leaving i) = omega arith
steps_left-le (logging i) = omega arith
steps_left-le (over i) = omega arith

module _ {W : Type 0} (camera : Camera W) where
  -- Once an abort is requested, no step of the run thread begins an exposure or takes the request
  -- back, and each brings the end of the thread, at most five steps away, nearer.
  pub RunStep-abort :
      {f f' : ActiveFunction} {w w' : W} {t t' : Thread}
      → RunStep camera f w t f' w' t'
      → abort_cond f ≡ true
      → (shots t' ≡ shots t) × (steps_left t' < steps_left t) × (abort_cond f' ≡ true)
  unfolding shots steps_left abort_cond registered after_capture finish Sequencer.after_shot
      Intervalometer.after_shot
  RunStep-abort (go_on {f} {i} g) a = absurd (contradiction (aborted-may_go_on f i a) g)
    where
      contradiction : {b : Bool} → b ≡ false → b ≡ true → ⊥
      contradiction p q = cc
  RunStep-abort (stop g) a = (refl, omega arith, a)
  RunStep-abort (captured {f = sequencer s} b e r) a = (refl, omega arith, a)
  RunStep-abort (captured {f = intervalometer s} b e r) a = (refl, omega arith, a)
  RunStep-abort (failed r) a = (refl, omega arith, a)
  RunStep-abort timed_out a = (refl, omega arith, a)
  RunStep-abort (woken h) a = (refl, omega arith, a)
  RunStep-abort (ended {f = sequencer s}) a = (refl, omega arith, a)
  RunStep-abort (ended {f = intervalometer s}) a = (refl, omega arith, a)
  RunStep-abort logged a = (refl, omega arith, a)

  RunStep-present :
      {f f' : ActiveFunction} {w w' : W} {t t' : Thread}
      → RunStep camera f w t f' w' t'
      → t' ≢ absent
  unfolding after_capture
  RunStep-present (go_on g) e = cc
  RunStep-present (stop g) e = cc
  RunStep-present (captured {f = sequencer s} b e r) q = cc
  RunStep-present (captured {f = intervalometer s} b e r) q = cc
  RunStep-present (failed r) e = cc
  RunStep-present timed_out e = cc
  RunStep-present (woken a) e = cc
  RunStep-present ended e = cc
  RunStep-present logged e = cc

  -- What `n` steps leave as it was, and how much nearer the end is.
  record Aborted (n : ℕ) (t : Thread) (f' : ActiveFunction) (t' : Thread) : Type 0 where
    same_shots : shots t' ≡ shots t
    nearer : n + steps_left t' ≤ steps_left t
    aborted : abort_cond f' ≡ true
    present : t' ≢ absent

  RunSteps-abort :
      {n : ℕ} {f f' : ActiveFunction} {w w' : W} {t t' : Thread}
      → RunSteps camera n f w t f' w' t'
      → abort_cond f ≡ true
      → t ≢ absent
      → Aborted n t f' t'
  RunSteps-abort none_left a p = record {
    same_shots = refl;
    nearer = omega arith;
    aborted = a;
    present = p;
  }
  RunSteps-abort (one_more r rs) a p =
      let (same, nearer, a') = RunStep-abort r a in
      let all = RunSteps-abort rs a' (RunStep-present r) in
      record {
        same_shots = all.same_shots ∙ same;
        nearer = omega (arith, all.nearer);
        aborted = all.aborted;
        present = all.present;
      }

  -- The end of the run, after `i` exposures.
  abbrev pub Ends : ActiveFunction → W → Thread → ℕ → Type 0
  Ends f w t i = (n : ℕ) × (f' : ActiveFunction) × (w' : W) × RunSteps camera n f w t f' w' (over i)

  after_step :
      {f f' : ActiveFunction} {w w' : W} {t t' : Thread} {i : ℕ}
      → RunStep camera f w t f' w' t'
      → Ends f' w' t' i
      → Ends f w t i
  after_step r (n, f'', w'', rs) = (suc n, f'', w'', one_more r rs)

  leaving-Ends : (f : ActiveFunction) (w : W) (i : ℕ) → Ends f w (leaving i) i
  leaving-Ends f w i = after_step ended (after_step logged (0, _, _, none_left))

  looping-Ends : (f : ActiveFunction) (w : W) (i : ℕ) → abort_cond f ≡ true → Ends f w (looping i) i
  looping-Ends f w i a = after_step (stop (aborted-may_go_on f i a)) (leaving-Ends f w i)

  captured-Ends :
      (f : ActiveFunction) (w : W) (i : ℕ) → abort_cond f ≡ true → Ends f w (after_capture f i) i
  unfolding after_capture
  captured-Ends (sequencer s) w i a = looping-Ends (sequencer s) w i a
  captured-Ends (intervalometer s) w i a =
      after_step (woken a) (looping-Ends (intervalometer s) w i a)

  after_capture-registered :
      (b e : ℤ) (f : ActiveFunction) (i : ℕ)
      → after_capture (registered b e f) i ≡ after_capture f i
  unfolding after_capture registered
  after_capture-registered b e (sequencer s) i = refl
  after_capture-registered b e (intervalometer s) i = refl

  -- Every capture returns, true or false.
  abbrev pub Returns : Type 0
  Returns =
      (t : ℤ) (folder : String) (w : W)
      → ((camera.capture t folder w).0 ≡ success) ⊎ ((camera.capture t folder w).0 ≡ failure)

  shoot-Returns :
      Returns
      → (f : ActiveFunction) (w : W)
      → ((shoot camera f w).0 ≡ success) ⊎ ((shoot camera f w).0 ≡ failure)
  unfolding shoot
  shoot-Returns returns (sequencer s) w = returns _ _ w
  shoot-Returns returns (intervalometer s) w = returns _ _ w

  shooting-Ends :
      Returns → (f : ActiveFunction) (w : W) (i : ℕ) → abort_cond f ≡ true → Ends f w (shooting i) i
  shooting-Ends returns f w i a = elim (shoot-Returns returns f w) [
    | inr e ↦ after_step (failed (ap (λ b. (b, (shoot camera f w).1)) e)) (leaving-Ends f _ i)
    | inl e ↦
        let r = captured (pos 0) (pos 0) (ap (λ b. (b, (shoot camera f w).1)) e) in
        let f' = registered (pos 0) (pos 0) f in
        after_step r (
          subst (λ t. Ends f' (shoot camera f w).1 t i)
            (after_capture-registered (pos 0) (pos 0) f i)
            (captured-Ends f' (shoot camera f w).1 i (RunStep-abort r a).2))
  ]

  thread-Ends :
      Returns
      → (f : ActiveFunction) (w : W) (t : Thread) → abort_cond f ≡ true
      → t ≢ absent
      → Ends f w t (shots t)
  unfolding shots
  thread-Ends returns f w absent a there = absurd (there refl)
  thread-Ends returns f w (looping i) a there = looping-Ends f w i a
  thread-Ends returns f w (shooting i) a there = shooting-Ends returns f w i a
  thread-Ends returns f w (waiting i) a there = after_step (woken a) (looping-Ends f w i a)
  thread-Ends returns f w (leaving i) a there = leaving-Ends f w i
  thread-Ends returns f w (logging i) a there = after_step logged (0, _, _, none_left)
  thread-Ends returns f w (over i) a there = (0, _, _, none_left)

  -- If every capture returns, true or false, then once an abort is requested the steps of a run
  -- thread that has begun, wherever it stands, are five at most and begin no exposure, and from
  -- where they lead it can come to its end, with the exposures that it had begun: it neither goes
  -- on for ever nor gets stuck. Commands do not come in between.
  pub abort-Ends :
      {n : ℕ} {f f' : ActiveFunction} {w w' : W} {t t' : Thread}
      → Returns
      → abort_cond f ≡ true
      → t ≢ absent
      → RunSteps camera n f w t f' w' t'
      → (n ≤ 5) × (shots t' ≡ shots t) × Ends f' w' t' (shots t)
  abort-Ends {f'} {w'} {t} {t'} returns a there rs =
      let all = RunSteps-abort rs a there in
      (
        omega (arith, all.nearer, steps_left-le t),
        all.same_shots,
        subst (λ i. Ends f' w' t' i) all.same_shots
            (thread-Ends returns f' w' t' all.aborted all.present),
      )
