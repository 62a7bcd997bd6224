-- ===== src/RunThread/Invariant.antt =====
-- What holds in every reachable state, however the two threads interleave.
use camera_controller.Base.{
  ℕ, ◌≤◌, ◌<◌, ◌≡◌, refl, subst, ap, ◌∙◌, inl, inr, Bool-cases, Bool, true, false, Option, none,
  some, List, All, arith,
}
use camera_controller.Base.Int.{ℤ, pos}
use camera_controller.CameraFunction.{Camera, is_operating as operates}
use camera_controller.Sequencer
use camera_controller.Intervalometer
use camera_controller.Intervalometer.{IntervalometerStats}
use camera_controller.CommandHandler.{
  ActiveFunction, sequencer, intervalometer, is_started, is_operating,
}
use camera_controller.CommandHandler.Rule.{IsFresh, new_sequencer, new_intervalometer}
use camera_controller.CommandHandler.Safety.{SameRun}
use camera_controller.CommandHandler.Effect.{
  Effect, untouched, kept, made, tested, begun, left_testing, begin, IsIdle,
  on_command_received-Effect,
}
use camera_controller.RunThread.{
  Thread, absent, looping, shooting, waiting, leaving, logging, over, is_finished, num_shots,
  may_go_on, registered, after_capture, finish, RunStep, go_on, stop, captured, failed, timed_out,
  woken, ended, logged, Program, is_started?, orphaned, thread_after, orphans_after, booted, Step,
  command, run, Reach, here, next,
}

-- No more exposures than programmed.
abbrev pub Within : ℤ → ℕ → Type 0
Within shots i = (n : ℕ) → shots ≡ pos n → i ≤ n

-- How a thread stands goes with the members `started` and `finished` of its function.
abbrev pub At : (started finished : Bool) → ℤ → Thread → Type 0
At started finished shots absent = (started ≡ false) × (finished ≡ false)
At started finished shots (looping i) = (started ≡ true) × (finished ≡ false) × Within shots i
At started finished shots (shooting i) = (started ≡ true) × (finished ≡ false) × Within shots i
At started finished shots (waiting i) = (started ≡ true) × (finished ≡ false) × Within shots i
At started finished shots (leaving i) = (started ≡ true) × (finished ≡ false) × Within shots i
At started finished shots (logging i) = (started ≡ true) × (finished ≡ true) × Within shots i
At started finished shots (over i) = (started ≡ true) × (finished ≡ true) × Within shots i

abbrev pub Agree : Option ActiveFunction → Thread → Type 0
Agree none t = t ≡ absent
Agree (some f) t = At (is_started f) (is_finished f) (num_shots f) t

-- Out of its loop, with `finished` set.
abbrev pub IsLogging : Thread → Type 0
IsLogging t = (i : ℕ) × (t ≡ logging i)

pub record Inv {W : Type 0} (p : Program W) : Type 0 where
  pub agree : Agree p.app.active_function p.thread
  pub ends : All IsLogging p.orphans

may_go_on-lt : (f : ActiveFunction) (i n : ℕ) → may_go_on f i ≡ true → num_shots f ≡ pos n → i < n
unfolding may_go_on num_shots
may_go_on-lt (sequencer s) i n t e = ground arith
may_go_on-lt (intervalometer s) i n t e = ground arith

-- The flags that `SameRun` leaves open are none of those that `At` reads.
SameRun-At :
    (f f' : ActiveFunction) (t : Thread) → SameRun f f' → Agree (some f) t → Agree (some f') t
unfolding is_started is_finished num_shots
SameRun-At (sequencer s) (sequencer s') t e h = rw e h
SameRun-At (intervalometer s) (intervalometer s') t e h = rw e h
SameRun-At (sequencer s) (intervalometer s') t e h = absurd e
SameRun-At (intervalometer s) (sequencer s') t e h = absurd e

module _ {W : Type 0} (camera : Camera W) where
  RunStep-Agree :
      {f f' : ActiveFunction} {w w' : W} {t t' : Thread}
      → RunStep camera f w t f' w' t'
      → Agree (some f) t
      → Agree (some f') t'
  unfolding is_started is_finished num_shots registered after_capture finish Sequencer.after_shot
      Intervalometer.after_shot
  RunStep-Agree (go_on {f} {i} g) h = (h.0, h.1, λ n e. omega (arith, may_go_on-lt f i n g e))
  RunStep-Agree (stop g) h = h
  RunStep-Agree (captured {f = sequencer s} b e r) h = h
  RunStep-Agree (captured {f = intervalometer s} b e r) h = h
  RunStep-Agree (failed r) h = h
  RunStep-Agree timed_out h = h
  RunStep-Agree (woken a) h = h
  RunStep-Agree (ended {f = sequencer s}) h = (h.0, refl, h.2)
  RunStep-Agree (ended {f = intervalometer s}) h = (h.0, refl, h.2)
  RunStep-Agree logged h = h

SameRun-is_started : (f f' : ActiveFunction) → SameRun f f' → is_started f' ≡ is_started f
unfolding is_started
SameRun-is_started (sequencer s) (sequencer s') e = ap (λ k. k.started) e
SameRun-is_started (intervalometer s) (intervalometer s') e = ap (λ k. k.started) e
SameRun-is_started (sequencer s) (intervalometer s') e = absurd e
SameRun-is_started (intervalometer s) (sequencer s') e = absurd e

-- A function that is not started has no thread.
not_started :
    (f : ActiveFunction) (t : Thread)
    → is_started f ≡ false
    → Agree (some f) t
    → (t ≡ absent) × (is_finished f ≡ false)
not_started f absent n h = (refl, h.1)
not_started f (looping i) n h = cc
not_started f (shooting i) n h = cc
not_started f (waiting i) n h = cc
not_started f (leaving i) n h = cc
not_started f (logging i) n h = cc
not_started f (over i) n h = cc

-- A thread that is still in its loop operates its function.
idle-ends :
    (f : ActiveFunction) (t : Thread) (orphans : List Thread)
    → is_operating f ≡ false
    → Agree (some f) t
    → All IsLogging orphans
    → All IsLogging (orphaned t orphans)
unfolding orphaned is_operating Sequencer.operating Intervalometer.operating operates is_started
    is_finished
idle-ends f absent orphans idle h ends = ends
idle-ends f (over i) orphans idle h ends = ends
idle-ends f (logging i) orphans idle h ends = ((i, refl), ends)
idle-ends (sequencer s) (looping i) orphans idle h ends = ground arith
idle-ends (sequencer s) (shooting i) orphans idle h ends = ground arith
idle-ends (sequencer s) (waiting i) orphans idle h ends = ground arith
idle-ends (sequencer s) (leaving i) orphans idle h ends = ground arith
idle-ends (intervalometer s) (looping i) orphans idle h ends = ground arith
idle-ends (intervalometer s) (shooting i) orphans idle h ends = ground arith
idle-ends (intervalometer s) (waiting i) orphans idle h ends = ground arith
idle-ends (intervalometer s) (leaving i) orphans idle h ends = ground arith

fresh-not_started :
    {junk : IntervalometerStats} {g : ActiveFunction}
    → IsFresh junk g
    → (is_started g ≡ false) × (is_finished g ≡ false)
unfolding is_started is_finished Sequencer.init Intervalometer.init
fresh-not_started (new_sequencer n e d) = (refl, refl)
fresh-not_started (new_intervalometer n i e d) = (refl, refl)

begin-is_started :
    (f : ActiveFunction) → (is_started (begin f) ≡ true) × (is_finished (begin f) ≡ is_finished f)
unfolding is_started is_finished begin
begin-is_started (sequencer s) = (refl, refl)
begin-is_started (intervalometer s) = (refl, refl)

left_testing-is_started :
    (f : ActiveFunction)
    → (is_started (left_testing f) ≡ is_started f)
      × ((t : Thread) → Agree (some f) t → Agree (some (left_testing f)) t)
unfolding is_started is_finished num_shots left_testing
left_testing-is_started (sequencer s) = (refl, λ t h. h)
left_testing-is_started (intervalometer s) = (refl, λ t h. h)

-- A command leaves the threads as the invariant wants them.
record After (o' : Option ActiveFunction) (t' : Thread) (orphans' : List Thread) : Type 0 where
  agree : Agree o' t'
  ends : All IsLogging orphans'

Effect-After :
    {junk : IntervalometerStats} {o o' : Option ActiveFunction} (t : Thread) (orphans : List Thread)
    → Effect junk o o'
    → Agree o t
    → All IsLogging orphans
    → After o' (thread_after o o' t) (orphans_after o' t orphans)
unfolding thread_after orphans_after is_started? orphaned
Effect-After t orphans untouched h ends = record { agree = refl; ends = rw h ends }
Effect-After t orphans (kept {f} {f'} e) h ends = elim (Bool-cases (is_started f)) [
  | inl s ↦
      rw (SameRun-is_started f f' e, s) (record { agree = SameRun-At f f' t e h; ends = ends })
  | inr n ↦
      let (gone, unfinished) = not_started f t n h in
      rw (SameRun-is_started f f' e, n, gone)
        (record { agree = SameRun-At f f' absent e (n, unfinished); ends = ends })
]
Effect-After t orphans (made {o} {g} idle fresh) h ends =
    let (n, unfinished) = fresh-not_started fresh in
    rw n (record { agree = (n, unfinished); ends = replaced o idle h })
  where
    replaced :
        (o : Option ActiveFunction) → IsIdle o → Agree o t → All IsLogging (orphaned t orphans)
    replaced none idle h = rw h ends
    replaced (some f) idle h = idle-ends f t orphans idle h ends
Effect-After t orphans (tested {f} idle) h ends =
    let (s, same) = left_testing-is_started f in
    elim (Bool-cases (is_started f)) [
      | inl b ↦ rw (s, b) (record { agree = same t h; ends = ends })
      | inr n ↦
          rw (s, n, (not_started f t n h).0)
            (record {
              agree = same absent (subst (λ t. Agree (some f) t) (not_started f t n h).0 h);
              ends = ends;
            })
    ]
Effect-After t orphans (begun {f} n idle) h ends =
    let (s, same) = begin-is_started f in
    rw (s, n)
      (record { agree = (s, same ∙ (not_started f t n h).1, λ k e. omega arith); ends = ends })

module _ {W : Type 0} (camera : Camera W) (junk : IntervalometerStats) where
  Step-Inv : {p q : Program W} → Step camera junk p q → Inv p → Inv q
  Step-Inv (command {p} c {app'} e) v =
      let after =
        Effect-After p.thread p.orphans (on_command_received-Effect camera junk c p.app app' e)
          v.agree v.ends in
      record { agree = after.agree; ends = after.ends }
  Step-Inv (run {p} {f} {t'} e r) v = record {
    agree = RunStep-Agree camera r (subst (λ o. Agree o p.thread) e v.agree);
    ends = v.ends;
  }

  -- In every state that the program reaches from its start, whatever the camera answers, whichever
  -- commands come and however the threads interleave: there is a run thread exactly if the active
  -- function is started; `finished` is set exactly when it is out of its loop; it has begun no more
  -- exposures than programmed; and no function has been deleted whose thread was in its loop.
  pub Reach-Inv : (w : W) {p : Program W} → Reach camera junk (booted w) p → Inv p
  Reach-Inv w here = record { agree = refl; ends = tt }
  Reach-Inv w (next r s) = Step-Inv s (Reach-Inv w r)
