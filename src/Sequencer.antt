-- ===== src/Sequencer.antt =====
-- src/functions/sequencer.{h,cpp}: exposures one after the other. The members that another thread may
-- change are read once for each place where the code reads them. Sums of `int` are sums of integers:
-- their overflow is undefined in the source.
pub mod Run
pub mod Stats
use Prim.Native.String.{String}
use camera_controller.Base.{
  ℕ, zero, suc, ◌+◌, Bool, true, false, ◌&&◌, ◌||◌, not, List, [], ◌∷◌, if◌then◌else◌, ◌==◌,
}
use camera_controller.Base.Int.{ℤ, pos, negsuc, ◌+ℤ◌, ◌-ℤ◌, ◌/ℤ◌, ltb_ℤ, eqb_ℤ, int_of}
use camera_controller.Outcome.{Outcome, ok, fault, division_by_zero, ◌>>=◌}
use camera_controller.CameraFunction.{
  Camera, Captured, success, failure, exception, endless, still_testing, CameraFunction, FunctionId,
  sequencer, default_download_folder, capture_folder, is_operating, connect_camera,
}

pub record SequencerStats : Type 0 where
  pub exposure_time : ℤ
  pub programmed_exposures : ℤ
  pub total_exposure_intertime : ℤ
  pub max_intertime : ℤ
  pub last_intertime : ℤ
  pub exposures_count : ℕ

unfoldable pub register_exposure_stat : SequencerStats → ℤ → SequencerStats
register_exposure_stat s intertime = record s {
  last_intertime = intertime;
  total_exposure_intertime = s.total_exposure_intertime +ℤ intertime;
  max_intertime = if ltb_ℤ s.max_intertime intertime then intertime else s.max_intertime;
  exposures_count = s.exposures_count + 1;
}

-- `mean_intertime()`, with the division of `int`.
unfoldable pub mean_intertime : SequencerStats → Outcome ℤ
mean_intertime s =
    if s.exposures_count == 0
    then fault division_by_zero
    else ok (s.total_exposure_intertime /ℤ s.exposures_count)

-- `print()`: the numbers of the line that is logged.
unfoldable pub print : SequencerStats → Outcome (ℤ × ℤ × ℤ × ℤ)
print s = mean_intertime s >>= λ mean. ok (s.last_intertime, mean, s.max_intertime, s.exposure_time)

pub record Sequencer : Type 0 where
  pub base : CameraFunction
  pub started : Bool
  pub finished : Bool
  pub num_shots : ℤ
  pub exposure_time : ℤ
  pub abort_cond : Bool
  pub stats : SequencerStats

-- The constructor.
unfoldable pub init : ℤ → ℤ → Bool → Sequencer
init n_exposures exposure_time download_after_exp = record {
  base = record {
    download_folder = default_download_folder;
    testing = false;
    download_after_exposure = download_after_exp;
  };
  started = false;
  finished = false;
  num_shots = n_exposures;
  exposure_time = exposure_time;
  abort_cond = false;
  stats = record {
    exposure_time = exposure_time;
    programmed_exposures = n_exposures;
    total_exposure_intertime = pos 0;
    max_intertime = pos 0;
    last_intertime = pos 0;
    exposures_count = 0;
  };
}

pub get_id : Sequencer → FunctionId
get_id s = sequencer

-- `abort()`
unfoldable pub abort : Sequencer → Sequencer
abort s = if s.started && not s.finished then record s { abort_cond = true } else s

unfoldable pub operating : Sequencer → Bool
operating s = is_operating s.started s.finished s.base

-- What the run thread meets in one round: the value of `abort_cond` at the loop's test, that of the
-- download flag, and the two readings of the clock, in milliseconds.
pub record Round : Type 0 where
  pub aborted : Bool
  pub download : Bool
  pub start_time : ℤ
  pub end_time : ℤ

-- `i < num_shots || num_shots == -1`
abbrev pub shots_left : Sequencer → ℕ → Bool
shots_left s i = ltb_ℤ (pos i) s.num_shots || eqb_ℤ s.num_shots (negsuc 0)

-- How the run thread stands after some rounds: still in its loop, or in a capture that never returns;
-- through the loop; or an exception, which nothing in the thread catches, has ended the program.
pub data Progress : Type 0 where
  running done terminated : Progress

-- The statistics after the capture of a round.
unfoldable pub after_shot : Round → Sequencer → Sequencer
after_shot r s =
    let exposure_duration = int_of (r.end_time -ℤ r.start_time) in
    let intertime = exposure_duration -ℤ s.exposure_time in
    record s { stats = register_exposure_stat s.stats intertime }

module _ {W : Type 0} (camera : Camera W) where
  -- `start()`. The thread that it creates is `run`.
  unfoldable pub start : Sequencer → W → (Sequencer × W) × Bool
  start s w =
      let (connected, w') = connect_camera camera w in
      if s.base.testing
      then ((s, w), false)
      else if not s.started
      then (if not connected then ((s, w'), false) else ((record s { started = true }, w'), true))
      else ((s, w), false)

  -- `doTestCapture()`, while no other thread runs a capture of this function.
  unfoldable pub do_test_capture : Sequencer → W → Sequencer × W
  do_test_capture s w =
      let s' = record s { base = record s.base { testing = true } } in
      let (result, w') = camera.capture s'.exposure_time (capture_folder s'.base) w in
      (record s' { base = record s'.base { testing = still_testing result } }, w')

  -- The capture of a round.
  unfoldable pub shoot : Round → Sequencer → W → Captured × W
  shoot r s w = camera.capture s.exposure_time (if r.download then s.base.download_folder else "") w

  -- The loop of `run()` over the rounds that the environment gives, from `i` shots; `finished` is set
  -- when it ends. The number returned is the local `i`.
  unfoldable pub run : List Round → Sequencer → W → ℕ → Progress × Sequencer × W × ℕ
  run [] s w i = (running, s, w, i)
  run (r ∷ rounds) s w i =
      let (result, w') = shoot r s w in
      let rest = run rounds (after_shot r s) w' (i + 1) in
      if not r.aborted && shots_left s i
      then (elim result [
        | success ↦ rest
        | failure ↦ (done, record s { finished = true }, w', i + 1)
        | exception ↦ (terminated, s, w', i + 1)
        | endless ↦ (running, s, w', i + 1)
      ])
      else (done, record s { finished = true }, w, i)
