-- ===== src/Intervalometer.antt =====
-- src/functions/intervalometer.{h,cpp}: exposures at a fixed interval. The members that another thread
-- may change are read once for each place where the code reads them. Sums of `int` are sums of
-- integers: their overflow is undefined in the source.
pub mod Run
use Prim.Native.String.{String}
use camera_controller.Base.{
  ℕ, zero, suc, ◌+◌, Bool, true, false, ◌&&◌, ◌||◌, not, Option, none, some, List, [], ◌∷◌,
  if◌then◌else◌, ◌==◌,
}
use camera_controller.Base.Int.{ℤ, pos, negsuc, ◌+ℤ◌, ◌-ℤ◌, ◌/ℤ◌, ltb_ℤ, eqb_ℤ, int_of}
use camera_controller.Outcome.{Outcome, ok, fault, division_by_zero}
use camera_controller.CameraFunction.{
  Camera, Captured, success, failure, exception, endless, still_testing, CameraFunction, FunctionId,
  intervalometer, default_download_folder, capture_folder, is_operating, connect_camera,
}

-- The members have no initialisers.
pub record IntervalometerStats : Type 0 where
  pub total_delay : ℤ
  pub max_delay : ℤ
  pub delayed_exposures_count : ℕ
  pub exposures_count : ℕ

unfoldable pub register_exposure_stat : IntervalometerStats → ℤ → IntervalometerStats
register_exposure_stat s delay = record {
  total_delay = s.total_delay +ℤ delay;
  max_delay = if ltb_ℤ s.max_delay delay then delay else s.max_delay;
  delayed_exposures_count =
      if ltb_ℤ (pos 0) delay then s.delayed_exposures_count + 1 else s.delayed_exposures_count;
  exposures_count = s.exposures_count + 1;
}

-- `mean_delay()`, with the division of `int`.
unfoldable pub mean_delay : IntervalometerStats → Outcome ℤ
mean_delay s =
    if s.exposures_count == 0
    then fault division_by_zero
    else ok (s.total_delay /ℤ s.exposures_count)

pub record Intervalometer : Type 0 where
  pub base : CameraFunction
  pub started : Bool
  pub finished : Bool
  pub interval : ℤ
  pub num_shots : ℤ
  pub exposure_time : ℤ
  pub stats : IntervalometerStats
  pub abort_cond : Bool

-- The constructor. `junk` is what `stats` holds, since nothing sets it.
unfoldable pub init : IntervalometerStats → ℤ → ℤ → ℤ → Bool → Intervalometer
init junk n_exposures interval exposure_time download_after_exposure = record {
  base = record {
    download_folder = default_download_folder;
    testing = false;
    download_after_exposure = download_after_exposure;
  };
  started = false;
  finished = false;
  interval = interval;
  num_shots = n_exposures;
  exposure_time = exposure_time;
  stats = junk;
  abort_cond = false;
}

pub get_id : Intervalometer → FunctionId
get_id s = intervalometer

-- `abort()`; it also wakes the run thread.
unfoldable pub abort : Intervalometer → Intervalometer
abort s = if s.started && not s.finished then record s { abort_cond = true } else s

unfoldable pub operating : Intervalometer → Bool
operating s = is_operating s.started s.finished s.base

-- A turn of the inner wait: `abort_cond` at its test, and whether `wait_until` then timed out.
pub record Wake : Type 0 where
  pub aborted : Bool
  pub timed_out : Bool

-- What the run thread meets in one round. Times are in milliseconds.
pub record Round : Type 0 where
  pub aborted : Bool
  pub download : Bool
  pub start_time : ℤ
  pub end_time : ℤ
  pub wakes : List Wake

-- `while (!abort_cond) { if (wait_until(...) == timeout) break; }`: whether the wait is over.
unfoldable pub wait_next : List Wake → Bool
wait_next [] = false
wait_next (k ∷ wakes) = if not k.aborted then k.timed_out || wait_next wakes else true

-- `i < num_shots || num_shots == -1`
abbrev pub shots_left : Intervalometer → ℕ → Bool
shots_left s i = ltb_ℤ (pos i) s.num_shots || eqb_ℤ s.num_shots (negsuc 0)

pub data Progress : Type 0 where
  running done terminated : Progress

-- The statistics after the capture of a round: the delay is `-1 * (int)remaining.count()`.
unfoldable pub after_shot : Round → Intervalometer → Intervalometer
after_shot r s =
    let next_exposure = r.start_time +ℤ s.interval in
    let remaining = next_exposure -ℤ r.end_time in
    record s { stats = register_exposure_stat s.stats (pos 0 -ℤ int_of remaining) }

module _ {W : Type 0} (camera : Camera W) where
  -- `start()`. The thread that it creates is `run`.
  unfoldable pub start : Intervalometer → W → (Intervalometer × W) × Bool
  start s w =
      let (connected, w') = connect_camera camera w in
      if s.base.testing
      then ((s, w), false)
      else if not s.started
      then (if not connected then ((s, w'), false) else ((record s { started = true }, w'), true))
      else ((s, w), false)

  -- `doTestCapture()`, while no other thread runs a capture of this function.
  unfoldable pub do_test_capture : Intervalometer → W → Intervalometer × W
  do_test_capture s w =
      let s' = record s { base = record s.base { testing = true } } in
      let (result, w') = camera.capture s'.exposure_time (capture_folder s'.base) w in
      (record s' { base = record s'.base { testing = still_testing result } }, w')

  -- The capture of a round.
  unfoldable pub shoot : Round → Intervalometer → W → Captured × W
  shoot r s w = camera.capture s.exposure_time (if r.download then s.base.download_folder else "") w

  -- The loop of `run()` over the rounds that the environment gives, from `i` shots; `finished` is set
  -- when it ends. A round whose wait is not over stands still. The number returned is the local `i`.
  unfoldable pub run : List Round → Intervalometer → W → ℕ → Progress × Intervalometer × W × ℕ
  run [] s w i = (running, s, w, i)
  run (r ∷ rounds) s w i =
      let (result, w') = shoot r s w in
      let rest = run rounds (after_shot r s) w' (i + 1) in
      if not r.aborted && shots_left s i
      then (elim result [
        | success ↦ if wait_next r.wakes then rest else (running, after_shot r s, w', i + 1)
        | failure ↦ (done, record s { finished = true }, w', i + 1)
        | exception ↦ (terminated, s, w', i + 1)
        | endless ↦ (running, s, w', i + 1)
      ])
      else (done, record s { finished = true }, w, i)
