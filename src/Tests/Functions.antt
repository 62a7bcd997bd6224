-- ===== src/Tests/Functions.antt =====
-- Runs of the functions of src/functions/ and of the infrared trigger of src/utils/.
use camera_controller.Base.{ℕ, ◌+◌, ◌≡◌, refl, [], ◌∷◌, arith, true, false}
use camera_controller.Base.Int.{ℤ, pos}
use camera_controller.CameraFunction.{Camera, success}
use camera_controller.Sequencer
use camera_controller.Sequencer.{Sequencer}
use camera_controller.Sequencer.Run as SequencerRun
use camera_controller.Intervalometer
use camera_controller.Intervalometer.{Intervalometer, IntervalometerStats}
use camera_controller.Intervalometer.Run as IntervalometerRun
use camera_controller.RemoteTrigger.{low, trigger}
use camera_controller.RemoteTrigger.Timing.{total, switches_on, waits, pin_after, trigger_lem}

-- A camera that takes every exposure; the state counts them.
abbrev pub working : Camera ℕ
working = record {
  is_connected = λ w. true;
  is_responsive = λ w. (true, w);
  connect = λ w. (true, w);
  disconnect = λ w. w;
  capture = λ t folder w. (success, w + 1);
}

abbrev pub sequence : ℤ → Sequencer
sequence n = record {
  base = record {
    download_folder = "/home/pi/CCCaptures/";
    testing = false;
    download_after_exposure = false;
  };
  started = true;
  finished = false;
  num_shots = n;
  exposure_time = pos 500;
  abort_cond = false;
  stats = record {
    exposure_time = pos 500;
    programmed_exposures = n;
    total_exposure_intertime = pos 0;
    max_intertime = pos 0;
    last_intertime = pos 0;
    exposures_count = 0;
  };
}

abbrev pub sequence_round : Sequencer.Round
sequence_round = record {
  aborted = false;
  download = false;
  start_time = pos 0;
  end_time = pos 510;
}

-- The test before the second of one exposure ends the run.
one-done : (Sequencer.run working (sequence_round ∷ []) (sequence (pos 1)) 0 1).0 ≡ Sequencer.done
unfolding Sequencer.run
one-done = refl

run-completes_example :
    let (p, s', w', i') =
      Sequencer.run working
        (sequence_round ∷ sequence_round ∷ sequence_round ∷ [])
        (sequence (pos 2))
        0
        0 in
    (p ≡ Sequencer.done) × (i' ≡ 2) × (s'.finished ≡ true) × (s'.stats.exposures_count ≡ 2)
run-completes_example =
    SequencerRun.run-completes working (λ t folder w. refl)
      (sequence_round ∷ sequence_round ∷ sequence_round ∷ []) (sequence (pos 2)) 0 2 0 2 refl
      (omega arith) (omega arith) (refl, (refl, (refl, tt)))

abbrev pub timed : Intervalometer
timed = record {
  base = record {
    download_folder = "/home/pi/CCCaptures/";
    testing = false;
    download_after_exposure = false;
  };
  started = true;
  finished = false;
  interval = pos 1000;
  num_shots = pos 1;
  exposure_time = pos 500;
  stats = record {
    total_delay = pos 0;
    max_delay = pos 0;
    delayed_exposures_count = 0;
    exposures_count = 0;
  };
  abort_cond = false;
}

abbrev pub timed_round : Intervalometer.Round
timed_round = record {
  aborted = false;
  download = false;
  start_time = pos 0;
  end_time = pos 510;
  wakes = record { aborted = false; timed_out = true } ∷ [];
}

run-completes_at_interval_example :
    let (p, s', w', i') = Intervalometer.run working (timed_round ∷ timed_round ∷ []) timed 0 0 in
    (p ≡ Intervalometer.done) × (i' ≡ 1) × (s'.finished ≡ true) × (s'.stats.exposures_count ≡ 1)
unfolding Intervalometer.wait_next
run-completes_at_interval_example =
    IntervalometerRun.run-completes_at_interval working (λ t folder w. refl)
      (timed_round ∷ timed_round ∷ []) timed 0 1 0 1 refl (omega arith) (omega arith)
      ((refl, refl), ((refl, refl), tt))

trigger_lem_example :
    (total switches_on (trigger 2) ≡ 496)
    × (total waits (trigger 2) ≡ 344924)
    × (pin_after low (trigger 2) ≡ low)
trigger_lem_example = trigger_lem 2
