-- ===== src/Tests/Threads.antt =====
-- Runs of the two threads of src/main.cpp and src/functions/, of `main`, and of the shutter's clock.
use camera_controller.Base.{ℕ, ◌+◌, ◌≤◌, ◌≡◌, refl, [], some, true, inl, arith}
use camera_controller.Base.Int.{pos, pos_part, ◌+ℤ◌, ◌≤ℤ◌, +ℤ_parts}
use camera_controller.Sequencer
use camera_controller.Sequencer.{Sequencer}
use camera_controller.Commands.{Command, plain, cmd_id_of, cmd_id_functionstart}
use camera_controller.CommandHandler.{
  ActiveFunction, sequencer, on_command_received, plain_case, with_function, setup_sequencer,
  replace_function, start, is_started,
}
use camera_controller.RunThread.{
  shooting, leaving, Program, booted, command, run, Reach, here, next, go_on, captured, may_go_on,
  registered, after_capture, abort_cond, shoot, thread_after, orphaned, orphans_after, is_started?,
  RunSteps, none_left, one_more, stop,
}
use camera_controller.RunThread.Invariant.{Inv, Reach-Inv}
use camera_controller.RunThread.Abort.{shots, Ends, abort-Ends}
use camera_controller.CameraFunction.{connect_camera}
use camera_controller.CameraWrapper.{Gphoto, FilePath, live}
use camera_controller.CameraWrapper.Capture.{expose, wait_for_capture}
use camera_controller.CameraWrapper.Capture.Duration.{IsClock, expose-lasts}
use camera_controller.Startup.{main}
use camera_controller.Startup.Ready.{Ready, main-Ready}
use camera_controller.Tests.Camera.{gphoto, wrapper}
use camera_controller.Tests.Network.{sockets}
use camera_controller.Tests.Functions.{working, sequence}
use camera_controller.Tests.Telecommands.{setup_command, no_statistics}

abbrev start_command : Command
start_command = plain cmd_id_functionstart

-- The first of two exposures of a sequence.
abbrev exposing : Program ℕ
exposing = record {
  app = record {
    active_function =
        some (sequencer (record (Sequencer.init (pos 3) (pos 500) true) { started = true }));
    world = 0;
    system_calls = [];
  };
  thread = shooting 1;
  orphans = [];
}

-- A sequence is set up and started, and its first exposure begins.
begins_exposure : Reach working no_statistics (booted 0) exposing
unfolding on_command_received cmd_id_of plain_case with_function setup_sequencer replace_function
    start Sequencer.init Sequencer.start connect_camera may_go_on thread_after orphaned
    orphans_after is_started? is_started
begins_exposure =
    next (next (next here (command setup_command refl)) (command start_command refl))
      (run refl (go_on refl))

Reach-Inv_example : Inv exposing
Reach-Inv_example = Reach-Inv working no_statistics 0 begins_exposure

abbrev aborted : ActiveFunction
aborted = sequencer (record (sequence (pos 2)) { abort_cond = true })

-- The capture during which the request came, and the test after it.
two_steps :
    RunSteps working 2 aborted 0 (shooting 1) (registered (pos 0) (pos 510) aborted) 1 (leaving 1)
unfolding registered Sequencer.after_shot after_capture shoot may_go_on
two_steps = one_more (captured (pos 0) (pos 510) refl) (one_more (stop refl) none_left)

abort-Ends_example :
    (2 ≤ 5)
    × (shots (leaving 1) ≡ shots (shooting 1))
    × Ends working (registered (pos 0) (pos 510) aborted) 1 (leaving 1) (shots (shooting 1))
unfolding abort_cond
abort-Ends_example = abort-Ends working (λ t folder w. inl refl) refl (λ e. cc) two_steps

-- The same camera as in the other runs, with a clock that counts milliseconds.
abbrev timed : Gphoto ℕ
timed = record (gphoto true) {
  sleep_for = λ t w. w + pos_part t;
  sleep_until = λ end w. w + pos_part end;
}

abbrev no_file : FilePath
no_file = record { folder = ""; name = "" }

timed-IsClock : IsClock timed (λ w. pos w)
timed-IsClock = record {
  tells = λ w. refl;
  now_after = λ w. omega arith;
  sleep_for_after = λ n w. omega (arith, +ℤ_parts (pos w) (pos n));
  sleep_until_after = λ end w. (omega arith, omega arith);
}

expose-lasts_example :
    (w : ℕ) × ((pos 0 +ℤ pos 65000) ≤ℤ pos w)
    × (expose timed 4 (pos 65000) no_file (wrapper true live)
        ≡ wait_for_capture timed 4 (pos 30000) no_file (record (wrapper true live) { world = w }))
expose-lasts_example =
    expose-lasts timed (λ w. pos w) timed-IsClock 4 3 (pos 65000) no_file (wrapper true live)
      (omega arith) (omega arith)

main-Ready_example :
    let (calls, running, c) = main {W = ℕ} sockets (λ i. 0xcd) [] 0 in
    Ready sockets (λ i. 0xcd) running c
main-Ready_example = main-Ready sockets (λ i. 0xcd) [] 0
