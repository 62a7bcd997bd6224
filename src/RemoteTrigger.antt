-- ===== src/RemoteTrigger.antt =====
-- src/utils/RemoteTrigger.{h,cpp}: the infrared LED that releases the shutter, as the sequence of
-- calls of the GPIO library and of the waits between them.
pub mod Timing
use camera_controller.Base.{
  ℕ, zero, suc, ◌+◌, ◌-◌, ◌*◌, List, [], ◌∷◌, ◌++◌, Bool, ltb, ◌==◌, if◌then◌else◌,
}

abbrev pub pin_trigger : ℕ
pin_trigger = 25

pub data Level : Type 0 where
  low high : Level

-- `delay` and `sleep_for` wait for milliseconds, `delayMicroseconds` for microseconds.
pub data Call : Type 0 where
  wiring_pi_setup : Call
  pin_mode_output : ℕ → Call
  digital_write : ℕ → Level → Call
  delay_microseconds : ℕ → Call
  delay : ℕ → Call
  sleep_for : ℕ → Call

pub init_remote : List Call
init_remote = wiring_pi_setup ∷ pin_mode_output pin_trigger ∷ digital_write pin_trigger high ∷ []

pub remote_trigger : List Call
remote_trigger = digital_write pin_trigger low ∷ sleep_for 100 ∷ digital_write pin_trigger high ∷ []

pub init_trigger : List Call
init_trigger = wiring_pi_setup ∷ pin_mode_output pin_trigger ∷ digital_write pin_trigger low ∷ []

-- `for (i = 0; i < n; i++)` with the four calls of a pulse.
pub pulses : ℕ → List Call
pulses zero = []
pulses (suc n) =
    digital_write pin_trigger high
    ∷ delay_microseconds 7
    ∷ digital_write pin_trigger low
    ∷ delay_microseconds 7
    ∷ pulses n

-- The body of the loop over `j`.
pub burst : ℕ → List Call
unfolding pulses
burst j =
    pulses 76
    ++ (delay 27 ∷ delay_microseconds 810 ∷ [])
    ++ (pulses 16 ++ (delay_microseconds 1540 ∷ []))
    ++ (pulses 16 ++ (delay_microseconds 3545 ∷ []))
    ++ (pulses 16 ++ (if j == 0 then delay 63 ∷ delay_microseconds 200 ∷ [] else []))

-- The loop over `r`, with `left` rounds to go. `repetitions - 1` is computed only where a round runs,
-- so at `repetitions` of 1 or more, and does not wrap.
pub rounds : ℕ → ℕ → ℕ → List Call
rounds zero r repetitions = []
rounds (suc left) r repetitions =
    burst 0
    ++ burst 1
    ++ (if ltb r (repetitions - 1) then sleep_for 80 ∷ [] else [])
    ++ rounds left (r + 1) repetitions

-- `trigger(repetitions)`
pub trigger : ℕ → List Call
trigger repetitions = rounds repetitions 0 repetitions
