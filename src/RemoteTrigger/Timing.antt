-- ===== src/RemoteTrigger/Timing.antt =====
-- How many pulses a trigger sends, how long it takes, and where it leaves the pin.
use camera_controller.Base.{
  ℕ, zero, suc, ◌+◌, ◌-◌, ◌*◌, ◌≤◌, ◌<◌, ◌≡◌, refl, ◌∙◌, ap, List, [], ◌∷◌, ◌++◌, ltb,
  if◌then◌else◌, arith, lt→ltb, le→ltb_false,
}
use native.Mathlib.Decide.{dec_lt}
use camera_controller.RemoteTrigger.{
  Call, wiring_pi_setup, pin_mode_output, digital_write, delay_microseconds, delay, sleep_for,
  Level, low, high, burst, rounds, trigger,
}

-- The microseconds that a call waits.
pub waits : Call → ℕ
waits (delay_microseconds n) = n
waits (delay n) = 1000 * n
waits (sleep_for n) = 1000 * n
waits (digital_write p l) = 0
waits (pin_mode_output p) = 0
waits wiring_pi_setup = 0

-- One for a write that switches the LED on.
pub switches_on : Call → ℕ
switches_on (digital_write p high) = 1
switches_on (digital_write p low) = 0
switches_on (pin_mode_output p) = 0
switches_on (delay_microseconds n) = 0
switches_on (delay n) = 0
switches_on (sleep_for n) = 0
switches_on wiring_pi_setup = 0

pub total : (Call → ℕ) → List Call → ℕ
total w [] = 0
total w (c ∷ cs) = w c + total w cs

-- The level of the pin after the calls, from the level before.
pub pin_after : Level → List Call → Level
pin_after l [] = l
pin_after l (digital_write p l' ∷ cs) = pin_after l' cs
pin_after l (pin_mode_output p ∷ cs) = pin_after l cs
pin_after l (delay_microseconds n ∷ cs) = pin_after l cs
pin_after l (delay n ∷ cs) = pin_after l cs
pin_after l (sleep_for n ∷ cs) = pin_after l cs
pin_after l (wiring_pi_setup ∷ cs) = pin_after l cs

total-append : (w : Call → ℕ) (xs ys : List Call) → total w (xs ++ ys) ≡ total w xs + total w ys
unfolding total
total-append w [] ys = omega arith
total-append w (x ∷ xs) ys = omega (arith, total-append w xs ys)

pin_after-append :
    (l : Level) (xs ys : List Call) → pin_after l (xs ++ ys) ≡ pin_after (pin_after l xs) ys
unfolding pin_after
pin_after-append l [] ys = refl
pin_after-append l (digital_write p l' ∷ xs) ys = pin_after-append l' xs ys
pin_after-append l (pin_mode_output p ∷ xs) ys = pin_after-append l xs ys
pin_after-append l (delay_microseconds n ∷ xs) ys = pin_after-append l xs ys
pin_after-append l (delay n ∷ xs) ys = pin_after-append l xs ys
pin_after-append l (sleep_for n ∷ xs) ys = pin_after-append l xs ys
pin_after-append l (wiring_pi_setup ∷ xs) ys = pin_after-append l xs ys

-- The two bursts of a round: 248 pulses.
round_pulses : total switches_on (burst 0) + total switches_on (burst 1) ≡ 248
unfolding burst total switches_on
round_pulses = refl

round_time : total waits (burst 0) + total waits (burst 1) ≡ 132462
unfolding burst total waits
round_time = refl

burst_ends_low : (l : Level) → (pin_after l (burst 0) ≡ low) × (pin_after l (burst 1) ≡ low)
unfolding burst pin_after
burst_ends_low l = (refl, refl)

abbrev pause : ℕ → ℕ → List Call
pause r n = if ltb r (n - 1) then sleep_for 80 ∷ [] else []

total-rounds-suc :
    (w : Call → ℕ) (left r n : ℕ)
    → total w (rounds (suc left) r n)
      ≡ total w (burst 0)
        + total w (burst 1)
        + total w (pause r n)
        + total w (rounds left (r + 1) n)
unfolding rounds
total-rounds-suc w left r n = omega (
  arith,
  total-append w (burst 0 ++ burst 1 ++ pause r n) (rounds left (r + 1) n),
  total-append w (burst 0 ++ burst 1) (pause r n),
  total-append w (burst 0) (burst 1),
)

-- The LED rests between two rounds, and not after the last.
pause_time : (r n : ℕ) → r < n - 1 → total waits (pause r n) ≡ 80000
unfolding total waits
pause_time r n h = rw (lt→ltb r (n - 1) h)

no_pause_time : (r n : ℕ) → n - 1 ≤ r → total waits (pause r n) ≡ 0
unfolding total waits
no_pause_time r n h = rw (le→ltb_false r (n - 1) h)

pause_pulses : (r n : ℕ) → total switches_on (pause r n) ≡ 0
unfolding total switches_on
pause_pulses r n = ground arith

pulses-rounds : (left r n : ℕ) → total switches_on (rounds left r n) ≡ left * 248
unfolding total
pulses-rounds zero r n = unfold rounds in refl
pulses-rounds (suc left) r n = omega (
  arith,
  total-rounds-suc switches_on left r n,
  round_pulses,
  pause_pulses r n,
  pulses-rounds left (r + 1) n,
)

time-rounds :
    (left r n : ℕ)
    → r + left ≡ n
    → total waits (rounds left r n) ≡ left * 132462 + (left - 1) * 80000
unfolding total
time-rounds zero r n e = unfold rounds in refl
time-rounds (suc left) r n e = elim (dec_lt r (n - 1)) [
  | yes p ↦ omega (
    arith,
    total-rounds-suc waits left r n,
    round_time,
    pause_time r n p,
    time-rounds left (r + 1) n (omega arith),
  )
  | no p ↦ omega (
    arith,
    total-rounds-suc waits left r n,
    round_time,
    no_pause_time r n (omega arith),
    time-rounds left (r + 1) n (omega arith),
  )
]

ends_low : (left r n : ℕ) → pin_after low (rounds left r n) ≡ low
unfolding rounds
ends_low zero r n = unfold pin_after in refl
ends_low (suc left) r n =
    pin_after-append low (burst 0 ++ burst 1 ++ pause r n) (rounds left (r + 1) n)
    ∙ ap (λ l. pin_after l (rounds left (r + 1) n)) round_low
    ∙ ends_low left (r + 1) n
  where
    pause_low : pin_after low (pause r n) ≡ low
    pause_low = unfold pin_after in ground arith

    round_low : pin_after low (burst 0 ++ burst 1 ++ pause r n) ≡ low
    round_low =
        pin_after-append low (burst 0 ++ burst 1) (pause r n)
        ∙ ap (λ l. pin_after l (pause r n))
            (pin_after-append low (burst 0) (burst 1)
              ∙ (burst_ends_low (pin_after low (burst 0))).1)
        ∙ pause_low

-- A trigger of `n` repetitions sends 248 pulses for each, takes 132462 microseconds for each and
-- 80 milliseconds between two, and leaves a dark LED dark.
pub trigger_lem :
    (n : ℕ)
    → (total switches_on (trigger n) ≡ n * 248)
      × (total waits (trigger n) ≡ n * 132462 + (n - 1) * 80000)
      × (pin_after low (trigger n) ≡ low)
unfolding trigger
trigger_lem n = (pulses-rounds n 0 n, time-rounds n 0 n (omega arith), ends_low n 0 n)
