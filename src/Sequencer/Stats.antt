-- ===== src/Sequencer/Stats.antt =====
-- The statistics of a run, which are logged after each exposure.
use camera_controller.Base.{ℕ, ◌+◌, ◌*◌, ◌≤◌, ◌≡◌, List, [], ◌∷◌, foldl, length, All}
use camera_controller.Base.Int.{ℤ, pos, pos_part, neg_part, ◌+ℤ◌, ◌-ℤ◌, ◌≤ℤ◌, int_of}
use camera_controller.Outcome.{ok}
use camera_controller.Sequencer.{Sequencer, Round, SequencerStats, register_exposure_stat, print}

abbrev pub register_all : List ℤ → SequencerStats → SequencerStats
register_all intertimes s = foldl register_exposure_stat s intertimes

unfoldable pub sum : List ℤ → ℤ
sum [] = pos 0
sum (t ∷ ts) = t +ℤ sum ts

-- The mean does not pass the maximum, which is not negative.
record IsFair (s : SequencerStats) : Type 0 where
  most : ℕ
  max : s.max_intertime ≡ pos most
  total : s.total_exposure_intertime ≤ℤ pos (s.exposures_count * most)

-- What registering the times `ts` makes of `before`.
pub record Registered (before : SequencerStats) (ts : List ℤ) (s : SequencerStats) : Type 0 where
  pub total : s.total_exposure_intertime ≡ before.total_exposure_intertime +ℤ sum ts
  pub count : s.exposures_count ≡ before.exposures_count + length ts
  pub above_before : before.max_intertime ≤ℤ s.max_intertime
  pub above : All (λ t. t ≤ℤ s.max_intertime) ts
  pub exposure_time : s.exposure_time ≡ before.exposure_time

-- What the statistics `s` of a sequencer with the exposure time `e` say of the times `ts`: nothing
-- before the first one; then the line can be printed, with the last time, a mean that is not above
-- the maximum, the maximum, which no time is above, and `e`; the sum and the count are those of the
-- times.
abbrev pub Summary : ℤ → List ℤ → SequencerStats → Type 0
Summary e [] s = s.exposures_count ≡ 0
Summary e (t ∷ ts) s =
    (mean : ℤ) × (print s ≡ ok (s.last_intertime, mean, s.max_intertime, e))
    × (mean ≤ℤ s.max_intertime)
    × All (λ u. u ≤ℤ s.max_intertime) (t ∷ ts)
    × (s.total_exposure_intertime ≡ sum (t ∷ ts))
    × (s.exposures_count ≡ length (t ∷ ts))

-- The time between exposures that a round registers.
abbrev pub intertime : ℤ → Round → ℤ
intertime exposure_time r = int_of (r.end_time -ℤ r.start_time) -ℤ exposure_time

-- At most `m` in size.
abbrev pub IsSmall : ℕ → ℤ → Type 0
IsSmall m t = (pos_part t ≤ m) × (neg_part t ≤ m)
