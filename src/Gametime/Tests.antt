-- ===== src/Gametime/Tests.antt =====
-- Periods at concrete rounds.
use go_mud.Prelude.{ℕ, ◌+◌, ◌*◌, ◌/◌, ◌<◌, ◌≡◌, ◌↔◌, refl, none, some, [], ◌∷◌, ◌++◌, length, arith}
use go_mud.Prelude.Decimal.{print}
use go_mud.Gametime.{Timing, add_period}
use go_mud.Gametime.Periods.{
  rounds_word, noon_word, add_period-rounds, add_period_panics, noon_past,
}

-- The timing of the configuration file.
abbrev timing : Timing
timing = record { rounds_per_day = 900; round_seconds = 4; night_hours = 8 }

-- The products without the rounding of float64.
abbrev hour_rounds : ℕ → Timing → ℕ
hour_rounds n c = (n * c.rounds_per_day) / 24

abbrev minute_rounds : ℕ → Timing → ℕ
minute_rounds n c = (n * c.rounds_per_day) / 1440

abbrev half_night_rounds : ℕ → Timing → ℕ
half_night_rounds n c = (n * c.rounds_per_day + 47) / 48

add_period-rounds_example :
    add_period hour_rounds minute_rounds half_night_rounds timing (print 15 (32 ∷ rounds_word)) 1000
    ≡ some 1015
add_period-rounds_example =
    add_period-rounds hour_rounds minute_rounds half_night_rounds timing 15 1000 (omega arith)
      (omega arith)

-- "2 hr"
add_period_panics_example :
    (add_period hour_rounds minute_rounds half_night_rounds timing
        ((b'2' ∷ []) ++ 32 ∷ b'h' ∷ b'r' ∷ [])
        1000
      ≡ none)
    ↔ (length {A = ℕ} (b'h' ∷ b'r' ∷ []) ≡ 2)
add_period_panics_example =
    add_period_panics hour_rounds minute_rounds half_night_rounds timing (b'2' ∷ [])
      (b'h' ∷ b'r' ∷ []) 1000 (omega arith) (refl, tt) (refl, (refl, tt))

-- Round 1400 is 500 rounds into a day of 900.
noon_past_example :
    (r : ℕ) × (add_period hour_rounds minute_rounds half_night_rounds timing noon_word 1400
      ≡ some r)
    × (r < 1400)
noon_past_example =
    noon_past hour_rounds minute_rounds half_night_rounds timing 1400 (omega arith) (omega arith)
      (omega arith)
