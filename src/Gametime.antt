-- ===== src/Gametime.antt =====
-- internal/gametime/gametime.go: rounds of the game clock, and the round at which a period is over. The
-- products of Go's float64 that are rounded to rounds are parameters: the rounds of a number of hours,
-- of a number of minutes, and of half a night. Texts are bytes, of ASCII where they are put in lower
-- case; a panic is `none`.
pub mod Periods
mod Tests
use go_mud.Prelude.{
  ℕ, ◌+◌, ◌-◌, ◌*◌, ◌/◌, ◌%◌, ◌^◌, Bool, true, false, ◌||◌, Option, none, some, List, [], ◌∷◌,
  length, ltb, leb, ◌==◌, if◌then◌else◌,
}
use go_mud.Prelude.Bytes.{eq_bytes, starts_with, to_lower, is_empty, onto_first}
use go_mud.Prelude.Decimal.{atoi}

pub record Timing : Type 0 where
  pub rounds_per_day : ℕ
  pub round_seconds : ℕ
  pub night_hours : ℕ

-- `uint64` sums and differences
abbrev pub add_64 : ℕ → ℕ → ℕ
add_64 a b = (a + b) % 2 ^ 64

abbrev pub sub_64 : ℕ → ℕ → ℕ
sub_64 a b = if leb b a then a - b else a + 2 ^ 64 - b

-- `strings.Split(s, " ")`
unfoldable pub split_blanks : List ℕ → List (List ℕ)
split_blanks [] = [] ∷ []
split_blanks (b ∷ bs) =
    let parts = split_blanks bs in if b == 32 then [] ∷ parts else onto_first b parts

pub record Period : Type 0 where
  pub qty : ℕ
  pub unit : List ℕ
  pub real_time : Bool

-- "real" or "irl", and "game" or "gametime"
unfoldable pub is_real : List ℕ → Bool
is_real w = eq_bytes w (b'r' ∷ b'e' ∷ b'a' ∷ b'l' ∷ []) || eq_bytes w (b'i' ∷ b'r' ∷ b'l' ∷ [])

unfoldable pub is_game : List ℕ → Bool
is_game w =
    eq_bytes w (b'g' ∷ b'a' ∷ b'm' ∷ b'e' ∷ [])
    || eq_bytes w (b'g' ∷ b'a' ∷ b'm' ∷ b'e' ∷ b't' ∷ b'i' ∷ b'm' ∷ b'e' ∷ [])

abbrev pub at_least_one : ℕ → ℕ
at_least_one n = if ltb n 1 then 1 else n

unfoldable pub parts_period : List (List ℕ) → Period
parts_period (a ∷ []) = record {
  qty = at_least_one (atoi a);
  unit = if ltb (atoi a) 1 then a else [];
  real_time = false;
}
parts_period (a ∷ b ∷ []) = record { qty = at_least_one (atoi a); unit = b; real_time = false }
parts_period (a ∷ b ∷ c ∷ []) =
    let qty = at_least_one (atoi a) in
    if is_real b
    then record { qty = qty; unit = c; real_time = true }
    else if is_game b
    then record { qty = qty; unit = c; real_time = false }
    else if is_real c
    then record { qty = qty; unit = b; real_time = true }
    else if is_game c
    then record { qty = qty; unit = b; real_time = false }
    else record { qty = qty; unit = []; real_time = false }
parts_period parts = record { qty = 1; unit = []; real_time = false }

unfoldable pub read_period : List ℕ → Period
read_period text = parts_period (split_blanks (to_lower text))

pub data PeriodUnit : Type 0 where
  years months weeks days hours minutes noons midnights sunrises sunsets rounds : PeriodUnit

-- The branch for a unit, by its first three bytes or as a whole.
unfoldable pub unit_kind : List ℕ → PeriodUnit
unit_kind u =
    if starts_with (b'y' ∷ b'e' ∷ b'a' ∷ []) u
    then years
    else if starts_with (b'm' ∷ b'o' ∷ b'n' ∷ []) u
    then months
    else if starts_with (b'w' ∷ b'e' ∷ b'e' ∷ []) u
    then weeks
    else if starts_with (b'd' ∷ b'a' ∷ b'y' ∷ []) u || starts_with (b'd' ∷ b'a' ∷ b'i' ∷ []) u
    then days
    else if starts_with (b'h' ∷ b'o' ∷ b'u' ∷ []) u
    then hours
    else if starts_with (b'm' ∷ b'i' ∷ b'n' ∷ []) u
    then minutes
    else if starts_with (b'n' ∷ b'o' ∷ b'o' ∷ []) u
    then noons
    else if starts_with (b'm' ∷ b'i' ∷ b'd' ∷ []) u
    then midnights
    else if eq_bytes u (b's' ∷ b'u' ∷ b'n' ∷ b'r' ∷ b'i' ∷ b's' ∷ b'e' ∷ [])
        || eq_bytes u (b's' ∷ b'u' ∷ b'n' ∷ b'r' ∷ b'i' ∷ b's' ∷ b'e' ∷ b's' ∷ [])
    then sunrises
    else if eq_bytes u (b's' ∷ b'u' ∷ b'n' ∷ b's' ∷ b'e' ∷ b't' ∷ [])
        || eq_bytes u (b's' ∷ b'u' ∷ b'n' ∷ b's' ∷ b'e' ∷ b't' ∷ b's' ∷ [])
    then sunsets
    else rounds

pub data PeriodName : Type 0 where
  hour day week noon sunrise sunset : PeriodName

module _ (hour_rounds minute_rounds half_night_rounds : ℕ → Timing → ℕ) (c : Timing) where
  -- `Add`, of adjustments that are not negative.
  unfoldable pub add : ℕ → ℕ → ℕ → ℕ → ℕ
  add h d y round =
      let by_years = add_64 round (y * c.rounds_per_day * 365) in
      let by_days = add_64 by_years (d * c.rounds_per_day) in
      if h == 0 then by_days else add_64 by_days (hour_rounds h c)

  -- The rest by the rounds of an hour panics when an hour has none, whatever the name.
  unfoldable pub get_last_period : PeriodName → ℕ → Option ℕ
  get_last_period name round =
      let day_start = round - round % c.rounds_per_day in
      let of_hour = (round % c.rounds_per_day) % (c.rounds_per_day / 24) in
      if c.rounds_per_day / 24 == 0
      then none
      else some (elim name [
        | hour ↦ round - of_hour
        | day ↦ day_start
        | week ↦ round - round % (c.rounds_per_day * 7)
        | noon ↦ sub_64 day_start (c.rounds_per_day / 2)
        | sunrise ↦ add_64 (sub_64 day_start c.rounds_per_day) (half_night_rounds c.night_hours c)
        | sunset ↦ sub_64 day_start (half_night_rounds c.night_hours c)
      ])

  -- The number of days from the last time of the name.
  unfoldable pub days_after : PeriodName → ℕ → ℕ → Option ℕ
  days_after name qty round = elim (get_last_period name round) [
    | none ↦ none
    | some last ↦ some (add 0 qty 0 last)
  ]

  -- The rounds of a real day, hour and minute; the day is written as 84600 seconds.
  abbrev pub real_day : ℕ
  real_day = 84600 / c.round_seconds

  abbrev pub real_hour : ℕ
  real_hour = 3600 / c.round_seconds

  abbrev pub real_minute : ℕ
  real_minute = 60 / c.round_seconds

  unfoldable pub by_kind : PeriodUnit → Period → ℕ → Option ℕ
  by_kind years p round =
      some (if p.real_time then add_64 round (p.qty * real_day * 365) else add 0 0 p.qty round)
  by_kind months p round =
      some (
        if p.real_time then add_64 round (p.qty * real_hour * 730) else add (730 * p.qty) 0 0 round)
  by_kind weeks p round =
      some (if p.real_time then add_64 round (p.qty * real_day * 7) else add 0 (7 * p.qty) 0 round)
  by_kind days p round =
      some (if p.real_time then add_64 round (p.qty * real_day) else add 0 p.qty 0 round)
  by_kind hours p round =
      some (if p.real_time then add_64 round (p.qty * real_hour) else add p.qty 0 0 round)
  by_kind minutes p round =
      some (add_64 round (if p.real_time then p.qty * real_minute else minute_rounds p.qty c))
  by_kind noons p round = days_after noon p.qty round
  by_kind midnights p round = days_after day p.qty round
  by_kind sunrises p round = days_after sunrise p.qty round
  by_kind sunsets p round = days_after sunset p.qty round
  by_kind rounds p round = some (add_64 round p.qty)

  -- `timeStr[0:3]` panics on a unit of two bytes.
  unfoldable pub add_period : List ℕ → ℕ → Option ℕ
  add_period text round =
      let p = read_period text in
      if is_empty text
      then some round
      else if leb 2 (length p.unit)
      then if length p.unit == 2 then none else by_kind (unit_kind p.unit) p round
      else some (add p.qty 0 0 round)
