-- ===== src/Gametime/Periods.antt =====
-- internal/gametime/gametime.go: what a period adds to a round.
use native.Mathlib.Nat.{div-add-mod}
use go_mud.Prelude.{
  ℕ, ◌+◌, ◌-◌, ◌*◌, ◌/◌, ◌%◌, ◌^◌, ◌<◌, ◌≤◌, ◌≡◌, ◌≢◌, ◌↔◌, inl, inr, refl, ap, ◌∙◌, false, none,
  some, List, [], ◌∷◌, ◌++◌, length, leb, ltb, ◌==◌, arith, Bool-cases,
}
use go_mud.Prelude.Predicates.{All}
use go_mud.Prelude.Bytes.{to_lower, lower_byte, is_empty}
use go_mud.Prelude.Decimal.{print, atoi, atoi-print, All-print, print-append}
use go_mud.Gametime.{
  Timing, Period, PeriodName, noon, day, sunrise, sunset, add_64, sub_64, split_blanks,
  parts_period, read_period, at_least_one, add, get_last_period, days_after, by_kind, unit_kind,
  add_period, PeriodUnit, years, months, weeks, days, hours, minutes, noons, midnights, sunrises,
  sunsets, rounds,
}

abbrev pub NoBlank : ℕ → Type 0
NoBlank b = (b == 32) ≡ false

-- A digit is not a blank, and `ToLower` keeps it.
digit-Plain : (d : ℕ) → d < 10 → NoBlank (48 + d) × (lower_byte (48 + d) ≡ 48 + d)
digit-Plain d h = (ground arith, ground arith)

split_blanks-last : (w : List ℕ) → All NoBlank w → split_blanks w ≡ w ∷ []
unfolding split_blanks
split_blanks-last [] h = refl
split_blanks-last (b ∷ w) h = rw (h.0, split_blanks-last w h.1) refl

split_blanks-word :
    (w rest : List ℕ) → All NoBlank w → split_blanks (w ++ 32 ∷ rest) ≡ w ∷ split_blanks rest
unfolding split_blanks
split_blanks-word [] rest h = refl
split_blanks-word (b ∷ w) rest h = rw (h.0, split_blanks-word w rest h.1) refl

to_lower-append : (a b : List ℕ) → to_lower (a ++ b) ≡ to_lower a ++ to_lower b
unfolding to_lower
to_lower-append [] b = refl
to_lower-append (x ∷ a) b = ap (λ l. lower_byte x ∷ l) (to_lower-append a b)

to_lower-NoBlank : (w : List ℕ) → All NoBlank w → All NoBlank (to_lower w)
unfolding to_lower
to_lower-NoBlank [] h = tt
to_lower-NoBlank (b ∷ w) h = (ground (arith, h.0), to_lower-NoBlank w h.1)

length-to_lower : (w : List ℕ) → length (to_lower w) ≡ length w
unfolding to_lower
length-to_lower [] = refl
length-to_lower (b ∷ w) = omega (arith, length-to_lower w)

to_lower_self : (w : List ℕ) → All (λ b. NoBlank b × (lower_byte b ≡ b)) w → to_lower w ≡ w
unfolding to_lower
to_lower_self [] h = refl
to_lower_self (b ∷ w) h = rw (h.0.1, to_lower_self w h.1) refl

-- A quantity and a unit with a blank between them.
read_period-pair :
    (q u : List ℕ)
    → All NoBlank q
    → All NoBlank u
    → read_period (q ++ 32 ∷ u)
      ≡ record { qty = at_least_one (atoi (to_lower q)); unit = to_lower u; real_time = false }
unfolding read_period parts_period to_lower
read_period-pair q u hq hu = ap parts_period (
    ap split_blanks (to_lower-append q (32 ∷ u))
    ∙ split_blanks-word (to_lower q) (to_lower u) (to_lower-NoBlank q hq)
    ∙ ap (λ l. to_lower q ∷ l) (split_blanks-last (to_lower u) (to_lower-NoBlank u hu)))

filled : (q u : List ℕ) → is_empty (q ++ 32 ∷ u) ≡ false
filled [] u = refl
filled (b ∷ q) u = refl

abbrev pub rounds_word : List ℕ
rounds_word = b'r' ∷ b'o' ∷ b'u' ∷ b'n' ∷ b'd' ∷ b's' ∷ []

abbrev pub noon_word : List ℕ
noon_word = b'n' ∷ b'o' ∷ b'o' ∷ b'n' ∷ []

plain-NoBlank : (w : List ℕ) → All (λ b. NoBlank b × (lower_byte b ≡ b)) w → All NoBlank w
plain-NoBlank [] h = tt
plain-NoBlank (b ∷ w) h = (h.0.0, plain-NoBlank w h.1)

-- Half a day back from the start of a day, and a day forward.
next_noon :
    (start per_day : ℕ)
    → start + per_day < 2 ^ 64
    → add_64 (add_64 (sub_64 start (per_day / 2)) (0 * per_day * 365)) (1 * per_day)
      ≡ start + (per_day - per_day / 2)
next_noon start per_day h = elim (Bool-cases (leb (per_day / 2) start)) [
  | inl e ↦ rw e (ground arith)
  | inr e ↦ rw e (ground arith)
]

module _ (hour_rounds minute_rounds half_night_rounds : ℕ → Timing → ℕ) (c : Timing) where
  -- A number of rounds from 1 to below 2 ^ 63, written out with the word `rounds`, adds exactly so
  -- many rounds, modulo 2 ^ 64.
  pub add_period-rounds :
      (n round : ℕ)
      → 0 < n
      → n < 2 ^ 63
      → add_period hour_rounds minute_rounds half_night_rounds c (print n (32 ∷ rounds_word)) round
        ≡ some ((round + n) % 2 ^ 64)
  unfolding add_period by_kind unit_kind to_lower
  add_period-rounds n round pos small =
      let plain = All-print (λ b. NoBlank b × (lower_byte b ≡ b)) digit-Plain n [] tt in
      let read =
        read_period-pair (print n []) rounds_word (plain-NoBlank (print n []) plain)
          (refl, (refl, (refl, (refl, (refl, (refl, tt)))))) in
      let above : ltb n 1 ≡ false = ground arith in
      rw
        (
          print-append n (32 ∷ rounds_word),
          add_period,
          read,
          filled (print n []) rounds_word,
          to_lower_self (print n []) plain,
          atoi-print n small,
          above,
        )
        refl

  get_last_period-some :
      (name : PeriodName) (round : ℕ)
      → 24 ≤ c.rounds_per_day
      → (r : ℕ) × (get_last_period hour_rounds minute_rounds half_night_rounds c name round
          ≡ some r)
  unfolding get_last_period
  get_last_period-some name round long =
      let some_rounds : (c.rounds_per_day / 24 == 0) ≡ false = ground arith in
      rw (some_rounds, get_last_period) (_, refl)

  days_after-some :
      (name : PeriodName) (qty round : ℕ)
      → 24 ≤ c.rounds_per_day
      → days_after hour_rounds minute_rounds half_night_rounds c name qty round ≢ none
  unfolding days_after
  days_after-some name qty round long e =
      let (r, f) = get_last_period-some name round long in let g = rw (f, days_after) at e in cc

  by_kind-some :
      (u : PeriodUnit) (p : Period) (round : ℕ)
      → 24 ≤ c.rounds_per_day
      → by_kind hour_rounds minute_rounds half_night_rounds c u p round ≢ none
  unfolding by_kind
  by_kind-some years p round long e = cc
  by_kind-some months p round long e = cc
  by_kind-some weeks p round long e = cc
  by_kind-some days p round long e = cc
  by_kind-some hours p round long e = cc
  by_kind-some minutes p round long e = cc
  by_kind-some noons p round long e = days_after-some noon p.qty round long e
  by_kind-some midnights p round long e = days_after-some day p.qty round long e
  by_kind-some sunrises p round long e = days_after-some sunrise p.qty round long e
  by_kind-some sunsets p round long e = days_after-some sunset p.qty round long e
  by_kind-some rounds p round long e = cc

  -- Where a day has at least 24 rounds, a period of two words, a quantity and a unit with one blank
  -- between them, makes AddPeriod panic if and only if the unit has exactly two bytes.
  pub add_period_panics :
      (q u : List ℕ) (round : ℕ)
      → 24 ≤ c.rounds_per_day
      → All NoBlank q
      → All NoBlank u
      → (add_period hour_rounds minute_rounds half_night_rounds c (q ++ 32 ∷ u) round ≡ none)
        ↔ (length u ≡ 2)
  unfolding add_period
  add_period_panics q u round long hq hu =
      let p = read_period (q ++ 32 ∷ u) in
      let measured : length p.unit ≡ length u =
        ap (λ (p : Period). length p.unit) (read_period-pair q u hq hu) ∙ length-to_lower u in
      let safe = by_kind-some (unit_kind p.unit) p round long in
      rw (filled q u, add_period) (ground (arith, measured, safe))

  noon_period :
      (round : ℕ)
      → add_period hour_rounds minute_rounds half_night_rounds c noon_word round
        ≡ days_after hour_rounds minute_rounds half_night_rounds c noon 1 round
  unfolding add_period by_kind unit_kind read_period parts_period split_blanks to_lower atoi
  noon_period round = refl

  from_noon :
      (round : ℕ)
      → 24 ≤ c.rounds_per_day
      → days_after hour_rounds minute_rounds half_night_rounds c noon 1 round
        ≡ some (
            add_64
              (add_64
                (sub_64 (round - round % c.rounds_per_day) (c.rounds_per_day / 2))
                (0 * c.rounds_per_day * 365))
              (1 * c.rounds_per_day))
  unfolding days_after get_last_period add
  from_noon round long =
      let some_rounds : (c.rounds_per_day / 24 == 0) ≡ false = ground arith in
      rw (some_rounds, days_after, get_last_period) refl

  -- Where a day has at least 24 rounds, and the round is past a multiple of them by more than half a
  -- day, rounded up, so that it is after noon, the period `noon` leads back: it gives a round before the
  -- current one. The round is more than a day below 2 ^ 64.
  pub noon_past :
      (round : ℕ)
      → 24 ≤ c.rounds_per_day
      → c.rounds_per_day - c.rounds_per_day / 2 < round % c.rounds_per_day
      → round + c.rounds_per_day < 2 ^ 64
      → (r : ℕ) × (add_period hour_rounds minute_rounds half_night_rounds c noon_word round
          ≡ some r)
        × (r < round)
  unfolding add_period by_kind unit_kind
  noon_past round long late small =
      let whole = div-add-mod round c.rounds_per_day in
      let later =
        next_noon (round - round % c.rounds_per_day) c.rounds_per_day (omega (arith, small)) in
      (
        (round - round % c.rounds_per_day) + (c.rounds_per_day - c.rounds_per_day / 2),
        noon_period round ∙ from_noon round long ∙ ap some later,
        omega (arith, whole, late),
      )
