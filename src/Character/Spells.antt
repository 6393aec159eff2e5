-- ===== src/Character/Spells.antt =====
-- internal/characters/character.go: the spell book. A spell has a count of casts, negative while the
-- spell is disabled. The Boolean results of the three methods that always return false are left out.
use Prim.Native.String.{String}
use text.Mathlib.Text.{◌==◌ as str_eq}
use text.Mathlib.TextEquality.{eq_iff}
use go_mud.Prelude.{
  ◌≡◌, refl, Bool, true, false, Option, none, some, if◌then◌else◌, inl, inr, Option-cases, arith,
}
use go_mud.Prelude.Int.{ℤ, pos, ◌+ℤ◌, ◌-ℤ◌, ltb_ℤ, -ℤ_parts, int_laws}

abbrev pub SpellBook : Type 0
SpellBook = String → Option ℤ

abbrev pub write : String → ℤ → SpellBook → SpellBook
write spell n book other = if str_eq spell other then some n else book other

unfoldable pub has_spell : String → SpellBook → Bool
has_spell spell book = elim (book spell) [ none ↦ false | some n ↦ ltb_ℤ (pos 0) n ]

unfoldable pub disable_spell : String → SpellBook → SpellBook
disable_spell spell book = elim (book spell) [
  | none ↦ book
  | some n ↦ if ltb_ℤ (pos 0) n then write spell (pos 0 -ℤ n) book else book
]

unfoldable pub enable_spell : String → SpellBook → SpellBook
enable_spell spell book = elim (book spell) [
  | none ↦ book
  | some n ↦ if ltb_ℤ n (pos 0) then write spell (pos 0 -ℤ n) book else book
]

unfoldable pub track_spell_cast : String → SpellBook → SpellBook
track_spell_cast spell book = elim (book spell) [
  | none ↦ book
  | some n ↦ if ltb_ℤ (pos 0) n then write spell (n +ℤ pos 1) book else book
]

unfoldable pub learn_spell : String → SpellBook → SpellBook × Bool
learn_spell spell book = elim (book spell) [
  | none ↦ (write spell (pos 1) book, true)
  | some n ↦ (book, false)
]

written : (spell : String) (n : ℤ) (book : SpellBook) → write spell n book spell ≡ some n
written spell n book = rw ((eq_iff spell spell).1 refl) refl

not_known : (n : ℤ) → ltb_ℤ (pos 0) n ≡ true → ltb_ℤ (pos 0) (pos 0 -ℤ n) ≡ false
not_known n h = ground (arith, -ℤ_parts (pos 0) n)

negated : (n : ℤ) → ltb_ℤ (pos 0) n ≡ true → ltb_ℤ (pos 0 -ℤ n) (pos 0) ≡ true
negated n h = ground (arith, -ℤ_parts (pos 0) n)

double : (n : ℤ) → pos 0 -ℤ (pos 0 -ℤ n) ≡ n
double n = omega int_laws

-- A spell that is disabled is not known, and when it is enabled again it is as it was, casts included.
enable_spell-disable_spell :
    (spell : String) (book : SpellBook)
    → has_spell spell book ≡ true
    → (has_spell spell (disable_spell spell book) ≡ false)
      × (enable_spell spell (disable_spell spell book) spell ≡ book spell)
unfolding has_spell enable_spell disable_spell
enable_spell-disable_spell spell book h = elim (Option-cases (book spell)) [
  | inl e ↦ absurd (let k = rw (has_spell, e) at h in cc)
  | inr (n, e) ↦
      let k : ltb_ℤ (pos 0) n ≡ true = rw (has_spell, e) at h in
      let low : disable_spell spell book spell ≡ some (pos 0 -ℤ n) =
        rw (e, disable_spell, k) (written spell (pos 0 -ℤ n) book) in
      (
        rw (low, has_spell) (not_known n k),
        rw (low, enable_spell, negated n k, e, double n)
            (written spell n (disable_spell spell book)),
      )
]
