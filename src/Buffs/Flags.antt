-- ===== src/Buffs/Flags.antt =====
-- internal/buffs/buffs.go, HasFlag. With `expire` the code removes an element of the slice that it
-- ranges over: `cells` is the backing array, of pointers into `objs`, and `len` the length of
-- `bs.List`. `none` is a panic: a nil spec, or an index out of range.
use Prim.Native.String.{String}
use text.Mathlib.Text.{◌==◌ as str_eq}
use go_mud.Prelude.{
  ℕ, suc, zero, ◌-◌, Bool, true, false, not, ◌&&◌, ◌||◌, Option, none, some, List, [], ◌∷◌, ◌++◌,
  ltb, if◌then◌else◌, length, get_elem?, set, take, drop,
}
use go_mud.Prelude.Int.{pos, ◌==ℤ◌}
use go_mud.Prelude.Assoc.{lookup, string_eq}
use go_mud.Buffs.{Buff, Buffs, Specs, get_buff_spec, expired, triggers_left_expired}

abbrev pub all_flag : String
all_flag = ""

-- The loop over one buff's flags: whether one of them is the action, or any will do.
unfoldable pub flag_hit : String → List String → Bool
flag_hit action [] = false
flag_hit action (p ∷ ps) =
    if str_eq p action || str_eq action all_flag then true else flag_hit action ps

pub record Ranged : Type 0 where
  pub cells : List ℕ
  pub len : ℕ
  pub objs : List Buff
  pub found : Bool

-- `bs.List = append(bs.List[:i], bs.List[i+1:]...)`: the tail moves down in place.
unfoldable pub shift_down : ℕ → Ranged → Option Ranged
shift_down i r =
    if ltb i r.len
    then some (record r {
      cells = take i r.cells ++ (drop (suc i) (take r.len r.cells) ++ drop (r.len - 1) r.cells);
      len = r.len - 1;
    })
    else none

module _ (specs : Specs) where
  unfoldable pub hit : String → Buff → Option Bool
  hit action b = elim (get_buff_spec specs b.buff_id) [
    | none ↦ none
    | some spec ↦ some (if expired b then false else flag_hit action spec.flags)
  ]

  unfoldable pub has_flag_loop : String → List Buff → Option Bool
  has_flag_loop action [] = some false
  has_flag_loop action (b ∷ l) = elim (hit action b) [
    | none ↦ none
    | some true ↦ some true
    | some false ↦ has_flag_loop action l
  ]

  -- One round of the loop with `expire`.
  unfoldable pub expire_step : String → ℕ → Ranged → Option Ranged
  expire_step action i r = elim (get_elem? r.cells i) [
    | none ↦ none
    | some k ↦ elim (get_elem? r.objs k) [
      | none ↦ none
      | some b ↦ elim (hit action b) [
        | none ↦ none
        | some false ↦ some r
        | some true ↦
            if b.buff_id ==ℤ pos 0
            then shift_down i (record r { found = true })
            else if ltb i r.len
            then some (record r {
              objs = set r.objs k (record b { triggers_left = triggers_left_expired });
              found = true;
            })
            else none
      ]
    ]
  ]

  -- `todo` rounds from position `i` on.
  unfoldable pub expire_loop : String → ℕ → ℕ → Ranged → Option Ranged
  expire_loop action zero i r = some r
  expire_loop action (suc todo) i r = elim (expire_step action i r) [
    | none ↦ none
    | some r' ↦ expire_loop action todo (suc i) r'
  ]

unfoldable pub absent {ℓ} : {A : Type ℓ} → Option A → Bool
absent none = true
absent (some _) = false

unfoldable pub iota : ℕ → ℕ → List ℕ
iota i zero = []
iota i (suc n) = i ∷ iota (suc i) n

-- `bs.List` as pointers to distinct objects.
unfoldable pub ranged : List Buff → Ranged
unfolding iota
ranged l = record { cells = iota 0 (length l); len = length l; objs = l; found = false }

-- What a list of pointers points to.
unfoldable pub deref : List Buff → List ℕ → List Buff
deref objs [] = []
deref objs (k ∷ ks) = elim (get_elem? objs k) [ some b ↦ b ∷ deref objs ks | none ↦ deref objs ks ]

module _ (specs : Specs) where
  -- `HasFlag(action, expire)`: the buffs afterwards and the result.
  unfoldable pub has_flag : String → Bool → Buffs → Option (Buffs × Bool)
  unfolding absent ranged deref
  has_flag action expire bs =
      if not (str_eq action all_flag) && absent (lookup action bs.buff_flags)
      then some (bs, false)
      else if expire
      then elim (expire_loop specs action (length bs.list) 0 (ranged bs.list)) [
        | none ↦ none
        | some r ↦ some (record bs { list = deref r.objs (take r.len r.cells) }, r.found)
      ]
      else elim (has_flag_loop specs action bs.list) [ none ↦ none | some b ↦ some (bs, b) ]
