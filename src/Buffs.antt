-- ===== src/Buffs.antt =====
-- internal/buffs/buffs.go and the lookup of internal/buffs/buffspec.go: the buffs of a character,
-- with the two lookup maps that are kept beside the list. A `*Buff` is its value in the list.
-- `Specs` is the table of buff specs that the data files fill; ids under it are not negative.
pub mod Rounds
pub mod Flags
pub mod Indexed
pub mod Pruning
pub mod Kept
pub mod Lifetime
pub mod Flagged
pub mod Queries
pub mod Expiring
mod Tests
use Prim.Native.String.{String}
use text.Mathlib.Text.{◌==◌ as str_eq}
use go_mud.Prelude.{
  ℕ, suc, zero, ◌+◌, ◌-◌, ◌*◌, ◌%◌, Bool, true, false, not, ◌&&◌, ◌||◌, Option, none, some, List,
  [], ◌∷◌, ◌++◌, ◌==◌, leb, ltb, if◌then◌else◌, length, get_elem?, set, Map,
}
use go_mud.Prelude.Int.{ℤ, pos, ◌+ℤ◌, ◌-ℤ◌, magnitude}
use go_mud.Prelude.Assoc.{lookup, insert, string_eq, int_eq}
use go_mud.StatMods
use go_mud.StatMods.{StatMods}

abbrev pub triggers_left_expired : ℕ
triggers_left_expired = 0

abbrev pub triggers_left_unlimited : ℕ
triggers_left_unlimited = 1_000_000_000

pub record BuffSpec : Type 0 where
  pub buff_id : ℤ
  pub name : String
  pub round_interval : ℕ
  pub trigger_count : ℕ
  pub stat_mods : StatMods
  pub flags : List String

pub record Buff : Type 0 where
  pub buff_id : ℤ
  pub source : String
  pub on_start_waiting : Bool
  pub perma_buff : Bool
  pub round_counter : ℕ
  pub triggers_left : ℕ

pub record Buffs : Type 0 where
  pub list : List Buff
  pub buff_flags : List (String × List ℕ)
  pub buff_ids : List (ℤ × ℕ)

abbrev pub Specs : Type 0
Specs = Map BuffSpec

pub new : Buffs
new = record { list = []; buff_flags = []; buff_ids = [] }

unfoldable pub get_buff_spec : Specs → ℤ → Option BuffSpec
get_buff_spec specs id = specs (magnitude id)

unfoldable pub expired : Buff → Bool
expired b = leb b.triggers_left triggers_left_expired

-- `m[flag] = append(m[flag], idx)`, with an empty slice for a new key.
pub add_flag : ℕ → String → List (String × List ℕ) → List (String × List ℕ)
add_flag idx flag m = elim (lookup flag m) [
  | some l ↦ insert flag (l ++ idx ∷ []) m
  | none ↦ insert flag (idx ∷ []) m
]

pub add_flags : ℕ → List String → List (String × List ℕ) → List (String × List ℕ)
add_flags idx [] m = m
add_flags idx (f ∷ fs) m = add_flags idx fs (add_flag idx f m)

-- `bs.List[idx].field = ...`; the code's positions are in range (`IsIndexed`).
pub at_index : ℕ → (Buff → Buff) → List Buff → List Buff
at_index i f [] = []
at_index zero f (b ∷ l) = f b ∷ l
at_index (suc i) f (b ∷ l) = b ∷ at_index i f l

pub remove_buff : ℤ → Buffs → Buffs × Bool
unfolding at_index
remove_buff id bs = elim (lookup id bs.buff_ids) [
  | some i ↦ (
    record bs {
      list = at_index i (λ b. record b { triggers_left = triggers_left_expired }) bs.list;
    },
    true,
  )
  | none ↦ (bs, false)
]

pub triggers_left : ℤ → Buffs → ℕ
triggers_left id bs = elim (lookup id bs.buff_ids) [
  | some i ↦ elim (get_elem? bs.list i) [ some b ↦ b.triggers_left | none ↦ 0 ]
  | none ↦ 0
]

pub has_buff : ℤ → Buffs → Bool
has_buff id bs = elim (lookup id bs.buff_ids) [ some _ ↦ true | none ↦ false ]

pub started : ℤ → Buffs → Buffs
unfolding at_index
started id bs = elim (lookup id bs.buff_ids) [
  | some i ↦ record bs { list = at_index i (λ b. record b { on_start_waiting = false }) bs.list }
  | none ↦ bs
]

-- The ids at the positions of a flag's slice.
ids_at : List Buff → List ℕ → List ℤ
ids_at l [] = []
ids_at l (i ∷ is) = elim (get_elem? l i) [ some b ↦ b.buff_id ∷ ids_at l is | none ↦ ids_at l is ]

pub get_buff_ids_with_flag : String → Buffs → List ℤ
unfolding ids_at
get_buff_ids_with_flag action bs = elim (lookup action bs.buff_flags) [
  | some l ↦ ids_at bs.list l
  | none ↦ []
]

module _ (specs : Specs) where
  pub Buff_stat_mod : Buff → String → ℤ
  Buff_stat_mod b name = if expired b then pos 0 else elim (get_buff_spec specs b.buff_id) [
    | some info ↦ StatMods.get info.stat_mods (name ∷ [])
    | none ↦ pos 0
  ]

  Buffs_stat_mod_loop : List Buff → String → ℤ → ℤ
  Buffs_stat_mod_loop [] name amt = amt
  Buffs_stat_mod_loop (b ∷ bs) name amt = Buffs_stat_mod_loop bs name (amt +ℤ Buff_stat_mod b name)

  pub stat_mod : Buffs → String → ℤ
  unfolding Buffs_stat_mod_loop
  stat_mod bs name = Buffs_stat_mod_loop bs.list name (pos 0)

  pub buff_name : Buff → String
  buff_name b = elim (get_buff_spec specs b.buff_id) [ some sp ↦ sp.name | none ↦ "" ]

  -- One round of the loop of `Validate`.
  pub note_buff : ℕ → Buff → Buffs → Buffs
  note_buff idx b acc = record acc {
    buff_ids = insert b.buff_id idx acc.buff_ids;
    buff_flags = elim (get_buff_spec specs b.buff_id) [
      | some sp ↦ add_flags idx sp.flags acc.buff_flags
      | none ↦ acc.buff_flags
    ];
  }

  -- The loop from position `idx` on.
  pub rebuild : ℕ → List Buff → Buffs → Buffs
  rebuild idx [] acc = acc
  rebuild idx (b ∷ l) acc = rebuild (suc idx) l (note_buff idx b acc)

  pub validate : Bool → Buffs → Buffs
  unfolding rebuild
  validate force bs =
      if not (length bs.list == length bs.buff_ids) || force
      then rebuild 0 bs.list (record bs { buff_ids = []; buff_flags = [] })
      else bs

  pub add_buff : ℤ → Bool → Buffs → Buffs × Bool
  add_buff id permanent bs = elim (get_buff_spec specs id) [
    | none ↦ (bs, false)
    | some info ↦
        let left = if permanent then triggers_left_unlimited else info.trigger_count in
        elim (lookup id bs.buff_ids) [
          | some idx ↦ (
            record bs {
              list =
                  at_index idx (λ b. record b { triggers_left = left; perma_buff = permanent })
                    bs.list;
            },
            true,
          )
          | none ↦ (
            record {
              list =
                  bs.list
                  ++ record {
                    buff_id = info.buff_id;
                    source = "";
                    on_start_waiting = false;
                    perma_buff = permanent;
                    round_counter = 0;
                    triggers_left = left;
                  }
                    ∷ [];
              buff_ids = insert id (length bs.list) bs.buff_ids;
              buff_flags = add_flags (length bs.list) info.flags bs.buff_flags;
            },
            true,
          )
        ]
  ]
