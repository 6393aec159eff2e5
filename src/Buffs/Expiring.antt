-- ===== src/Buffs/Expiring.antt =====
-- internal/buffs/buffs.go: HasFlag with `expire` set.
use Prim.Native.String.{String}
use mathlib.Core.List.{append_assoc}
use native.Mathlib.Nat.{zero-add}
use text.Mathlib.Text.{◌==◌ as str_eq}
use go_mud.Prelude.{
  ℕ, suc, zero, ◌+◌, ◌<◌, ◌≤◌, ◌≡◌, ◌≢◌, refl, Bool, true, false, not, ◌&&◌, none, some, List, [],
  ◌∷◌, ◌++◌, if◌then◌else◌, length, length-append, get_elem?, set, take, arith, ◌∙◌, ap,
}
use go_mud.Prelude.Int.{pos, ==ℤ_iff}
use go_mud.Prelude.Assoc.{lookup, int_eq, string_eq}
use go_mud.Buffs.{Buff, Buffs, Specs, get_buff_spec, triggers_left_expired}
use go_mud.Buffs.Flags.{
  all_flag, hit, has_flag, absent, expire_step, expire_loop, ranged, deref, iota, shift_down,
  Ranged,
}
use go_mud.Buffs.Queries.{is_live_with, any_live, hit_lem}

-- The list with every live buff that has the flag expired.
pub clear_flag : Specs → String → List Buff → List Buff
clear_flag specs f [] = []
clear_flag specs f (b ∷ l) =
    (if is_live_with specs f b then record b { triggers_left = triggers_left_expired } else b)
    ∷ clear_flag specs f l

module _ {ℓ} {A : Type ℓ} where
  get_elem?-middle :
      (xs : List A) (a : A) (ys : List A) → get_elem? (xs ++ a ∷ ys) (length xs) ≡ some a
  get_elem?-middle [] a ys = refl
  get_elem?-middle (x ∷ xs) a ys = get_elem?-middle xs a ys

  set-middle :
      (xs : List A) (a b : A) (ys : List A) → set (xs ++ a ∷ ys) (length xs) b ≡ xs ++ b ∷ ys
  set-middle [] a b ys = refl
  set-middle (x ∷ xs) a b ys = ap (λ r. x ∷ r) (set-middle xs a b ys)

  length-snoc : (xs : List A) (a : A) → length (xs ++ a ∷ []) ≡ suc (length xs)
  length-snoc [] a = refl
  length-snoc (x ∷ xs) a = ap suc (length-snoc xs a)

  length-middle : (xs : List A) (a : A) (ys : List A) → length xs < length (xs ++ a ∷ ys)
  length-middle [] a ys = omega arith
  length-middle (x ∷ xs) a ys = omega (arith, length-middle xs a ys)

get_elem?-iota : (k n i : ℕ) → i < n → get_elem? (iota k n) i ≡ some (k + i)
unfolding iota
get_elem?-iota k zero i h = absurd (omega arith)
get_elem?-iota k (suc n) zero h = ap some (omega arith)
get_elem?-iota k (suc n) (suc i) h =
    get_elem?-iota (suc k) n i (omega arith) ∙ ap some (omega arith)

iota_at : (n i : ℕ) → i < n → get_elem? (iota 0 n) i ≡ some i
iota_at n i h = get_elem?-iota 0 n i h ∙ ap some (zero-add i)

-- No buff of the list is the special buff 0, and every buff has a spec.
abbrev pub Ordinary : Specs → List Buff → Type 0
Ordinary specs [] = Unit {0}
Ordinary specs (b ∷ l) =
    (b.buff_id ≢ pos 0) × (get_buff_spec specs b.buff_id ≢ none) × Ordinary specs l

either :
    (p q r : Bool)
    → (if q then true else if p then true else r) ≡ (if if p then true else q then true else r)
either p q r = ground arith

module _ (specs : Specs) (f : String) where
  expire_step_lem :
      (done : List Buff) (b : Buff) (rest : List Buff) (n : ℕ) (found : Bool)
      → length done < n
      → b.buff_id ≢ pos 0
      → get_buff_spec specs b.buff_id ≢ none
      → expire_step specs f
          (length done)
          (record { cells = iota 0 n; len = n; objs = done ++ b ∷ rest; found = found })
        ≡ some (record {
          cells = iota 0 n;
          len = n;
          objs =
              done
              ++ (if is_live_with specs f b
                  then record b { triggers_left = triggers_left_expired }
                  else b)
                ∷ rest;
          found = if is_live_with specs f b then true else found;
        })
  unfolding expire_step
  expire_step_lem done b rest n found h nz known = ground (
    arith,
    iota_at n (length done) h,
    get_elem?-middle done b rest,
    hit_lem specs f b known,
    ==ℤ_iff b.buff_id (pos 0),
    set-middle done b (record b { triggers_left = triggers_left_expired }) rest,
  )

  expire_loop_lem :
      (rest done : List Buff) (n : ℕ) (found : Bool)
      → length (done ++ rest) ≤ n
      → Ordinary specs rest
      → expire_loop specs f
          (length rest)
          (length done)
          (record { cells = iota 0 n; len = n; objs = done ++ rest; found = found })
        ≡ some (record {
          cells = iota 0 n;
          len = n;
          objs = done ++ clear_flag specs f rest;
          found = if any_live specs f rest then true else found;
        })
  unfolding expire_loop clear_flag any_live
  expire_loop_lem [] done n found h o = refl
  expire_loop_lem (b ∷ rest) done n found h o =
      rw
        (
          expire_step_lem done b rest n found (omega (arith, length-middle done b rest)) o.0 o.1,
          expire_loop,
        )
        (moved (expire_loop_lem rest (done ++ b' ∷ []) n found' (rw append_assoc h') o.2) ∙ λ i.
          some (record {
            cells = iota 0 n;
            len = n;
            objs = append_assoc done (b' ∷ []) (clear_flag specs f rest) i;
            found = either (is_live_with specs f b) (any_live specs f rest) found i;
          }))
    where
      b' : Buff
      b' = if is_live_with specs f b then record b { triggers_left = triggers_left_expired } else b

      found' : Bool
      found' = if is_live_with specs f b then true else found

      h' : length (done ++ b' ∷ rest) ≤ n
      h' = omega (arith, h, length-append done (b ∷ rest), length-append done (b' ∷ rest))

      moved :
          {r : Ranged}
          → expire_loop specs f (length rest) (length (done ++ b' ∷ [])) (record {
            cells = iota 0 n;
            len = n;
            objs = (done ++ b' ∷ []) ++ rest;
            found = found';
          })
            ≡ some r
          → expire_loop specs f
              (length rest)
              (suc (length done))
              (record { cells = iota 0 n; len = n; objs = done ++ b' ∷ rest; found = found' })
            ≡ some r
      moved e = simp (length-snoc, append_assoc) at e

deref_all :
    (k : ℕ) (objs done : List Buff)
    → length done ≡ k
    → deref (done ++ objs) (take (length objs) (iota k (length objs))) ≡ objs
unfolding deref iota
deref_all k [] done h = refl
deref_all k (b ∷ objs) done h = ground (
  arith,
  rw h at (get_elem?-middle done b objs),
  rw append_assoc at (deref_all (suc k) objs (done ++ b ∷ []) (length-snoc done b ∙ ap suc h)),
)

length-clear_flag :
    (specs : Specs) (f : String) (l : List Buff) → length (clear_flag specs f l) ≡ length l
unfolding clear_flag
length-clear_flag specs f [] = refl
length-clear_flag specs f (b ∷ l) = ap suc (length-clear_flag specs f l)

-- With `expire` set, on a list in which every buff has a spec and none is the special buff 0,
-- `HasFlag` does not panic, expires exactly the buffs that have triggers left and the flag, keeps
-- all the others and the order, and answers whether there was one. The flag map knows the flag, or
-- the flag is "".
pub has_flag_expires :
    (specs : Specs) (f : String) (bs : Buffs)
    → Ordinary specs bs.list
    → (not (str_eq f all_flag) && absent (lookup f bs.buff_flags)) ≡ false
    → has_flag specs f true bs
      ≡ some (record bs { list = clear_flag specs f bs.list }, any_live specs f bs.list)
unfolding has_flag ranged
has_flag_expires specs f bs o known =
    rw (known, expire_loop_lem specs f bs.list [] (length bs.list) false (omega arith) o, has_flag)
      (λ i.
        some (record bs { list = cleared bs.list i }, either_false (any_live specs f bs.list) i))
  where
    cleared :
        (l : List Buff)
        → deref (clear_flag specs f l) (take (length l) (iota 0 (length l))) ≡ clear_flag specs f l
    cleared l = rw (length-clear_flag specs f l) at (deref_all 0 (clear_flag specs f l) [] refl)

    either_false : (b : Bool) → (if b then true else false) ≡ b
    either_false true = refl
    either_false false = refl

-- With `expire` set, `HasFlag` panics on a list of two buffs with triggers left that both have the
-- flag, if the first one is the special buff 0 and the second one is not: once buff 0 is removed,
-- the second buff is written to a position that no longer exists. Both specs are there, and the
-- flag map knows the flag, or the flag is "".
pub has_flag_panics :
    (specs : Specs) (f : String) (bs : Buffs) (b c : Buff)
    → bs.list ≡ b ∷ c ∷ []
    → b.buff_id ≡ pos 0
    → c.buff_id ≢ pos 0
    → hit specs f b ≡ some true
    → hit specs f c ≡ some true
    → (not (str_eq f all_flag) && absent (lookup f bs.buff_flags)) ≡ false
    → has_flag specs f true bs ≡ none
unfolding has_flag expire_loop expire_step ranged shift_down iota
has_flag_panics specs f bs b c two zero_id other hb hc known =
    rw (known, two, has_flag) (ground (arith, ==ℤ_iff b.buff_id (pos 0), ==ℤ_iff c.buff_id (pos 0)))
