-- ===== src/Events/Listeners/Ordered.antt =====
-- internal/events/listeners.go: where a new listener goes.
use mathlib.Core.List.{append_assoc}
use go_mud.Prelude.{
  ℕ, suc, zero, ◌+◌, ◌<◌, ◌≤◌, ◌≡◌, ◌∙◌, sym, ap, refl, Bool, true, false, some, List, [], ◌∷◌,
  ◌++◌, ◌==◌, arith, Bool-cases, inl, inr, length, get_elem?, take, drop, length-append,
}
use go_mud.Prelude.Assoc.{string_eq}
use go_mud.Prelude.Predicates.{All, All-append}
use go_mud.Events.Listeners.{
  QueueFlag, no_flag, first, last, ListenerWrapper, insert_position, place, is_last, drop_listener,
}

abbrev pub Final : Bool → ListenerWrapper → Type 0
Final b w = w.is_final ≡ b

-- The final listeners stand behind all the others.
pub record IsOrdered (l : List ListenerWrapper) : Type 0 where
  pub early : List ListenerWrapper
  pub final : List ListenerWrapper
  pub joined : l ≡ early ++ final
  pub none_final : All (Final false) early
  pub all_final : All (Final true) final

get_early :
    (n f : List ListenerWrapper) (i : ℕ)
    → All (Final false) n
    → i < length n
    → (w : ListenerWrapper) × (get_elem? (n ++ f) i ≡ some w) × Final false w
get_early [] f i h k = absurd (omega arith)
get_early (x ∷ n) f zero h k = (x, refl, h.0)
get_early (x ∷ n) f (suc i) h k = get_early n f i h.1 (omega arith)

get_late :
    (n f : List ListenerWrapper) (i : ℕ)
    → All (Final true) f
    → length n ≤ i
    → i < length n + length f
    → (w : ListenerWrapper) × (get_elem? (n ++ f) i ≡ some w) × Final true w
get_late [] [] i h k m = absurd (omega arith)
get_late [] (x ∷ f) zero h k m = (x, refl, h.0)
get_late [] (x ∷ f) (suc i) h k m = get_late [] f i h.1 (omega arith) (omega arith)
get_late (x ∷ n) f zero h k m = absurd (omega arith)
get_late (x ∷ n) f (suc i) h k m = get_late n f i h (omega arith) (omega arith)

-- The loop stops behind the last listener that is not final.
position_at :
    (n f : List ListenerWrapper) (m : ℕ)
    → All (Final false) n
    → m ≡ length n
    → insert_position (n ++ f) m ≡ m
unfolding insert_position
position_at n f zero hn e = refl
position_at n f (suc m) hn e =
    let (w, found, early) = get_early n f m hn (omega arith) in
    rw (found, insert_position, early) refl

position_back :
    (n f : List ListenerWrapper) (m : ℕ)
    → All (Final false) n
    → All (Final true) f
    → length n ≤ m
    → m ≤ length n + length f
    → insert_position (n ++ f) m ≡ length n
unfolding insert_position
position_back n f zero hn hf h k = omega arith
position_back n f (suc m) hn hf h k = elim (Bool-cases (suc m == length n)) [
  | inl e ↦ let same : suc m ≡ length n = ground arith in position_at n f (suc m) hn same ∙ same
  | inr e ↦
      let (w, found, late) = get_late n f m hf (ground arith) (omega arith) in
      rw (found, insert_position, late) (position_back n f m hn hf (ground arith) (omega arith))
]

take_front : (n f : List ListenerWrapper) → take (length n) (n ++ f) ≡ n
take_front [] f = refl
take_front (x ∷ n) f = ap (λ l. x ∷ l) (take_front n f)

drop_front : (n f : List ListenerWrapper) → drop (length n) (n ++ f) ≡ f
drop_front [] f = refl
drop_front (x ∷ n) f = drop_front n f

-- A registration goes to the front with the flag First, to the end with Last, and else between the
-- listeners that are not final and the final ones.
place_lem :
    (flag : QueueFlag) (w : ListenerWrapper) (n f : List ListenerWrapper)
    → All (Final false) n
    → All (Final true) f
    → place flag w (n ++ f)
      ≡ elim flag [ first ↦ w ∷ n ++ f | last ↦ n ++ f ++ w ∷ [] | no_flag ↦ n ++ w ∷ f ]
unfolding place
place_lem first w n f hn hf = refl
place_lem last w n f hn hf = refl
place_lem no_flag w n f hn hf = rw (behind, take_front n f, drop_front n f) refl
  where
    behind : insert_position (n ++ f) (length (n ++ f)) ≡ length n
    behind =
        position_back n f _ hn hf (omega (arith, length-append n f))
          (omega (arith, length-append n f))

placed :
    (flag : QueueFlag) (id : ℕ) (n f : List ListenerWrapper)
    → All (Final false) n
    → All (Final true) f
    → let w : ListenerWrapper = record { id = id; is_final = is_last flag } in
      IsOrdered (elim flag [ first ↦ w ∷ n ++ f | last ↦ n ++ f ++ w ∷ [] | no_flag ↦ n ++ w ∷ f ])
placed first id n f hn hf = record {
  early = _ ∷ n;
  final = f;
  joined = refl;
  none_final = (refl, hn);
  all_final = hf;
}
placed last id n f hn hf = record {
  early = n;
  final = _;
  joined = append_assoc n f _;
  none_final = hn;
  all_final = All-append _ f _ hf (refl, tt);
}
placed no_flag id n f hn hf = record {
  early = n ++ _ ∷ [];
  final = f;
  joined = sym (append_assoc n _ f);
  none_final = All-append _ n _ hn (refl, tt);
  all_final = hf;
}

pub place-IsOrdered :
    (flag : QueueFlag) (id : ℕ) (l : List ListenerWrapper)
    → IsOrdered l
    → IsOrdered (place flag (record { id = id; is_final = is_last flag }) l)
place-IsOrdered flag id l v = rw v.joined (
    rw
      (place_lem flag (record { id = id; is_final = is_last flag }) v.early v.final v.none_final
        v.all_final)
      (placed flag id v.early v.final v.none_final v.all_final))

All-drop_listener :
    (b : Bool) (id : ℕ) (l : List ListenerWrapper)
    → All (Final b) l
    → All (Final b) (drop_listener id l)
unfolding drop_listener
All-drop_listener b id [] h = tt
All-drop_listener b id (x ∷ l) h = elim (Bool-cases (x.id == id)) [
  | inl e ↦ rw (e, drop_listener) h.1
  | inr e ↦ rw (e, drop_listener) (h.0, All-drop_listener b id l h.1)
]

dropped :
    (id : ℕ) (n f : List ListenerWrapper)
    → All (Final false) n
    → All (Final true) f
    → IsOrdered (drop_listener id (n ++ f))
unfolding drop_listener
dropped id [] f hn hf = record {
  early = [];
  final = drop_listener id f;
  joined = refl;
  none_final = tt;
  all_final = All-drop_listener true id f hf;
}
dropped id (x ∷ n) f hn hf = elim (Bool-cases (x.id == id)) [
  | inl e ↦
      rw (e, drop_listener)
        (record { early = n; final = f; joined = refl; none_final = hn.1; all_final = hf })
  | inr e ↦
      let v = dropped id n f hn.1 hf in
      rw (e, drop_listener)
        (record {
          early = x ∷ v.early;
          final = v.final;
          joined = ap (λ r. x ∷ r) v.joined;
          none_final = (hn.0, v.none_final);
          all_final = v.all_final;
        })
]

pub drop-IsOrdered :
    (id : ℕ) (l : List ListenerWrapper) → IsOrdered l → IsOrdered (drop_listener id l)
drop-IsOrdered id l v = rw v.joined (dropped id v.early v.final v.none_final v.all_final)
