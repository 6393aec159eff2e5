-- ===== src/UserIndex/Removing.antt =====
-- internal/users/index.go: removing a name takes its entry out.
use go_mud.Prelude.Bytes.{to_lower, bytes_eq, eq_bytes}
use go_mud.Prelude.{
  ℕ, suc, ◌≤◌, ◌≡◌, ◌∙◌, refl, Bool, true, false, ◌||◌, none, some, List, [], ◌∷◌, ◌++◌, map,
  length, length-map, if◌then◌else◌, arith, ap, inl, inr, Bool-cases,
}
use go_mud.Prelude.Predicates.{All}
use go_mud.UserIndex.{UserIndex, IndexMetaData, IndexUserRecord, not_found}
use go_mud.UserIndex.Header.{Fits, header_bytes, format-Fits}
use go_mud.UserIndex.Searches.{
  remove_by_username, collect_loop, collected, keep_record, write_records, write_complete_index,
}
use go_mud.UserIndex.Records.{Entry, IsEntry, stored, read_record_there, trim_zeros-name_field}
use go_mud.UserIndex.Lookups.{Represents, At, At-start, At-suc, all_stored}
use go_mud.UserIndex.Adding.{made}

-- The entries without the first of the name.
pub remove_entry : List ℕ → List Entry → List Entry
remove_entry name [] = []
remove_entry name (e ∷ l) = if eq_bytes e.0 name then l else e ∷ remove_entry name l

unfoldable pub holds : List ℕ → List Entry → Bool
holds name [] = false
holds name (e ∷ l) = if eq_bytes e.0 name then true else holds name l

pub length-remove_entry : (name : List ℕ) (l : List Entry) → length (remove_entry name l) ≤ length l
unfolding remove_entry
length-remove_entry name [] = omega arith
length-remove_entry name (e ∷ l) = ground (arith, length-remove_entry name l)

remove_entry-IsEntry :
    (name : List ℕ) (l : List Entry) → All IsEntry l → All IsEntry (remove_entry name l)
unfolding remove_entry
remove_entry-IsEntry name [] h = tt
remove_entry-IsEntry name (e ∷ l) h = elim (Bool-cases (eq_bytes e.0 name)) [
  | inl f ↦ rw f h.1
  | inr f ↦ rw f (h.0, remove_entry-IsEntry name l h.1)
]

remove_entry-absent :
    (name : List ℕ) (l : List Entry) → holds name l ≡ false → remove_entry name l ≡ l
unfolding remove_entry holds
remove_entry-absent name [] h = refl
remove_entry-absent name (e ∷ l) h = ground (arith, remove_entry-absent name l)

write_complete_index_lem :
    (records : List IndexUserRecord) (idx : UserIndex)
    → Fits idx.meta_data
    → write_complete_index records idx
      ≡ (record idx { file = some (header_bytes idx.meta_data ++ write_records records) }, none)
unfolding write_complete_index
write_complete_index_lem records idx f = rw (format-Fits idx.meta_data f, write_complete_index) refl

module _ (idx : UserIndex) (l : List Entry) (r : Represents idx l) where
  collect_loop_lem :
      (bytes : List ℕ) (name : List ℕ) (found : Bool) (k : List Entry) (i : ℕ)
      → All IsEntry k
      → At idx.meta_data i bytes k
      → collect_loop idx.meta_data bytes name (length k) i found
        ≡ collected (map stored (if found then k else remove_entry name k)) (found || holds name k)
  unfolding collect_loop keep_record remove_entry write_records holds stored
  collect_loop_lem bytes name true [] i h at = refl
  collect_loop_lem bytes name false [] i h at = refl
  collect_loop_lem bytes name true (e ∷ k) i h at =
      rw (read_record_there idx.meta_data i bytes e (all_stored k) at h.0, collect_loop)
        (ground (
          arith,
          collect_loop_lem bytes name true k (suc i) h.1
              (At-suc idx.meta_data bytes r.record_size i e k at),
        ))
  collect_loop_lem bytes name false (e ∷ k) i h at =
      let next = At-suc idx.meta_data bytes r.record_size i e k at in
      elim (Bool-cases (eq_bytes e.0 name)) [
        | inl f ↦
            rw
              (
                read_record_there idx.meta_data i bytes e (all_stored k) at h.0,
                collect_loop,
                stored,
                trim_zeros-name_field e.0 (h.0).name,
                f,
              )
              (collect_loop_lem bytes name true k (suc i) h.1 next)
        | inr f ↦
            rw
              (
                read_record_there idx.meta_data i bytes e (all_stored k) at h.0,
                collect_loop,
                stored,
                trim_zeros-name_field e.0 (h.0).name,
                f,
                collect_loop_lem bytes name false k (suc i) h.1 next,
              )
              refl
      ]

  collected_there :
      (name : List ℕ)
      → collect_loop idx.meta_data
          (header_bytes idx.meta_data ++ all_stored l)
          name
          idx.meta_data.record_count
          0
          false
        ≡ collected (map stored (remove_entry name l)) (holds name l)
  collected_there name =
      ap
        (λ (k : ℕ).
          collect_loop idx.meta_data (header_bytes idx.meta_data ++ all_stored l) name k 0 false)
        r.records
      ∙ collect_loop_lem (header_bytes idx.meta_data ++ all_stored l) name false l 0 r.entries
          (At-start idx l r (all_stored l))

  removed_meta : List ℕ → IndexMetaData
  removed_meta name = record idx.meta_data {
    record_count = length (map stored (remove_entry (to_lower name) l));
  }

  removal :
      (name : List ℕ)
      → remove_by_username name idx ≡ (
          if holds (to_lower name) l
          then write_complete_index
              (map stored (remove_entry (to_lower name) l))
              (record idx { meta_data = removed_meta name })
          else (idx, some not_found))
  unfolding remove_by_username removed_meta
  removal name = simp (r.bytes, remove_by_username, collected_there (to_lower name)) refl

  removed_Fits : (name : List ℕ) → Fits (removed_meta name)
  unfolding removed_meta
  removed_Fits name = record {
    version = r.fits.version;
    records = omega (
      arith,
      length-map (remove_entry (to_lower name) l) stored,
      length-remove_entry (to_lower name) l,
      r.records,
      r.fits.records,
    );
    size = r.fits.size;
  }

  -- Removing a name takes the first entry with the name in lower case out, and leaves the others in
  -- order; the highest id, the version and the sizes of the header stay. When there is none it fails
  -- with ErrNotFound, and the index, its file included, is what it was.
  pub remove_by_username-Represents :
      (name : List ℕ)
      → Represents (remove_by_username name idx).0 (remove_entry (to_lower name) l)
        × ((remove_by_username name idx).1
            ≡ (if holds (to_lower name) l then none else some not_found))
        × ((remove_by_username name idx).0.highest_user_id ≡ idx.highest_user_id)
        × ((remove_by_username name idx).0.meta_data
            ≡ record idx.meta_data { record_count = length (remove_entry (to_lower name) l) })
        × ((holds (to_lower name) l ≡ false) → ((remove_by_username name idx).0 ≡ idx))
  unfolding removed_meta
  remove_by_username-Represents name =
      let kept = remove_entry (to_lower name) l in
      elim (Bool-cases (holds (to_lower name) l)) [
        | inl f ↦
            rw
              (
                removal name,
                f,
                write_complete_index_lem (map stored kept)
                    (record idx { meta_data = removed_meta name }) (removed_Fits name),
              )
              (
                made (removed_meta name) idx.highest_user_id kept r.size r.record_size
                    (length-map kept stored) (removed_Fits name)
                    (remove_entry-IsEntry (to_lower name) l r.entries),
                refl,
                refl,
                ap (λ k. record idx.meta_data { record_count = k }) (length-map kept stored),
                λ h. absurd (cc),
              )
        | inr f ↦
            rw (removal name, f, remove_entry-absent (to_lower name) l f)
              (
                r,
                refl,
                refl,
                ap (λ k. record idx.meta_data { record_count = k }) r.records,
                λ h. refl,
              )
      ]
