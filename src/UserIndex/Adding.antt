-- ===== src/UserIndex/Adding.antt =====
-- internal/users/index.go: creating the file and adding a user do to the entries what they promise.
use mathlib.Core.Path.{subst}
use mathlib.Core.List.{append_assoc, append-nil}
use go_mud.Prelude.Bytes.{to_lower, bytes_eq}
use go_mud.Prelude.{
  drop_prefix, ℕ, zero, suc, ◌+◌, ◌^◌, ◌<◌, ◌≡◌, ◌≢◌, ◌∙◌, refl, none, some, List, [], ◌∷◌, ◌++◌,
  length, take, drop, length-append, length-take, if◌then◌else◌, arith, ap, sym,
}
use go_mud.Prelude.Int.{ℤ, ltb_ℤ}
use go_mud.Prelude.Predicates.{All, All-append}
use go_mud.Prelude.Words.{IsInt64}
use go_mud.UserIndex.{UserIndex, IndexMetaData}
use go_mud.UserIndex.Header.{Fits, header_bytes, length-header_bytes, format-Fits}
use go_mud.UserIndex.Calls.{
  create, fresh_meta_data, add_user, write_record, overwrite, copy_into, name_field,
}
use go_mud.UserIndex.Searches.{write_records}
use go_mud.UserIndex.Records.{Entry, IsEntry, stored}
use go_mud.UserIndex.Lookups.{Represents, all_stored, to_lower-plain}

-- What the operations do to the entries. A name of more than 80 bytes is cut.
pub add_entry : ℤ → List ℕ → List Entry → List Entry
add_entry id name l = l ++ (take 80 (to_lower name), id) ∷ []

pub length-add_entry :
    (id : ℤ) (name : List ℕ) (l : List Entry) → length (add_entry id name l) ≡ suc (length l)
unfolding add_entry
length-add_entry id name l =
    omega (arith, length-append {A = Entry} l ((take 80 (to_lower name), id) ∷ []))

pub made :
    (m : IndexMetaData) (h : ℤ) (l : List Entry)
    → m.meta_data_size ≡ 100
    → m.record_size ≡ 89
    → m.record_count ≡ length l
    → Fits m
    → All IsEntry l
    → Represents
        (record {
          meta_data = m;
          highest_user_id = h;
          file = some (header_bytes m ++ all_stored l);
        })
        l
made m h l size record_size count fits entries = record {
  size = size;
  record_size = record_size;
  records = count;
  fits = fits;
  bytes = refl;
  entries = entries;
}

fresh_Fits : Fits fresh_meta_data
fresh_Fits = record { version = omega arith; records = omega arith; size = omega arith }

-- An index that was just created has no entries, whatever file there was.
pub create-Represents : (idx : UserIndex) → Represents (create idx).0 []
unfolding create write_records
create-Represents idx =
    rw (format-Fits fresh_meta_data fresh_Fits, create)
      (subst
        (λ (bs : List ℕ).
          Represents
            (record {
              meta_data = fresh_meta_data;
              highest_user_id = idx.highest_user_id;
              file = some bs;
            })
            [])
        (append-nil (header_bytes fresh_meta_data))
        (made fresh_meta_data idx.highest_user_id [] refl refl refl fresh_Fits tt))

write_records-append : (l k : List Entry) → all_stored (l ++ k) ≡ all_stored l ++ all_stored k
unfolding write_records
write_records-append [] k = refl
write_records-append (e ∷ l) k =
    rw (write_records-append l k)
      (sym (append_assoc (write_record (stored e)) (all_stored l) (all_stored k)))

copy_into-take : (n : ℕ) (name : List ℕ) → copy_into n (take n name) ≡ copy_into n name
unfolding copy_into
copy_into-take zero name = refl
copy_into-take (suc n) [] = refl
copy_into-take (suc n) (b ∷ bs) = rw (copy_into-take n bs) refl

take-plain : (n : ℕ) (name : List ℕ) → All (λ b. b ≢ 0) name → All (λ b. b ≢ 0) (take n name)
take-plain zero name h = tt
take-plain (suc n) [] h = tt
take-plain (suc n) (b ∷ bs) h = (h.0, take-plain n bs h.1)

added-IsEntry :
    (id : ℤ) (name : List ℕ)
    → IsInt64 id
    → All (λ b. b ≢ 0) name
    → IsEntry (take 80 (to_lower name), id)
added-IsEntry id name v plain = record {
  name = record {
    short = omega (arith, length-take 80 (to_lower name));
    plain = take-plain 80 (to_lower name) (to_lower-plain name plain);
  };
  id = v;
}

-- The file after a write of a new header over the old one.
overwrite-header :
    (m new : IndexMetaData) (l k : List Entry)
    → Fits m
    → Fits new
    → overwrite (header_bytes new) ((header_bytes m ++ all_stored l) ++ all_stored k)
      ≡ header_bytes new ++ all_stored (l ++ k)
unfolding overwrite
overwrite-header m new l k f g =
    ap (λ (bs : List ℕ). header_bytes new ++ bs)
      (ap (drop (length (header_bytes new)))
          (append_assoc (header_bytes m) (all_stored l) (all_stored k))
        ∙ drop_prefix (length (header_bytes new)) (header_bytes m) (all_stored l ++ all_stored k)
            (length-header_bytes m f ∙ sym (length-header_bytes new g))
        ∙ sym (write_records-append l k))

stored_one :
    (id : ℤ) (name : List ℕ)
    → write_record (record { user_id = id; username = name_field name })
      ≡ all_stored ((take 80 name, id) ∷ [])
unfolding write_records stored name_field
stored_one id name =
    ap (λ (field : List ℕ). write_record (record { user_id = id; username = field }))
      (sym (copy_into-take 80 name))
    ∙ sym (append-nil (write_record (stored (take 80 name, id))))

module _ (idx : UserIndex) (l : List Entry) (r : Represents idx l) where
  -- Adding a user puts an entry behind the others, with the name in lower case, and succeeds.
  pub add_user-Represents :
      (id : ℤ) (name : List ℕ)
      → IsInt64 id
      → All (λ b. b ≢ 0) name
      → suc (length l) < 2 ^ 64
      → Represents (add_user id name idx).0 (add_entry id name l)
        × ((add_user id name idx).1 ≡ none)
  unfolding add_user add_entry
  add_user-Represents id name v plain room =
      let meta : IndexMetaData = record idx.meta_data {
        record_count = idx.meta_data.record_count + 1;
      } in
      let fits : Fits meta = record {
        version = r.fits.version;
        records = omega (arith, r.records);
        size = r.fits.size;
      } in
      let entry : Entry = (take 80 (to_lower name), id) in
      let bytes =
        ap
          (λ (bs : List ℕ).
            overwrite (header_bytes meta) ((header_bytes idx.meta_data ++ all_stored l) ++ bs))
          (stored_one id (to_lower name))
        ∙ overwrite-header idx.meta_data meta l (entry ∷ []) r.fits fits in
      rw (r.bytes, add_user, format-Fits meta fits)
        (
          subst
              (λ (bs : List ℕ).
                Represents
                  (record {
                    meta_data = meta;
                    highest_user_id =
                        if ltb_ℤ idx.highest_user_id id then id else idx.highest_user_id;
                    file = some bs;
                  })
                  (add_entry id name l))
              (sym bytes)
              (made meta (if ltb_ℤ idx.highest_user_id id then id else idx.highest_user_id)
                (add_entry id name l) r.size r.record_size
                (omega (arith, r.records, length-append {A = Entry} l (entry ∷ []))) fits
                (All-append IsEntry l (entry ∷ []) r.entries (added-IsEntry id name v plain, tt))),
          refl,
        )
