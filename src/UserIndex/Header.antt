-- ===== src/UserIndex/Header.antt =====
-- internal/users/index.go: the header that is written reads back.
use mathlib.Core.List.{append_assoc}
use go_mud.Prelude.Bytes.{trim_space, trim_left, trim_right, is_space}
use go_mud.Prelude.{
  ℕ, zero, suc, ◌+◌, ◌-◌, ◌^◌, ◌≤◌, ◌<◌, ◌≡◌, ◌∙◌, refl, false, some, List, [], ◌∷◌, ◌++◌, length,
  take, drop, replicate, length-append, take_prefix, length-replicate, lt→ltb, arith, ap, sym,
}
use go_mud.Prelude.Predicates.{All, All-append}
use go_mud.Prelude.Decimal.{
  print, scan_digits, starts_digit, scan_digits-print, starts_digit-print, length-print, All-print,
}
use go_mud.UserIndex.{
  IndexMetaData, header_content, format, expect, scan_uint, scan_field, scan_header, version_text,
  count_text, size_text, read_full, get_meta_data_from_file,
}

-- The numbers of a header fit 64 bits.
pub record Fits (m : IndexMetaData) : Type 0 where
  pub version : m.index_version < 2 ^ 64
  pub records : m.record_count < 2 ^ 64
  pub size : m.record_size < 2 ^ 64

abbrev pub NoSpace : ℕ → Type 0
NoSpace b = is_space b ≡ false

digit-NoSpace : (d : ℕ) → d < 10 → NoSpace (48 + d)
digit-NoSpace d h = ground arith

version_text-NoSpace : All NoSpace version_text
version_text-NoSpace = (refl, (refl, (refl, (refl, (refl, (refl, (refl, (refl, tt))))))))

count_text-NoSpace : All NoSpace count_text
count_text-NoSpace = (
  refl,
  (
    refl,
    (refl, (refl, (refl, (refl, (refl, (refl, (refl, (refl, (refl, (refl, (refl, tt))))))))))),
  ),
)

size_text-NoSpace : All NoSpace size_text
size_text-NoSpace = (
  refl,
  (refl, (refl, (refl, (refl, (refl, (refl, (refl, (refl, (refl, (refl, (refl, tt))))))))))),
)

header_content-NoSpace : (m : IndexMetaData) → All NoSpace (header_content m)
unfolding header_content
header_content-NoSpace m =
    let sizes = All-print NoSpace digit-NoSpace m.record_size [] tt in
    let counts =
      All-print NoSpace digit-NoSpace m.record_count (size_text ++ print m.record_size [])
        (All-append NoSpace size_text (print m.record_size []) size_text-NoSpace sizes) in
    All-append NoSpace version_text
      (print m.index_version
        (count_text ++ print m.record_count (size_text ++ print m.record_size [])))
      version_text-NoSpace
      (All-print NoSpace digit-NoSpace m.index_version
        (count_text ++ print m.record_count (size_text ++ print m.record_size []))
        (All-append NoSpace count_text (print m.record_count (size_text ++ print m.record_size []))
          count_text-NoSpace counts))

length-header_content : (m : IndexMetaData) → Fits m → length (header_content m) ≤ 93
unfolding header_content
length-header_content m f = omega (
  arith,
  length-print m.record_size [] f.size,
  length-print m.record_count (size_text ++ print m.record_size []) f.records,
  length-print m.index_version
      (count_text ++ print m.record_count (size_text ++ print m.record_size [])) f.version,
)

trim_right-spaces : (k : ℕ) → trim_right (replicate k b' ') ≡ []
unfolding trim_right
trim_right-spaces zero = refl
trim_right-spaces (suc k) = rw (trim_right-spaces k) refl

trim_right-padded :
    (text : List ℕ) (k : ℕ) → All NoSpace text → trim_right (text ++ replicate k b' ') ≡ text
unfolding trim_right
trim_right-padded [] k h = trim_right-spaces k
trim_right-padded (b ∷ []) k h = rw (trim_right-padded [] k tt, h.0) refl
trim_right-padded (b ∷ c ∷ text) k h = rw (trim_right-padded (c ∷ text) k h.1) refl

padding : IndexMetaData → List ℕ
padding m = replicate (99 - length (header_content m)) b' '

-- The header as it stands in the file.
pub header_bytes : IndexMetaData → List ℕ
header_bytes m = header_content m ++ (padding m ++ 10 ∷ [])

pub format-Fits : (m : IndexMetaData) → Fits m → format m ≡ some (header_bytes m)
unfolding format header_bytes padding
format-Fits m f = ground (arith, length-header_content m f)

pub length-header_bytes : (m : IndexMetaData) → Fits m → length (header_bytes m) ≡ 100
unfolding header_bytes padding
length-header_bytes m f = omega (
  arith,
  length-header_content m f,
  length-append (header_content m) (padding m ++ 10 ∷ []),
  length-append (padding m) (10 ∷ []),
  length-replicate {A = ℕ} (99 - length (header_content m)) b' ',
)

scan_digits-stops :
    (n : ℕ) (rest : List ℕ) → starts_digit rest ≡ false → scan_digits n rest ≡ (n, rest)
unfolding scan_digits
scan_digits-stops n [] e = refl
scan_digits-stops n (b ∷ rest) e = rw e refl

expect-append : (text rest : List ℕ) → expect text (text ++ rest) ≡ some rest
unfolding expect
expect-append [] rest = refl
expect-append (b ∷ text) rest = ground (arith, expect-append text rest)

-- A field reads back when no digit follows it.
scan_field-print :
    (text : List ℕ) (n : ℕ) (rest : List ℕ)
    → n < 2 ^ 64
    → starts_digit rest ≡ false
    → scan_field text (some (text ++ print n rest)) ≡ (n, some rest)
unfolding scan_field scan_uint
scan_field-print text n rest h e =
    rw
      (
        expect-append text (print n rest),
        scan_field,
        starts_digit-print n rest,
        scan_digits-print n rest,
        scan_digits-stops n rest e,
        lt→ltb n (2 ^ 64) h,
      )
      refl

scan_header-header_content :
    (m : IndexMetaData) → Fits m → m.meta_data_size ≡ 100 → scan_header (header_content m) ≡ m
unfolding header_content scan_header
scan_header-header_content m f e =
    rw
      (
        scan_field-print version_text m.index_version
            (count_text ++ print m.record_count (size_text ++ print m.record_size [])) f.version
            refl,
        scan_field-print count_text m.record_count (size_text ++ print m.record_size []) f.records
            refl,
        scan_field-print size_text m.record_size [] f.size refl,
      )
      (ap (λ (k : ℕ). record m { meta_data_size = k }) (sym e))

trim_left-header_content :
    (m : IndexMetaData) (rest : List ℕ)
    → trim_left (header_content m ++ rest) ≡ header_content m ++ rest
unfolding header_content trim_left
trim_left-header_content m rest = refl

-- A read of bytes that stand at the offset.
pub read_full_there :
    (n offset : ℕ) (bytes mid post : List ℕ)
    → drop offset bytes ≡ mid ++ post
    → length mid ≡ n
    → read_full n offset bytes ≡ some mid
unfolding read_full
read_full_there n offset bytes mid post at len =
    rw (at, take_prefix n mid post len, len) (ground arith)

take-header_bytes :
    (m : IndexMetaData) → Fits m → take 99 (header_bytes m) ≡ header_content m ++ padding m
unfolding header_bytes padding
take-header_bytes m f =
    ap (take 99) (sym (append_assoc (header_content m) (padding m) (10 ∷ [])))
    ∙ take_prefix 99 (header_content m ++ padding m) (10 ∷ []) (
        omega (
          arith,
          length-header_content m f,
          length-append (header_content m) (padding m),
          length-replicate {A = ℕ} (99 - length (header_content m)) b' ',
        ))

trimmed_header :
    (m : IndexMetaData)
    → Fits m
    → trim_right (trim_left (take 99 (header_bytes m))) ≡ header_content m
unfolding padding
trimmed_header m f =
    ap (λ (bs : List ℕ). trim_right (trim_left bs)) (take-header_bytes m f)
    ∙ ap trim_right (trim_left-header_content m (padding m))
    ∙ trim_right-padded (header_content m) (99 - length (header_content m))
        (header_content-NoSpace m)

-- The header of a file reads back.
pub get_meta_data-header_bytes :
    (m : IndexMetaData) (rest : List ℕ)
    → Fits m
    → m.meta_data_size ≡ 100
    → get_meta_data_from_file (some (header_bytes m ++ rest)) ≡ m
unfolding get_meta_data_from_file trim_space
get_meta_data-header_bytes m rest f e =
    rw
      (
        read_full_there 100 0 (header_bytes m ++ rest) (header_bytes m) rest refl
            (length-header_bytes m f),
        get_meta_data_from_file,
      )
      (ap scan_header (trimmed_header m f) ∙ scan_header-header_content m f e)
