-- ===== src/UserIndex.antt =====
-- internal/users/index.go: the file that maps user names to ids. It holds a header of 100 bytes and a
-- record of 89 bytes for each user: the name in 80 bytes, the id in eight, and a line end. The disk
-- is the file's bytes, `none` when there is no file; opening fails exactly then, and a read fails
-- exactly when the file is too short. Names are bytes, of ASCII where `strings.ToLower` matters.
pub mod Calls
pub mod Searches
pub mod Header
pub mod Records
pub mod Lookups
pub mod Adding
pub mod Removing
pub mod Reopened
mod Tests
use go_mud.Prelude.{
  ℕ, zero, suc, ◌+◌, ◌-◌, ◌*◌, ◌^◌, ◌≡◌, Bool, true, false, not, ◌&&◌, ◌||◌, Option, none, some,
  List, [], ◌∷◌, ◌++◌, map, length, take, drop, replicate, get_or, ltb, leb, ◌==◌, if◌then◌else◌,
}
use go_mud.Prelude.Int.{ℤ, pos, ltb_ℤ, ◌==ℤ◌}
use go_mud.Prelude.Bytes.{trim_space}
use go_mud.Prelude.Decimal.{print, scan_digits, starts_digit}
use go_mud.Prelude.Words.{bytes_of, of_bytes, word_of, int_of}

pub record IndexMetaData : Type 0 where
  pub meta_data_size : ℕ
  pub index_version : ℕ
  pub record_count : ℕ
  pub record_size : ℕ

pub record UserIndex : Type 0 where
  pub meta_data : IndexMetaData
  pub highest_user_id : ℤ
  pub file : Option (List ℕ)

pub record IndexUserRecord : Type 0 where
  pub user_id : ℤ
  pub username : List ℕ

pub data IndexError : Type 0 where
  no_file : IndexError
  header_too_long : IndexError
  short_read : IndexError
  invalid_terminator : IndexError
  not_found : IndexError

abbrev pub index_line_terminator_v1 : ℕ
index_line_terminator_v1 = 10

abbrev pub index_record_size_v1 : ℕ
index_record_size_v1 = 89

abbrev pub fixed_header_total_length : ℕ
fixed_header_total_length = 100

abbrev pub version_text : List ℕ
version_text = b'V' ∷ b'E' ∷ b'R' ∷ b'S' ∷ b'I' ∷ b'O' ∷ b'N' ∷ b'=' ∷ []

abbrev pub count_text : List ℕ
count_text =
    b',' ∷ b'R' ∷ b'E' ∷ b'C' ∷ b'O' ∷ b'R' ∷ b'D' ∷ b'C' ∷ b'O' ∷ b'U' ∷ b'N' ∷ b'T' ∷ b'=' ∷ []

abbrev pub size_text : List ℕ
size_text = b',' ∷ b'R' ∷ b'E' ∷ b'C' ∷ b'O' ∷ b'R' ∷ b'D' ∷ b'S' ∷ b'I' ∷ b'Z' ∷ b'E' ∷ b'=' ∷ []

pub header_content : IndexMetaData → List ℕ
header_content m =
    version_text
    ++ print m.index_version
        (count_text ++ print m.record_count (size_text ++ print m.record_size []))

pub format : IndexMetaData → Option (List ℕ)
format m =
    let content = header_content m in
    if ltb (fixed_header_total_length - 1) (length content)
    then none
    else some (
        content
        ++ (replicate (fixed_header_total_length - 1 - length content) b' '
            ++ index_line_terminator_v1 ∷ []))

-- The steps of `fmt.Sscanf`: a text that must come next, and a number for `%d`.
pub expect : List ℕ → List ℕ → Option (List ℕ)
expect [] bs = some bs
expect (e ∷ es) [] = none
expect (e ∷ es) (b ∷ bs) = if e == b then expect es bs else none

pub scan_uint : List ℕ → Option (ℕ × List ℕ)
scan_uint bs =
    let scanned = scan_digits 0 bs in
    if starts_digit bs && ltb scanned.0 (2 ^ 64) then some scanned else none

-- A number behind a text. Sscanf stops at the first that does not come, which leaves the rest 0.
pub scan_field : List ℕ → Option (List ℕ) → ℕ × Option (List ℕ)
scan_field text none = (0, none)
scan_field text (some bs) = elim (expect text bs) [
  | none ↦ (0, none)
  | some rest ↦ elim (scan_uint rest) [ none ↦ (0, none) | some (n, after) ↦ (n, some after) ]
]

pub scan_header : List ℕ → IndexMetaData
scan_header content =
    let version = scan_field version_text (some content) in
    let records = scan_field count_text version.1 in
    let size = scan_field size_text records.1 in
    record {
      meta_data_size = fixed_header_total_length;
      index_version = version.0;
      record_count = records.0;
      record_size = size.0;
    }

abbrev no_meta_data : IndexMetaData
no_meta_data = record { meta_data_size = 0; index_version = 0; record_count = 0; record_size = 0 }

-- `io.ReadFull` of `n` bytes at an offset.
pub read_full : ℕ → ℕ → List ℕ → Option (List ℕ)
read_full n offset bytes =
    let got = take n (drop offset bytes) in if length got == n then some got else none

pub get_meta_data_from_file : Option (List ℕ) → IndexMetaData
get_meta_data_from_file none = no_meta_data
get_meta_data_from_file (some bytes) = elim (read_full fixed_header_total_length 0 bytes) [
  | none ↦ no_meta_data
  | some header ↦ scan_header (trim_space (take (fixed_header_total_length - 1) header))
]
