-- ===== src/Uuid/Tests.antt =====
-- The ids at concrete readings of the clock.
use go_mud.Prelude.{ℕ, ◌+◌, ◌*◌, ◌^◌, ◌%◌, ◌≡◌, refl, arith, some, List, [], ◌∷◌}
use go_mud.Uuid.{
  Uuid, UuidGenerator, timestamp, sequence_of, version, id_type_of, unused, uuid_of, new_uuid,
  new_uuids, since_epoch, shift_left, high_of, low_of, next_stamp,
}
use go_mud.Uuid.Fields.{uuid_of-fields}
use go_mud.Uuid.Increasing.{Steady, Distinct, new_uuids-Distinct}
use go_mud.Uuid.Returning.{new_uuid-returns}
use go_mud.Uuid.Text.{ok, to_string, from_string}
use go_mud.Uuid.Text.Reading.{FitsText, from_string-to_string}

abbrev start : UuidGenerator
start = record { last_timestamp = 0; sequence = 0 }

-- 1000 and 1001 microseconds after the epoch of the ids.
abbrev readings : List ℕ
readings = 1735689600001000 ∷ 1735689600001000 ∷ 1735689600001001 ∷ []

abbrev types : List ℕ
types = 37 ∷ 37 ∷ 2 ∷ []

abbrev three_ids : List Uuid
three_ids =
    record { high = 65536018; low = 5 * 2 ^ 56 }
    ∷ record { high = 65536274; low = 5 * 2 ^ 56 }
    ∷ record { high = 65601552; low = 2 * 2 ^ 56 }
    ∷ []

three_made : new_uuids types start readings ≡ some three_ids
unfolding new_uuids new_uuid next_stamp uuid_of high_of low_of shift_left since_epoch
three_made = refl

readings-Steady : Steady 0 readings
unfolding since_epoch
readings-Steady =
    (omega arith, omega arith, (omega arith, omega arith, (omega arith, omega arith, tt)))

new_uuids-Distinct_example : Distinct three_ids
new_uuids-Distinct_example =
    new_uuids-Distinct types readings three_ids (omega arith, (omega arith, (omega arith, tt)))
      readings-Steady three_made

full : UuidGenerator
full = record { last_timestamp = 1000; sequence = 255 }

-- All 256 numbers of a microsecond are used: the call waits for the next.
new_uuid-returns_example :
    (u : Uuid) × (g' : UuidGenerator) × (left : List ℕ) × (new_uuid 37 full
        (1735689600001000 ∷ 1735689600001000 ∷ 1735689600001001 ∷ [])
      ≡ some (u, g', left))
unfolding since_epoch full
new_uuid-returns_example =
    new_uuid-returns full 37 (1735689600001000 ∷ 1735689600001000 ∷ []) 1735689600001001 []
      (omega arith)

uuid_of-fields_example :
    (timestamp (uuid_of full 37) ≡ 1000 % 2 ^ 48)
    × (sequence_of (uuid_of full 37) ≡ 255)
    × (version (uuid_of full 37) ≡ 1)
    × (id_type_of (uuid_of full 37) ≡ 37)
    × (unused (uuid_of full 37) ≡ 0)
unfolding full
uuid_of-fields_example = uuid_of-fields full 37 (omega arith) (omega arith)

abbrev one_id : Uuid
one_id = record { high = 65536018; low = 5 * 2 ^ 56 + 77 }

one_id-FitsText : FitsText one_id
unfolding version
one_id-FitsText = record { high = omega arith; low = omega arith; one = refl }

from_string-to_string_example : from_string (to_string one_id) ≡ ok one_id
from_string-to_string_example = from_string-to_string one_id one_id-FitsText
