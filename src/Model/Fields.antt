-- ===== src/Model/Fields.antt =====
-- ValidateFields of internal/model/validate_fields.go.
use kbeads.Prelude.{
  String, Bool, List, [], ◌∷◌, ◌++◌, Option, none, some, map, mem, ◌==◌, if◌then◌else◌,
}
use kbeads.Prelude.Dict
use kbeads.Prelude.Dict.{Dict}
use kbeads.Model.Bead.{
  FieldDef, FieldType, string, integer, float, boolean, timestamp, enum, strings, enums, json,
  other,
}
use kbeads.Model.Validate.{Message, plain, invalid_value, one_of, element_one_of, FieldError}
use kbeads.Model.Value.{Value, null, bool, num, str, arr, Items, nil, cons, Decoder}

abbrev unless : Bool → Message → Option Message
unless test m = if test then none else some m

-- The loops over an array: the first element that fails gives the message.
unfoldable pub strings_error : Items → Option Message
strings_error nil = none
strings_error (cons (str s) rest) = strings_error rest
strings_error (cons v rest) = some (plain "must be an array of strings")

unfoldable pub enums_error : List String → Items → Option Message
enums_error values nil = none
enums_error values (cons (str s) rest) =
    let others = enums_error values rest in
    if mem s values then others else some (element_one_of s values)
enums_error values (cons v rest) = some (plain "must be an array of strings")

-- The `switch d.Type`; `none` is a nil error.
unfoldable pub field_value_error : Decoder → FieldType → List String → Value → Option Message
unfolding strings_error enums_error
field_value_error dec string values (str s) = none
field_value_error dec string values v = some (plain "must be a string")
field_value_error dec integer values (num n) = unless (dec.is_whole n) (plain "must be an integer")
field_value_error dec integer values v = some (plain "must be an integer")
field_value_error dec float values (num n) = none
field_value_error dec float values v = some (plain "must be a number")
field_value_error dec boolean values (bool b) = none
field_value_error dec boolean values v = some (plain "must be a boolean")
field_value_error dec timestamp values (str s) =
    unless (dec.parses_time s) (plain "must be an RFC 3339 timestamp string")
field_value_error dec timestamp values v = some (plain "must be an RFC 3339 timestamp string")
field_value_error dec enum values (str s) = unless (mem s values) (one_of values)
field_value_error dec enum values v = some (plain "must be a string")
field_value_error dec strings values (arr xs) = strings_error xs
field_value_error dec strings values v = some (plain "must be an array of strings")
field_value_error dec enums values (arr xs) = enums_error values xs
field_value_error dec enums values v = some (plain "must be an array of strings")
field_value_error dec json values v = none
field_value_error dec (other t) values v = some (invalid_value t)

unfoldable pub validate_field_value : Decoder → FieldDef → Value → Option Message
unfolding field_value_error
validate_field_value dec d v = field_value_error dec d.field_type d.values v

abbrev pub required_error : FieldDef → List FieldError
required_error d =
    if d.required then record { field = d.name; message = plain "is required" } ∷ [] else []

-- No fields at all: the first required field is reported, and the loop returns.
unfoldable pub first_required : List FieldDef → List FieldError
first_required [] = []
first_required (d ∷ defs) =
    let rest = first_required defs in
    if d.required then record { field = d.name; message = plain "is required" } ∷ [] else rest

unfoldable pub unknown_keys : Dict Value → List String → List FieldError
unknown_keys [] names = []
unknown_keys ((key, v) ∷ m) names =
    let rest = unknown_keys m names in
    if mem key names then rest else record { field = key; message = plain "unknown field" } ∷ rest

abbrev pub value_errors : FieldDef → Option Message → List FieldError
value_errors d none = []
value_errors d (some m) = record { field = d.name; message = m } ∷ []

-- One round of the loop over the definitions, for the value found in the object.
abbrev pub checked : Decoder → FieldDef → Option Value → List FieldError
checked dec d none = required_error d
checked dec d (some null) = required_error d
checked dec d (some v) = value_errors d (validate_field_value dec d v)

unfoldable pub check_fields : Decoder → Dict Value → List FieldDef → List FieldError
check_fields dec m [] = []
check_fields dec m (d ∷ defs) = checked dec d (Dict.get d.name m) ++ check_fields dec m defs

unfoldable pub validate_fields : Decoder → String → List FieldDef → List FieldError
validate_fields dec raw defs = if raw == "" then first_required defs else elim (dec.unmarshal raw) [
  | none ↦ record { field = "fields"; message = plain "must be a JSON object" } ∷ []
  | some m ↦ unknown_keys m (map (λ d. d.name) defs) ++ check_fields dec m defs
]
