-- ===== src/Model/FieldProofs.antt =====
-- Typed fields: what ValidateFields accepts, against a description of each type.
use kbeads.Prelude.{
  ℕ, String, Bool, true, false, List, [], ◌∷◌, ◌++◌, Option, none, some, map, mem, mem_iff, ◌==◌,
  eq_iff, ◌≡◌, ◌≢◌, ◌⊎◌, ◌↔◌, inl, inr, refl, ap, arith, Elem, All, Bool-cases, Option-cases,
}
use kbeads.Prelude.Dict
use kbeads.Prelude.Dict.{Dict}
use kbeads.Model.Bead.{
  FieldDef, FieldType, string, integer, float, boolean, timestamp, enum, strings, enums, json,
  other,
}
use kbeads.Model.Validate.{append-eq-nil}
use kbeads.Model.Value.{Value, null, bool, num, str, arr, obj, Items, nil, cons, Decoder}
use kbeads.Model.Fields.{
  strings_error, enums_error, field_value_error, validate_field_value, required_error,
  first_required, value_errors, unknown_keys, checked, check_fields, validate_fields,
}

-- The JSON array of some texts.
abbrev pub texts : List String → Items
texts [] = nil
texts (s ∷ ss) = cons (str s) (texts ss)

-- The values of each field type.
abbrev pub HasType : Decoder → FieldType → List String → Value → Type 0
HasType dec string values v = (s : String) × (v ≡ str s)
HasType dec integer values v = (n : ℕ) × (v ≡ num n) × (dec.is_whole n ≡ true)
HasType dec float values v = (n : ℕ) × (v ≡ num n)
HasType dec boolean values v = (b : Bool) × (v ≡ bool b)
HasType dec timestamp values v = (s : String) × (v ≡ str s) × (dec.parses_time s ≡ true)
HasType dec enum values v = (s : String) × (v ≡ str s) × Elem s values
HasType dec strings values v = (ss : List String) × (v ≡ arr (texts ss))
HasType dec enums values v = (ss : List String) × (v ≡ arr (texts ss)) × All (λ s. Elem s values) ss
HasType dec json values v = Unit
HasType dec (other t) values v = ⊥

strings_error-none : (xs : Items) → strings_error xs ≡ none → (ss : List String) × (xs ≡ texts ss)
unfolding strings_error
strings_error-none nil h = ([], refl)
strings_error-none (cons (str s) rest) h =
    let (ss, e) = strings_error-none rest h in (s ∷ ss, ap (cons (str s)) e)
strings_error-none (cons _ rest) h = cc

strings_error-texts : (ss : List String) → strings_error (texts ss) ≡ none
unfolding strings_error
strings_error-texts [] = refl
strings_error-texts (s ∷ ss) = strings_error-texts ss

enums_error-none :
    (values : List String) (xs : Items)
    → enums_error values xs ≡ none
    → (ss : List String) × (xs ≡ texts ss) × All (λ s. Elem s values) ss
unfolding enums_error
enums_error-none values nil h = ([], refl, tt)
enums_error-none values (cons (str s) rest) h =
    let (ss, e, a) = enums_error-none values rest (ground arith) in
    (s ∷ ss, ap (cons (str s)) e, ((mem_iff s values).0 (ground arith), a))
enums_error-none values (cons _ rest) h = cc

enums_error-texts :
    (values ss : List String) → All (λ s. Elem s values) ss → enums_error values (texts ss) ≡ none
unfolding enums_error
enums_error-texts values [] a = refl
enums_error-texts values (s ∷ ss) a =
    rw ((mem_iff s values).1 a.0) (enums_error-texts values ss a.1)

error→HasType :
    (dec : Decoder) (t : FieldType) (values : List String) (v : Value)
    → field_value_error dec t values v ≡ none
    → HasType dec t values v
unfolding field_value_error
error→HasType dec string values (str s) h = (s, refl)
error→HasType dec integer values (num n) h = (n, refl, ground arith)
error→HasType dec float values (num n) h = (n, refl)
error→HasType dec boolean values (bool b) h = (b, refl)
error→HasType dec timestamp values (str s) h = (s, refl, ground arith)
error→HasType dec enum values (str s) h = (s, refl, (mem_iff s values).0 (ground arith))
error→HasType dec strings values (arr xs) h =
    let (ss, e) = strings_error-none xs h in (ss, ap arr e)
error→HasType dec enums values (arr xs) h =
    let (ss, e, a) = enums_error-none values xs h in (ss, ap arr e, a)
error→HasType dec json values v h = tt
error→HasType dec (other t) values v h = cc
error→HasType dec _ values _ h = cc

HasType→error :
    (dec : Decoder) (t : FieldType) (values : List String) (v : Value)
    → HasType dec t values v
    → field_value_error dec t values v ≡ none
unfolding field_value_error
HasType→error dec string values v (s, e) = rw e refl
HasType→error dec integer values v (n, e, w) = rw e (ground arith)
HasType→error dec float values v (n, e) = rw e refl
HasType→error dec boolean values v (b, e) = rw e refl
HasType→error dec timestamp values v (s, e, w) = rw e (ground arith)
HasType→error dec enum values v (s, e, m) = rw (e, (mem_iff s values).1 m) refl
HasType→error dec strings values v (ss, e) = rw e (strings_error-texts ss)
HasType→error dec enums values v (ss, e, a) = rw e (enums_error-texts values ss a)
HasType→error dec json values v h = refl
HasType→error dec (other t) values v h = elim h [ ]

-- A field of a definition: absent or null where it is not required, or a value of its type.
abbrev pub Meets : Decoder → FieldDef → Option Value → Type 0
Meets dec d o =
    (((o ≡ none) ⊎ (o ≡ some null)) × (d.required ≡ false))
    ⊎ ((v : Value) × (o ≡ some v) × (v ≢ null) × HasType dec d.field_type d.values v)

required_error-nil : (d : FieldDef) → required_error d ≡ [] → d.required ≡ false
required_error-nil d h = ground arith

valued :
    (dec : Decoder) (d : FieldDef) (v : Value)
    → v ≢ null
    → value_errors d (validate_field_value dec d v) ≡ []
    → Meets dec d (some v)
unfolding validate_field_value
valued dec d v ne h = inr (v, refl, ne, error→HasType dec d.field_type d.values v (ground arith))

checked→Meets :
    (dec : Decoder) (d : FieldDef) (o : Option Value) → checked dec d o ≡ [] → Meets dec d o
checked→Meets dec d none h = inl (inl refl, required_error-nil d h)
checked→Meets dec d (some null) h = inl (inr refl, required_error-nil d h)
checked→Meets dec d (some (bool b)) h = valued dec d (bool b) (λ e. cc) h
checked→Meets dec d (some (num n)) h = valued dec d (num n) (λ e. cc) h
checked→Meets dec d (some (str s)) h = valued dec d (str s) (λ e. cc) h
checked→Meets dec d (some (arr xs)) h = valued dec d (arr xs) (λ e. cc) h
checked→Meets dec d (some (obj t)) h = valued dec d (obj t) (λ e. cc) h

checked_value :
    (dec : Decoder) (d : FieldDef) (v : Value)
    → v ≢ null
    → field_value_error dec d.field_type d.values v ≡ none
    → checked dec d (some v) ≡ []
unfolding validate_field_value
checked_value dec d null ne h = absurd (ne refl)
checked_value dec d (bool b) ne h = ap (value_errors d) h
checked_value dec d (num n) ne h = ap (value_errors d) h
checked_value dec d (str s) ne h = ap (value_errors d) h
checked_value dec d (arr xs) ne h = ap (value_errors d) h
checked_value dec d (obj t) ne h = ap (value_errors d) h

Meets→checked :
    (dec : Decoder) (d : FieldDef) (o : Option Value) → Meets dec d o → checked dec d o ≡ []
Meets→checked dec d o (inl (inl e, r)) = rw (e, r) refl
Meets→checked dec d o (inl (inr e, r)) = rw (e, r) refl
Meets→checked dec d o (inr (v, e, ne, t)) =
    rw e (checked_value dec d v ne (HasType→error dec d.field_type d.values v t))

check_fields→Meets :
    (dec : Decoder) (m : Dict Value) (defs : List FieldDef)
    → check_fields dec m defs ≡ []
    → All (λ d. Meets dec d (Dict.get d.name m)) defs
unfolding check_fields
check_fields→Meets dec m [] h = tt
check_fields→Meets dec m (d ∷ defs) h =
    let (here, rest) =
      append-eq-nil (checked dec d (Dict.get d.name m)) (check_fields dec m defs) h in
    (checked→Meets dec d (Dict.get d.name m) here, check_fields→Meets dec m defs rest)

Meets→check_fields :
    (dec : Decoder) (m : Dict Value) (defs : List FieldDef)
    → All (λ d. Meets dec d (Dict.get d.name m)) defs
    → check_fields dec m defs ≡ []
unfolding check_fields
Meets→check_fields dec m [] a = refl
Meets→check_fields dec m (d ∷ defs) a =
    rw (Meets→checked dec d (Dict.get d.name m) a.0) (Meets→check_fields dec m defs a.1)

unknown_keys-nil :
    (m : Dict Value) (names : List String) → unknown_keys m names ≡ [] → All (λ e. Elem e.0 names) m
unfolding unknown_keys
unknown_keys-nil [] names h = tt
unknown_keys-nil ((k, v) ∷ m) names h =
    let known : mem k names ≡ true = ground arith in
    ((mem_iff k names).0 known, unknown_keys-nil m names (rw known at h))

known-unknown_keys :
    (m : Dict Value) (names : List String) → All (λ e. Elem e.0 names) m → unknown_keys m names ≡ []
unfolding unknown_keys
known-unknown_keys [] names a = refl
known-unknown_keys ((k, v) ∷ m) names a =
    rw ((mem_iff k names).1 a.0) (known-unknown_keys m names a.1)

first_required-nil :
    (defs : List FieldDef) → first_required defs ≡ [] → All (λ d. d.required ≡ false) defs
unfolding first_required
first_required-nil [] h = tt
first_required-nil (d ∷ defs) h = ground (arith, first_required-nil defs)

none_required :
    (defs : List FieldDef) → All (λ d. d.required ≡ false) defs → first_required defs ≡ []
unfolding first_required
none_required [] a = refl
none_required (d ∷ defs) a = ground (arith, none_required defs a.1)

abbrev pub Conforms : Decoder → String → List FieldDef → Type 0
Conforms dec raw defs =
    ((raw ≡ "") × All (λ d. d.required ≡ false) defs)
    ⊎ ((raw ≢ "")
        × ((m : Dict Value) × (dec.unmarshal raw ≡ some m)
            × All (λ e. Elem e.0 (map (λ d. d.name) defs)) m
            × All (λ d. Meets dec d (Dict.get d.name m)) defs))

validate_fields→Conforms :
    (dec : Decoder) (raw : String) (defs : List FieldDef)
    → validate_fields dec raw defs ≡ []
    → Conforms dec raw defs
unfolding validate_fields
validate_fields→Conforms dec raw defs h = elim (Bool-cases (raw == "")) [
  | inl y ↦ inl ((eq_iff raw "").0 y, first_required-nil defs (rw y at h))
  | inr n ↦ elim (Option-cases (dec.unmarshal raw)) [
    | inl e ↦ absurd (ground arith)
    | inr (m, e) ↦
        let both : unknown_keys m (map (λ d. d.name) defs) ++ check_fields dec m defs ≡ [] =
          ground arith in
        let (keys, fields) =
          append-eq-nil (unknown_keys m (map (λ d. d.name) defs)) (check_fields dec m defs) both in
        inr (
          ground (arith, eq_iff raw ""),
          (m, e, unknown_keys-nil m _ keys, check_fields→Meets dec m defs fields),
        )
  ]
]

Conforms→validate_fields :
    (dec : Decoder) (raw : String) (defs : List FieldDef)
    → Conforms dec raw defs
    → validate_fields dec raw defs ≡ []
unfolding validate_fields
Conforms→validate_fields dec raw defs (inl (e, a)) =
    ground (arith, eq_iff raw "", none_required defs a)
Conforms→validate_fields dec raw defs (inr (ne, (m, e, keys, fields))) = ground (
  arith,
  eq_iff raw "",
  known-unknown_keys m (map (λ d. d.name) defs) keys,
  Meets→check_fields dec m defs fields,
)

-- ValidateFields returns nil exactly where there are no fields and none is required, or the fields
-- are a JSON object in which every key is the name of a definition, and every definition finds a
-- value of its type, or no value or null if the field is not required.
pub validate_fields_iff :
    (dec : Decoder) (raw : String) (defs : List FieldDef)
    → (validate_fields dec raw defs ≡ []) ↔ Conforms dec raw defs
validate_fields_iff dec raw defs =
    (validate_fields→Conforms dec raw defs, Conforms→validate_fields dec raw defs)
