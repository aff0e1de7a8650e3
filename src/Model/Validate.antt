-- ===== src/Model/Validate.antt =====
-- ValidateBead of internal/model/validate.go, and what it accepts.
use kbeads.Prelude.{
  ℕ, ◌≤◌, String, Bool, true, false, not, ◌&&◌, ◌||◌, List, [], ◌∷◌, ◌++◌, Option, none, some, ltb,
  ◌==◌, eq_iff, if◌then◌else◌, ◌≡◌, ◌≢◌, ◌⊎◌, ◌↔◌, refl, arith, Elem, mem_iff,
}
use kbeads.Prelude.Int.{ℤ, pos, negsuc, lt_int}
use kbeads.Prelude.Text.{trim_space, rune_count}
use kbeads.Model.Bead.{Bead, statuses, kinds, is_valid_status, is_valid_kind}

-- A message, with the argument of its format where it has one.
pub data Message : Type 0 where
  plain : String → Message
  priority_range : ℤ → Message
  invalid_value : String → Message
  one_of : List String → Message
  element_one_of : String → List String → Message

pub record FieldError : Type 0 where
  pub field : String
  pub message : Message

-- `if test { ve.Errors = append(ve.Errors, ...) }`
abbrev pub error_if : Bool → String → Message → List FieldError
error_if test field message = if test then record { field = field; message = message } ∷ [] else []

abbrev pub is_set {ℓ} : {A : Type ℓ} → Option A → Bool
is_set none = false
is_set (some a) = true

abbrev title_errors : String → List FieldError
title_errors title =
    if title == ""
    then record { field = "title"; message = plain "is required" } ∷ []
    else error_if (ltb 500 (rune_count title)) "title" (plain "must be 500 characters or fewer")

-- `json_valid` is json.Valid; no error at all is Go's nil.
unfoldable pub validate_bead : (String → Bool) → Bead → List FieldError
validate_bead json_valid b =
    title_errors (trim_space b.title)
    ++ (error_if (lt_int b.priority (pos 0) || lt_int (pos 4) b.priority) "priority"
          (priority_range b.priority)
        ++ (error_if (not (is_valid_status b.status)) "status" (invalid_value b.status)
            ++ (error_if (trim_space b.bead_type == "") "type" (plain "is required")
                ++ (error_if (not (is_valid_kind b.kind)) "kind" (invalid_value b.kind)
                    ++ (error_if (b.status == "closed" && not (is_set b.closed_at)) "closed_at"
                          (plain "is required when status is closed")
                        ++ (error_if (not (b.status == "closed") && is_set b.closed_at) "closed_at"
                              (plain "must be nil when status is not closed")
                            ++ error_if (not (b.fields == "") && not (json_valid b.fields)) "fields"
                                (plain "contains invalid JSON")))))))

-- The rules for a bead, each stated on its own.
pub record IsValid (json_valid : String → Bool) (b : Bead) : Type 0 where
  pub titled : trim_space b.title ≢ ""
  pub title_fits : rune_count (trim_space b.title) ≤ 500
  pub priority_fits : (n : ℕ) × (b.priority ≡ pos n) × (n ≤ 4)
  pub known_status : Elem b.status statuses
  pub typed : trim_space b.bead_type ≢ ""
  pub known_kind : Elem b.kind kinds
  pub closing : (b.status ≡ "closed") ↔ (is_set b.closed_at ≡ true)
  pub fields_json : (b.fields ≡ "") ⊎ (json_valid b.fields ≡ true)

pub append-eq-nil : {A : Type 0} (xs ys : List A) → xs ++ ys ≡ [] → (xs ≡ []) × (ys ≡ [])
append-eq-nil [] ys h = (refl, h)
append-eq-nil (x ∷ xs) ys h = cc

priority_ok :
    (p : ℤ) → (lt_int p (pos 0) || lt_int (pos 4) p) ≡ false → (n : ℕ) × (p ≡ pos n) × (n ≤ 4)
priority_ok (pos n) h = (n, refl, ground arith)
priority_ok (negsuc n) h = absurd (ground arith)

error_if-nil : (t : Bool) (field : String) (m : Message) → error_if t field m ≡ [] → t ≡ false
error_if-nil t field m h = ground arith

title_errors-nil :
    (title : String) → title_errors title ≡ [] → (title ≢ "") × (rune_count title ≤ 500)
title_errors-nil title h = ground (arith, eq_iff title "")

closing_of :
    (s : String) (o : Option ℕ)
    → (s == "closed" && not (is_set o)) ≡ false
    → (not (s == "closed") && is_set o) ≡ false
    → (s ≡ "closed") ↔ (is_set o ≡ true)
closing_of s o h k =
    (λ e. ground (arith, eq_iff s "closed"), λ e. ground (arith, eq_iff s "closed"))

fields_ok :
    (json_valid : String → Bool) (raw : String)
    → (not (raw == "") && not (json_valid raw)) ≡ false
    → (raw ≡ "") ⊎ (json_valid raw ≡ true)
fields_ok json_valid raw h = ground (arith, eq_iff raw "")

validate_bead→IsValid :
    (json_valid : String → Bool) (b : Bead) → validate_bead json_valid b ≡ [] → IsValid json_valid b
unfolding validate_bead is_valid_status is_valid_kind
validate_bead→IsValid json_valid b h =
    let (title, h1) = append-eq-nil (title_errors (trim_space b.title)) _ h in
    let (priority, h2) =
      append-eq-nil
        (error_if (lt_int b.priority (pos 0) || lt_int (pos 4) b.priority) "priority"
          (priority_range b.priority))
        _ h1 in
    let (status, h3) =
      append-eq-nil (error_if (not (is_valid_status b.status)) "status" (invalid_value b.status)) _
        h2 in
    let (type, h4) =
      append-eq-nil (error_if (trim_space b.bead_type == "") "type" (plain "is required")) _ h3 in
    let (kind, h5) =
      append-eq-nil (error_if (not (is_valid_kind b.kind)) "kind" (invalid_value b.kind)) _ h4 in
    let (closed, h6) =
      append-eq-nil
        (error_if (b.status == "closed" && not (is_set b.closed_at)) "closed_at"
          (plain "is required when status is closed"))
        _ h5 in
    let (open_set, fields) =
      append-eq-nil
        (error_if (not (b.status == "closed") && is_set b.closed_at) "closed_at"
          (plain "must be nil when status is not closed"))
        _ h6 in
    record {
      titled = (title_errors-nil _ title).0;
      title_fits = (title_errors-nil _ title).1;
      priority_fits = priority_ok b.priority (error_if-nil _ _ _ priority);
      known_status = (mem_iff b.status statuses).0 (ground (arith, error_if-nil _ _ _ status));
      typed = ground (arith, error_if-nil _ _ _ type, eq_iff (trim_space b.bead_type) "");
      known_kind = (mem_iff b.kind kinds).0 (ground (arith, error_if-nil _ _ _ kind));
      closing =
          closing_of b.status b.closed_at (error_if-nil _ _ _ closed) (error_if-nil _ _ _ open_set);
      fields_json = fields_ok json_valid b.fields (error_if-nil _ _ _ fields);
    }

IsValid→validate_bead :
    (json_valid : String → Bool) (b : Bead) → IsValid json_valid b → validate_bead json_valid b ≡ []
IsValid→validate_bead json_valid b v =
    let (n, e, le) = v.priority_fits in
    let title : title_errors (trim_space b.title) ≡ [] =
      ground (arith, v.titled, v.title_fits, eq_iff (trim_space b.title) "") in
    let priority : (lt_int b.priority (pos 0) || lt_int (pos 4) b.priority) ≡ false =
      rw e (ground arith) in
    let status : is_valid_status b.status ≡ true =
      unfold is_valid_status in (mem_iff b.status statuses).1 v.known_status in
    let kind : is_valid_kind b.kind ≡ true =
      unfold is_valid_kind in (mem_iff b.kind kinds).1 v.known_kind in
    let type : (trim_space b.bead_type == "") ≡ false =
      ground (arith, v.typed, eq_iff (trim_space b.bead_type) "") in
    let closed : (b.status == "closed" && not (is_set b.closed_at)) ≡ false =
      ground (arith, eq_iff b.status "closed", v.closing.0) in
    let left_open : (not (b.status == "closed") && is_set b.closed_at) ≡ false =
      ground (arith, eq_iff b.status "closed", v.closing.1) in
    let fields : (not (b.fields == "") && not (json_valid b.fields)) ≡ false =
      ground (arith, eq_iff b.fields "", v.fields_json) in
    unfold validate_bead in simp (title, priority, status, type, kind, closed, left_open, fields)

-- ValidateBead returns nil exactly for the beads that meet every rule: a title with one to 500
-- characters behind the trimming, a priority from 0 to 4, a known status and kind, a type that is
-- not blank, a closing time exactly while the status is closed, and fields that are empty or JSON.
pub validate_bead_iff :
    (json_valid : String → Bool) (b : Bead)
    → (validate_bead json_valid b ≡ []) ↔ IsValid json_valid b
validate_bead_iff json_valid b =
    (validate_bead→IsValid json_valid b, IsValid→validate_bead json_valid b)
