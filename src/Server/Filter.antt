-- ===== src/Server/Filter.antt =====
-- What the filters of queryListBeads (internal/store/postgres/queries.go) take, said directly.
use kbeads.Prelude.{
  ℕ, String, Bool, true, not, ◌&&◌, ◌||◌, List, [], ◌∷◌, Option, none, some, mem, ltb, ◌==◌,
  if◌then◌else◌,
}
use kbeads.Prelude.Int.{ℤ, lt_int, eq_int}
use kbeads.Prelude.Dict.{Dict}
use kbeads.Model.Bead.{Bead}
use kbeads.Server.Store.{Tables, has_label}
use kbeads.Server.Query.{BeadFilter, Database, some_label, has_parent, has_open_dep, field_equals}

-- No condition when the filter is empty.
abbrev pub when_list : (Bool → Bool) → String → List String → Bool
when_list p s [] = true
when_list p s (x ∷ xs) = p (mem s (x ∷ xs))

abbrev pub one_of : String → List String → Bool
one_of s xs = when_list (λ m. m) s xs

abbrev pub when_number : (ℤ → Bool) → Option ℤ → Bool
when_number p none = true
when_number p (some n) = p n

abbrev pub when_text : (String → Bool) → String → Bool
when_text p s = if s == "" then true else p s

abbrev pub when_texts : (List String → Bool) → List String → Bool
when_texts p [] = true
when_texts p (x ∷ xs) = p (x ∷ xs)

abbrev pub when_time : (ℕ → Bool) → Option ℕ → Bool
when_time p none = true
when_time p (some n) = p n

abbrev pub every_label : String → List (String × String) → List String → Bool
every_label id rows [] = true
every_label id rows (l ∷ ls) = has_label id l rows && every_label id rows ls

abbrev pub every_field : Database → Bead → Dict String → Bool
every_field db b [] = true
every_field db b ((k, v) ∷ m) = field_equals db b k v && every_field db b m

unfoldable pub takes : Database → Tables → BeadFilter → Bead → Bool
takes db t f b =
    one_of b.status f.status
    && one_of b.bead_type f.bead_type
    && when_list not b.bead_type f.exclude_types
    && one_of b.kind f.kind
    && when_number (λ p. eq_int b.priority p) f.priority
    && when_number (λ p. not (lt_int b.priority p)) f.priority_min
    && when_number (λ p. not (lt_int p b.priority)) f.priority_max
    && when_text (λ s. b.assignee == s) f.assignee
    && every_label b.id t.labels f.labels
    && when_texts (λ ls. some_label b.id t.labels ls) f.labels_any
    && when_texts (λ ids. mem b.id ids) f.ids
    && when_time (λ x. ltb x b.updated_at) f.updated_after
    && when_text (λ p. has_parent b.id p t.deps) f.parent_id
    && when_text (λ s. db.ilike b.title s || db.ilike b.description s) f.search
    && every_field db b f.fields
    && (if f.no_open_deps then not (has_open_dep b.id t t.deps) else true)
