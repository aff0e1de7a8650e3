-- ===== src/Server/Query.antt =====
-- The WHERE clauses and arguments that queryListBeads of internal/store/postgres/queries.go builds from
-- a filter, and what the database makes of them. A placeholder $n is the number n.
use kbeads.Prelude.{
  ℕ, ◌+◌, ◌-◌, String, Bool, true, false, not, ◌&&◌, ◌||◌, List, [], ◌∷◌, ◌++◌, Option, none, some,
  get_elem?, mem, ltb, ◌==◌, if◌then◌else◌,
}
use kbeads.Prelude.Int.{ℤ, lt_int, eq_int}
use kbeads.Prelude.Dict
use kbeads.Prelude.Dict.{Dict}
use kbeads.Model.Bead.{Bead, Dependency}
use kbeads.Server.Store.{Tables, has_label}

pub record BeadFilter : Type 0 where
  pub status : List String
  pub bead_type : List String
  pub exclude_types : List String
  pub kind : List String
  pub priority : Option ℤ
  pub priority_min : Option ℤ
  pub priority_max : Option ℤ
  pub assignee : String
  pub labels : List String
  pub labels_any : List String
  pub search : String
  pub fields : Dict String
  pub no_open_deps : Bool
  pub ids : List String
  pub updated_after : Option ℕ
  pub parent_id : String
  pub sort : String
  pub limit : ℤ
  pub offset : ℤ

-- What is bound to a placeholder.
pub data Arg : Type 0 where
  text : String → Arg
  number : ℤ → Arg
  texts : List String → Arg
  time : ℕ → Arg

-- The texts of the clauses, each with its placeholders.
pub data Clause : Type 0 where
  status_in type_in type_not_in kind_in : List ℕ → Clause
  priority_is priority_from priority_to : ℕ → Clause
  assignee_is label_is label_any id_any updated_since parent_is search_for : ℕ → Clause
  field_is : ℕ → ℕ → Clause
  no_open_dependency : Clause

pub record Query : Type 0 where
  pub clauses : List Clause
  pub args : List Arg
  pub arg_idx : ℕ

-- What the database computes: `title ILIKE '%' || p || '%'`, `fields->>key`, and ORDER BY.
pub record Database : Type 0 where
  pub ilike : String → String → Bool
  pub field_text : String → String → Option String
  pub order_by : String → List Bead → List Bead

abbrev pub add_clause : Clause → Query → Query
add_clause c q = record q { clauses = q.clauses ++ c ∷ [] }

-- One nextArg() with its append to args.
abbrev pub bind_arg : Arg → Query → Query
bind_arg a q = record q { args = q.args ++ a ∷ []; arg_idx = q.arg_idx + 1 }

-- The loop that makes the placeholders of a list.
unfoldable pub bind_each : List String → Query → List ℕ × Query
bind_each [] q = ([], q)
bind_each (x ∷ xs) q =
    let (ns, q1) = bind_each xs (bind_arg (text x) q) in ((q.arg_idx + 1) ∷ ns, q1)

abbrev pub add_list : (List ℕ → Clause) → List String → Query → Query
add_list clause [] q = q
add_list clause (x ∷ xs) q = let (ns, q1) = bind_each (x ∷ xs) q in add_clause (clause ns) q1

abbrev pub add_arg : (ℕ → Clause) → Arg → Query → Query
add_arg clause a q = add_clause (clause (q.arg_idx + 1)) (bind_arg a q)

abbrev pub add_number : (ℕ → Clause) → Option ℤ → Query → Query
add_number clause none q = q
add_number clause (some n) q = add_arg clause (number n) q

abbrev pub add_text : (ℕ → Clause) → String → Query → Query
add_text clause s q = if s == "" then q else add_arg clause (text s) q

abbrev pub add_texts : (ℕ → Clause) → List String → Query → Query
add_texts clause [] q = q
add_texts clause (x ∷ xs) q = add_arg clause (texts (x ∷ xs)) q

abbrev pub add_time : Option ℕ → Query → Query
add_time none q = q
add_time (some t) q = add_arg updated_since (time t) q

unfoldable pub add_labels_each : List String → Query → Query
add_labels_each [] q = q
add_labels_each (l ∷ ls) q = add_labels_each ls (add_arg label_is (text l) q)

-- Both placeholders are taken before the two arguments are appended.
abbrev pub add_field : String → String → Query → Query
add_field key value q =
    add_clause (field_is (q.arg_idx + 1) (q.arg_idx + 1 + 1))
      (bind_arg (text value) (bind_arg (text key) q))

unfoldable pub add_fields : Dict String → Query → Query
add_fields [] q = q
add_fields ((k, v) ∷ m) q = add_fields m (add_field k v q)

abbrev pub add_no_open_deps : Bool → Query → Query
add_no_open_deps false q = q
add_no_open_deps true q = add_clause no_open_dependency q

abbrev pub empty_query : Query
empty_query = record { clauses = []; args = []; arg_idx = 0 }

unfoldable pub build_query : BeadFilter → Query
unfolding bind_each add_labels_each add_fields
build_query f =
    let q1 = add_list status_in f.status empty_query in
    let q2 = add_list type_in f.bead_type q1 in
    let q3 = add_list type_not_in f.exclude_types q2 in
    let q4 = add_list kind_in f.kind q3 in
    let q5 = add_number priority_is f.priority q4 in
    let q6 = add_number priority_from f.priority_min q5 in
    let q7 = add_number priority_to f.priority_max q6 in
    let q8 = add_text assignee_is f.assignee q7 in
    let q9 = add_labels_each f.labels q8 in
    let q10 = add_texts label_any f.labels_any q9 in
    let q11 = add_texts id_any f.ids q10 in
    let q12 = add_time f.updated_after q11 in
    let q13 = add_text parent_is f.parent_id q12 in
    let q14 = add_text search_for f.search q13 in
    let q15 = add_fields f.fields q14 in add_no_open_deps f.no_open_deps q15

-- The database's reading of a placeholder.
abbrev pub Binding : Type 0
Binding = ℕ → Option Arg

abbrev pub bound : List Arg → Binding
bound args n = get_elem? args (n - 1)

abbrev pub text_is : String → Option Arg → Bool
text_is s (some (text x)) = s == x
text_is s _ = false

abbrev pub texts_test : (List String → Bool) → Option Arg → Bool
texts_test p (some (texts xs)) = p xs
texts_test p _ = false

abbrev pub any_text_is : Binding → String → List ℕ → Bool
any_text_is look s [] = false
any_text_is look s (n ∷ ns) = text_is s (look n) || any_text_is look s ns

abbrev pub number_test : (ℤ → Bool) → Option Arg → Bool
number_test p (some (number n)) = p n
number_test p _ = false

abbrev pub time_test : (ℕ → Bool) → Option Arg → Bool
time_test p (some (time t)) = p t
time_test p _ = false

abbrev pub text_test : (String → Bool) → Option Arg → Bool
text_test p (some (text s)) = p s
text_test p _ = false

unfoldable pub some_label : String → List (String × String) → List String → Bool
some_label id rows [] = false
some_label id rows (l ∷ ls) = has_label id l rows || some_label id rows ls

unfoldable pub has_parent : String → String → List Dependency → Bool
has_parent id parent [] = false
has_parent id parent (d ∷ deps) =
    (d.bead_id == id && (d.depends_on_id == parent && d.dep_type == "parent-child"))
    || has_parent id parent deps

abbrev is_open : Option Bead → Bool
is_open none = false
is_open (some b) = mem b.status ("open" ∷ "in_progress" ∷ "deferred" ∷ [])

unfoldable pub has_open_dep : String → Tables → List Dependency → Bool
has_open_dep id t [] = false
has_open_dep id t (d ∷ deps) =
    (d.bead_id == id && is_open (Dict.get d.depends_on_id t.beads)) || has_open_dep id t deps

abbrev pub field_equals : Database → Bead → String → String → Bool
field_equals db b key value = elim (db.field_text b.fields key) [
  | none ↦ false
  | some x ↦ x == value
]

abbrev pub field_test : Database → Bead → Option Arg → Option Arg → Bool
field_test db b (some (text key)) (some (text value)) = field_equals db b key value
field_test db b _ _ = false

module _ (db : Database) (t : Tables) (b : Bead) where
  unfoldable pub holds : Binding → Clause → Bool
  unfolding some_label has_parent has_open_dep
  holds look (status_in ns) = any_text_is look b.status ns
  holds look (type_in ns) = any_text_is look b.bead_type ns
  holds look (type_not_in ns) = not (any_text_is look b.bead_type ns)
  holds look (kind_in ns) = any_text_is look b.kind ns
  holds look (priority_is n) = number_test (λ p. eq_int b.priority p) (look n)
  holds look (priority_from n) = number_test (λ p. not (lt_int b.priority p)) (look n)
  holds look (priority_to n) = number_test (λ p. not (lt_int p b.priority)) (look n)
  holds look (assignee_is n) = text_is b.assignee (look n)
  holds look (label_is n) = text_test (λ l. has_label b.id l t.labels) (look n)
  holds look (label_any n) = texts_test (λ ls. some_label b.id t.labels ls) (look n)
  holds look (id_any n) = texts_test (λ ids. mem b.id ids) (look n)
  holds look (updated_since n) = time_test (λ x. ltb x b.updated_at) (look n)
  holds look (parent_is n) = text_test (λ p. has_parent b.id p t.deps) (look n)
  holds look (search_for n) =
      text_test (λ s. db.ilike b.title s || db.ilike b.description s) (look n)
  holds look (field_is k v) = field_test db b (look k) (look v)
  holds look no_open_dependency = not (has_open_dep b.id t t.deps)

  -- The clauses are joined by AND; without any, all rows are taken.
  unfoldable pub all_hold : Binding → List Clause → Bool
  unfolding holds
  all_hold look [] = true
  all_hold look (c ∷ cs) = holds look c && all_hold look cs
