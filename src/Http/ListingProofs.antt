-- ===== src/Http/ListingProofs.antt =====
-- The filter that the server decodes is the one that the client was asked for.
use kbeads.Prelude.{
  String, Bool, true, false, List, [], ◌∷◌, Option, none, some, map, ◌==◌, if◌then◌else◌, ◌≡◌, ◌≢◌,
  inl, inr, refl, sym, ap, ◌∙◌, eq_iff, Bool-cases, All,
}
use kbeads.Prelude.Int.{ℤ, pos, lt_int}
use kbeads.Prelude.Decimal.{format, IsInt, atoi-format, format-named}
use kbeads.Prelude.Separated.{join, lacks, split-join, cut-append, join-named}
use kbeads.Prelude.Dict
use kbeads.Prelude.Dict.{Dict, Distinct, get-put}
use kbeads.Server.Query.{BeadFilter}
use kbeads.Http.Listing.{
  ListRequest, joined, unless_empty, formatted, when_positive, assignment, client_query, first,
  list_at, put_cut, number_at, or_zero, fields_of, http_filter,
}

-- Texts that a list separated by commas can carry.
abbrev AllPlain : List String → Type 0
AllPlain xs = All (λ s. (s ≢ "") × (lacks b',' s ≡ true)) xs

not_empty : (s : String) → s ≢ "" → s == "" ≡ false
not_empty s n = elim (Bool-cases (s == "")) [ inl y ↦ absurd (n ((eq_iff s "").0 y)) | inr m ↦ m ]

lacking : (xs : List String) → AllPlain xs → All (λ s. lacks b',' s ≡ true) xs
lacking [] a = tt
lacking (x ∷ xs) a = (a.0.1, lacking xs a.1)

list_at-joined : (xs : List String) → AllPlain xs → list_at (first (joined xs)) ≡ xs
list_at-joined [] a = refl
list_at-joined (x ∷ xs) a =
    rw (not_empty (join (x ∷ xs)) (join-named x xs a.0.0)) (split-join x xs (lacking (x ∷ xs) a))

first-unless_empty : (s : String) → first (unless_empty s) ≡ s
first-unless_empty s = elim (Bool-cases (s == "")) [
  | inl y ↦ rw y (sym ((eq_iff s "").0 y))
  | inr n ↦ rw n refl
]

abbrev FitsInt : Option ℤ → Type 0
FitsInt none = Unit
FitsInt (some n) = IsInt n

number_at-formatted : (o : Option ℤ) → FitsInt o → number_at (first (formatted o)) ≡ o
number_at-formatted none h = refl
number_at-formatted (some n) h = rw (not_empty (format n) (format-named n)) (atoi-format n h)

when_positive-FitsInt : (n : ℤ) → IsInt n → FitsInt (when_positive n)
when_positive-FitsInt n h = elim (Bool-cases (lt_int (pos 0) n)) [
  | inl y ↦ rw y h
  | inr m ↦ rw m tt
]

flag_lem : (c : Bool) → (first (if c then "true" ∷ [] else []) == "true") ≡ c
flag_lem true = refl
flag_lem false = refl

abbrev or_get : Option String → Option String → Option String
or_get none o = o
or_get (some v) o = some v

get-fields_of :
    (j : String) (fs m : Dict String)
    → Distinct fs
    → All (λ f. lacks b'=' f.0 ≡ true) fs
    → Dict.get j (fields_of (map assignment fs) m) ≡ or_get (Dict.get j fs) (Dict.get j m)
unfolding Dict.get
get-fields_of j [] m d a = refl
get-fields_of j ((k, v) ∷ fs) m d a =
    let rest = get-fields_of j fs (Dict.put k v m) d.1 a.1 in
    ap (λ c. Dict.get j (fields_of (map assignment fs) (put_cut c m))) (cut-append k v a.0)
    ∙ (rest ∙ elim (Bool-cases (k == j)) [
      | inl y ↦
          let gone = ap (λ x. Dict.get x fs) (sym ((eq_iff k j).0 y)) ∙ d.0 in
          rw (gone, get-put k j v m, y) refl
      | inr n ↦ rw (get-put k j v m, n) refl
    ])

-- What the client can say: lists of texts without commas that are not empty, numbers of 64 bits, and
-- field names without an equals sign.
pub record IsSendable (req : ListRequest) : Type 0 where
  pub status : AllPlain req.status
  pub bead_type : AllPlain req.bead_type
  pub kind : AllPlain req.kind
  pub labels : AllPlain req.labels
  pub priority : FitsInt req.priority
  pub limit : IsInt req.limit
  pub offset : IsInt req.offset
  pub keys : Distinct req.field_filters
  pub names : All (λ f. lacks b'=' f.0 ≡ true) req.field_filters

-- The filter of a request, but for its fields; a limit or an offset that is not positive is none.
abbrev pub wanted : ListRequest → BeadFilter
wanted req = record {
  status = req.status;
  bead_type = req.bead_type;
  exclude_types = [];
  kind = req.kind;
  priority = req.priority;
  priority_min = none;
  priority_max = none;
  assignee = req.assignee;
  labels = req.labels;
  labels_any = [];
  search = req.search;
  fields = [];
  no_open_deps = req.no_open_deps;
  ids = [];
  updated_after = none;
  parent_id = "";
  sort = req.sort;
  limit = or_zero (when_positive req.limit);
  offset = or_zero (when_positive req.offset);
}

or_get-none : (o : Option String) → or_get o none ≡ o
or_get-none none = refl
or_get-none (some v) = refl

-- For a request whose listed texts are not empty and have no comma, whose numbers fit into 64 bits, and
-- whose field names are distinct and have no equals sign: the filter that the server reads from the
-- parameters that the client sends is the filter asked for, where a limit or an offset that is not
-- positive is 0, and has for each field the value asked for.
pub http_filter-client_query :
    (req : ListRequest)
    → IsSendable req
    → let f = http_filter (client_query req) in
      (record f { fields = [] } ≡ wanted req)
      × ((k : String) → Dict.get k f.fields ≡ Dict.get k req.field_filters)
unfolding http_filter client_query Dict.get
http_filter-client_query req s = (
  rw
      (
        list_at-joined req.status s.status,
        list_at-joined req.bead_type s.bead_type,
        list_at-joined req.kind s.kind,
        list_at-joined req.labels s.labels,
        first-unless_empty req.assignee,
        first-unless_empty req.search,
        first-unless_empty req.sort,
        number_at-formatted req.priority s.priority,
        flag_lem req.no_open_deps,
        number_at-formatted (when_positive req.limit) (when_positive-FitsInt req.limit s.limit),
        number_at-formatted (when_positive req.offset) (when_positive-FitsInt req.offset s.offset),
      )
      refl,
  λ k.
      get-fields_of k req.field_filters [] s.keys s.names
      ∙ or_get-none (Dict.get k req.field_filters),
)
