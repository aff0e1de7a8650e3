-- ===== src/Http/Listing.antt =====
-- Listing over HTTP: handleListBeads of internal/server/http_beads.go, and the query parameters that
-- ListBeads of internal/client/http.go sends it.
use kbeads.Prelude.{String, Bool, List, [], ◌∷◌, Option, none, some, map, ◌==◌, if◌then◌else◌}
use kbeads.Prelude.Int.{ℤ, pos, lt_int}
use kbeads.Prelude.Text.{append, split}
use kbeads.Prelude.Decimal.{format, atoi}
use kbeads.Prelude.Separated.{join, cut}
use kbeads.Prelude.Dict
use kbeads.Prelude.Dict.{Dict}
use kbeads.Server.Actions.{World}
use kbeads.Server.Beads.{Env}
use kbeads.Server.Query.{BeadFilter, Database}
use kbeads.Server.ListBeads.{list_beads}
use kbeads.Http.Replies.{Response, page, after, server_error}

-- url.Values; a key without values is one that was not set. What is encoded into a URL is decoded from it.
abbrev pub Values : Type 0
Values = Dict (List String)

-- The client's request.
pub record ListRequest : Type 0 where
  pub status : List String
  pub bead_type : List String
  pub kind : List String
  pub labels : List String
  pub assignee : String
  pub search : String
  pub sort : String
  pub priority : Option ℤ
  pub no_open_deps : Bool
  pub limit : ℤ
  pub offset : ℤ
  pub field_filters : Dict String

abbrev pub joined : List String → List String
joined [] = []
joined (x ∷ xs) = join (x ∷ xs) ∷ []

abbrev pub unless_empty : String → List String
unless_empty s = if s == "" then [] else s ∷ []

abbrev pub formatted : Option ℤ → List String
formatted none = []
formatted (some n) = format n ∷ []

abbrev pub when_positive : ℤ → Option ℤ
when_positive n = if lt_int (pos 0) n then some n else none

abbrev pub assignment : String × String → String
assignment (k, v) = append k (String.◌∷◌ "=" v)

unfoldable pub client_query : ListRequest → Values
client_query req =
    ("status", joined req.status)
    ∷ ("type", joined req.bead_type)
    ∷ ("kind", joined req.kind)
    ∷ ("labels", joined req.labels)
    ∷ ("assignee", unless_empty req.assignee)
    ∷ ("search", unless_empty req.search)
    ∷ ("sort", unless_empty req.sort)
    ∷ ("priority", formatted req.priority)
    ∷ ("no_open_deps", if req.no_open_deps then "true" ∷ [] else [])
    ∷ ("limit", formatted (when_positive req.limit))
    ∷ ("offset", formatted (when_positive req.offset))
    ∷ ("field", map assignment req.field_filters)
    ∷ []

abbrev pub values_at : Option (List String) → List String
values_at none = []
values_at (some vs) = vs

abbrev pub first : List String → String
first [] = ""
first (v ∷ vs) = v

-- q.Get(key)
abbrev pub value : String → Values → String
value key q = first (values_at (Dict.get key q))

abbrev pub list_at : String → List String
list_at v = if v == "" then [] else split b',' v

-- A text that is no number is passed over.
abbrev pub number_at : String → Option ℤ
number_at v = if v == "" then none else atoi v

abbrev pub or_zero : Option ℤ → ℤ
or_zero none = pos 0
or_zero (some n) = n

abbrev pub put_cut : Option (String × String) → Dict String → Dict String
put_cut none m = m
put_cut (some (k, v)) m = Dict.put k v m

abbrev pub fields_of : List String → Dict String → Dict String
fields_of [] m = m
fields_of (f ∷ fs) m = fields_of fs (put_cut (cut f) m)

unfoldable pub http_filter : Values → BeadFilter
http_filter q = record {
  status = list_at (value "status" q);
  bead_type = list_at (value "type" q);
  exclude_types = [];
  kind = list_at (value "kind" q);
  priority = number_at (value "priority" q);
  priority_min = none;
  priority_max = none;
  assignee = value "assignee" q;
  labels = list_at (value "labels" q);
  labels_any = [];
  search = value "search" q;
  fields = fields_of (values_at (Dict.get "field" q)) [];
  no_open_deps = value "no_open_deps" q == "true";
  ids = [];
  updated_after = none;
  parent_id = "";
  sort = value "sort" q;
  limit = or_zero (number_at (value "limit" q));
  offset = or_zero (number_at (value "offset" q));
}

unfoldable pub handle_list_beads : Database → Env → Values → World → Response × World
unfolding http_filter
handle_list_beads db env q w =
    after server_error (λ r v. ((200, page r.0 r.1), v))
      (list_beads db env.links.faults (http_filter q) w)
