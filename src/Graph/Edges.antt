-- ===== src/Graph/Edges.antt =====
-- The first half of handleGraph in internal/server/http_graph.go, from the batch queries to the edges,
-- parents and nodes. A map that comes back of a query is an association list in the order in which Go
-- ranges over it; what stands in them is a parameter.
use kbeads.Prelude.{
  ℕ, String, Bool, true, false, ◌&&◌, List, [], ◌∷◌, ◌++◌, Option, none, some, map, keep, mem, ◌==◌,
  if◌then◌else◌,
}
use kbeads.Prelude.Text.{append}
use kbeads.Prelude.Dict
use kbeads.Prelude.Dict.{Dict}
use kbeads.Model.Bead.{Bead, Dependency}
use kbeads.Presence.Roster.{Entry}
use kbeads.Graph.Prune.{GraphNode, GraphEdge, assemble, parent_or_empty}

-- fmt.Sprintf("%s->%s:%s", ...)
abbrev pub edge_key : GraphEdge → String
edge_key e = append e.source (append "->" (append e.target (append ":" e.edge_type)))

-- The edges so far with their keys, and the beads to fetch.
pub record Found : Type 0 where
  pub edges : List GraphEdge
  pub seen : List String
  pub missing : List String

abbrev pub is_absent : Option Bead → Bool
is_absent none = true
is_absent (some b) = false

-- One dependency, whose end `far` may be a bead that was not listed.
unfoldable pub add_edge : Bool → Dict Bead → String → GraphEdge → Found → Found
add_edge include_deps beads far e found = if mem (edge_key e) found.seen then found else record {
  edges = found.edges ++ e ∷ [];
  seen = edge_key e ∷ found.seen;
  missing =
      if include_deps && is_absent (Dict.get far beads) then far ∷ found.missing else found.missing;
}

module _ (include_deps : Bool) (beads : Dict Bead) where
  unfoldable pub forward_edges : String → List Dependency → Found → Found
  unfolding add_edge
  forward_edges id [] found = found
  forward_edges id (d ∷ deps) found =
      let e : GraphEdge = record {
        source = id;
        target = d.depends_on_id;
        edge_type = d.dep_type;
      } in
      forward_edges id deps (add_edge include_deps beads d.depends_on_id e found)

  unfoldable pub all_forward : Dict (List Dependency) → Found → Found
  unfolding forward_edges
  all_forward [] found = found
  all_forward ((id, deps) ∷ records) found = all_forward records (forward_edges id deps found)

  unfoldable pub reverse_edges : List Dependency → Found → Found
  unfolding add_edge
  reverse_edges [] found = found
  reverse_edges (d ∷ deps) found =
      let e : GraphEdge = record {
        source = d.bead_id;
        target = d.depends_on_id;
        edge_type = d.dep_type;
      } in
      reverse_edges deps (add_edge include_deps beads d.bead_id e found)

  unfoldable pub all_reverse : Dict (List Dependency) → Found → Found
  unfolding reverse_edges
  all_reverse [] found = found
  all_reverse ((id, deps) ∷ records) found = all_reverse records (reverse_edges deps found)

abbrev pub nothing_found : Found
nothing_found = record { edges = []; seen = []; missing = [] }

-- Both loops; without the reverse records their query failed.
unfoldable pub found_edges :
    Bool → Dict Bead → Dict (List Dependency) → Option (Dict (List Dependency)) → Found
unfolding all_forward all_reverse
found_edges include_deps beads forward none = all_forward include_deps beads forward nothing_found
found_edges include_deps beads forward (some reverse) =
    all_reverse include_deps beads reverse (all_forward include_deps beads forward nothing_found)

-- The beads that were fetched, but for the excluded types.
unfoldable pub with_fetched : List String → List Bead → Dict Bead → Dict Bead
with_fetched exclude [] beads = beads
with_fetched exclude (b ∷ fetched) beads =
    with_fetched exclude fetched (if mem b.bead_type exclude then beads else Dict.put b.id b beads)

unfoldable pub own_parents : String → List Dependency → Dict String → Dict String
own_parents id [] parents = parents
own_parents id (d ∷ deps) parents =
    own_parents id deps
      (if d.dep_type == "parent-child" then Dict.put id d.depends_on_id parents else parents)

unfoldable pub all_parents : Dict (List Dependency) → Dict String → Dict String
unfolding own_parents
all_parents [] parents = parents
all_parents ((id, deps) ∷ records) parents = all_parents records (own_parents id deps parents)

unfoldable pub reverse_parents : List Dependency → Dict String → Dict String
reverse_parents [] parents = parents
reverse_parents (d ∷ deps) parents =
    reverse_parents deps
      (if d.dep_type == "parent-child" then Dict.put d.bead_id d.depends_on_id parents else parents)

unfoldable pub all_reverse_parents : Dict (List Dependency) → Dict String → Dict String
unfolding reverse_parents
all_reverse_parents [] parents = parents
all_reverse_parents ((id, deps) ∷ records) parents =
    all_reverse_parents records (reverse_parents deps parents)

abbrev is_epic : Option Bead → Bool
is_epic none = false
is_epic (some b) = b.bead_type == "epic"

-- The first blocks dependency on an epic.
unfoldable pub epic_of : Dict Bead → List Dependency → Option String
epic_of beads [] = none
epic_of beads (d ∷ deps) =
    if d.dep_type == "blocks" && is_epic (Dict.get d.depends_on_id beads)
    then some d.depends_on_id
    else epic_of beads deps

abbrev infer_parent : Option String → Option String → String → Dict String → Dict String
infer_parent (some p) epic id parents = parents
infer_parent none none id parents = parents
infer_parent none (some p) id parents = Dict.put id p parents

unfoldable pub inferred_parents : Dict Bead → Dict (List Dependency) → Dict String → Dict String
unfolding epic_of
inferred_parents beads [] parents = parents
inferred_parents beads ((id, deps) ∷ records) parents =
    inferred_parents beads records
      (infer_parent (Dict.get id parents) (epic_of beads deps) id parents)

abbrev pub records_or_empty : Option (Dict (List Dependency)) → Dict (List Dependency)
records_or_empty none = []
records_or_empty (some records) = records

unfoldable pub parents_of :
    Dict Bead → Dict (List Dependency) → Option (Dict (List Dependency)) → Dict String
unfolding all_parents all_reverse_parents inferred_parents
parents_of beads forward reverse =
    inferred_parents beads forward
      (all_reverse_parents (records_or_empty reverse) (all_parents forward []))

abbrev list_or_empty : Option (List String) → List String
list_or_empty none = []
list_or_empty (some xs) = xs

-- What the handler has when its queries are back. `fetch` is GetBeadsByIDs, which gives nothing where it
-- fails; the empty maps of labels and blockers stand for queries that failed.
pub record Batch : Type 0 where
  pub listed : Dict Bead
  pub forward : Dict (List Dependency)
  pub reverse : Option (Dict (List Dependency))
  pub labels : Dict (List String)
  pub blocked : Dict (List String)
  pub counts : Dict (ℕ × ℕ)
  pub fetch : List String → List Bead
  pub roster : List Entry

pub record GraphArgs : Type 0 where
  pub exclude_types : List String
  pub include_deps : Bool
  pub include_connected_closed : Bool
  pub include_agents : Bool
  pub include_body : Bool
  pub is_recent : Bead → Bool  -- within MaxAgeDays, or without such a limit

abbrev pub ends_absent : Dict Bead → List GraphEdge → List String
ends_absent beads [] = []
ends_absent beads (e ∷ edges) =
    let rest = ends_absent beads edges in
    let rest1 = if is_absent (Dict.get e.target beads) then e.target ∷ rest else rest in
    if is_absent (Dict.get e.source beads) then e.source ∷ rest1 else rest1

abbrev count_or_zero : Option (ℕ × ℕ) → ℕ × ℕ
count_or_zero none = (0, 0)
count_or_zero (some counts) = counts

unfoldable pub node_of : Bool → Batch → Dict String → Bead → GraphNode
node_of include_body batch parents b = record {
  id = b.id;
  title = b.title;
  status = b.status;
  issue_type = b.bead_type;
  parent_id = parent_or_empty (Dict.get b.id parents);
  assignee = b.assignee;
  priority = b.priority;
  labels = list_or_empty (Dict.get b.id batch.labels);
  blocked_by = list_or_empty (Dict.get b.id batch.blocked);
  created_at = b.created_at;
  updated_at = b.updated_at;
  description = if include_body then b.description else "";
  notes = if include_body then b.notes else "";
  dep_count = (count_or_zero (Dict.get b.id batch.counts)).0;
  dep_by_count = (count_or_zero (Dict.get b.id batch.counts)).1;
}

-- Nothing is asked for when there is nothing to fetch.
abbrev pub fetched : Batch → List String → List Bead
fetched batch [] = []
fetched batch (id ∷ ids) = batch.fetch (id ∷ ids)

abbrev is_recent_closed : GraphArgs → Bead → Bool
is_recent_closed args b = b.status == "closed" && args.is_recent b

-- The closed beads at the ends of edges; every forward dependency is an edge by now.
unfoldable pub with_closed : Bool → GraphArgs → Batch → List GraphEdge → Dict Bead → Dict Bead
unfolding with_fetched
with_closed false args batch edges beads = beads
with_closed true args batch edges beads =
    with_fetched args.exclude_types
      (keep (is_recent_closed args) (fetched batch (ends_absent beads edges))) beads

unfoldable pub found_of : GraphArgs → Batch → Found
unfolding found_edges
found_of args batch = found_edges args.include_deps batch.listed batch.forward batch.reverse

unfoldable pub beads_of : GraphArgs → Batch → Dict Bead
unfolding found_of with_fetched with_closed
beads_of args batch =
    let found = found_of args batch in
    with_closed args.include_connected_closed args batch found.edges
      (with_fetched args.exclude_types (fetched batch found.missing) batch.listed)

abbrev pub rows_of : Dict Bead → List Bead
rows_of beads = map (λ r. r.1) beads

unfoldable pub nodes_of : Bool → Batch → Dict String → List Bead → List GraphNode
unfolding node_of
nodes_of include_body batch parents beads = map (node_of include_body batch parents) beads

-- The nodes and edges of the answer.
unfoldable pub answer_graph : GraphArgs → Batch → List GraphNode × List GraphEdge
unfolding found_of beads_of parents_of nodes_of
answer_graph args batch =
    let beads = beads_of args batch in
    let parents = parents_of beads batch.forward batch.reverse in
    assemble args.include_agents batch.roster (rows_of beads) parents
      (nodes_of args.include_body batch parents (rows_of beads)) (found_of args batch).edges
