-- ===== src/Graph/Prune.antt =====
-- The second half of handleGraph in internal/server/http_graph.go, from the edges and parents to the
-- answer. Sets and maps from ids are lists of ids and association lists; the order of the nodes is that
-- in which Go ranges over its maps.
use kbeads.Prelude.{
  String, Bool, true, false, not, ◌&&◌, ◌||◌, List, [], ◌∷◌, ◌++◌, Option, none, some, map, keep,
  mem, ◌==◌, if◌then◌else◌, ℕ, ltb,
}
use kbeads.Prelude.Int.{ℤ}
use kbeads.Prelude.Text.{append}
use kbeads.Prelude.Dict
use kbeads.Prelude.Dict.{Dict}
use kbeads.Model.Bead.{Bead}
use kbeads.Presence.Roster.{Entry}

-- A time is not formatted.
pub record GraphNode : Type 0 where
  pub id : String
  pub title : String
  pub status : String
  pub issue_type : String
  pub parent_id : String
  pub assignee : String
  pub priority : ℤ
  pub labels : List String
  pub blocked_by : List String
  pub created_at : ℕ
  pub updated_at : ℕ
  pub description : String
  pub notes : String
  pub dep_count : ℕ
  pub dep_by_count : ℕ

pub record GraphEdge : Type 0 where
  pub source : String
  pub target : String
  pub edge_type : String

-- parentOf[id], with the zero value for a missing key.
abbrev pub parent_or_empty : Option String → String
parent_or_empty none = ""
parent_or_empty (some p) = p

unfoldable pub promote_edge : Dict String → GraphEdge → GraphEdge
promote_edge parents e =
    if e.edge_type == "blocks" && parent_or_empty (Dict.get e.source parents) == e.target
    then (record e { edge_type = "parent-child" })
    else e

-- The ids of the nodes that count as open.
abbrev pub is_active : GraphNode → Bool
is_active n =
    mem n.status ("open" ∷ "in_progress" ∷ "blocked" ∷ "deferred" ∷ "active" ∷ "idle" ∷ [])

unfoldable pub active_ids : List GraphNode → List String
active_ids nodes = map (λ n. n.id) (keep is_active nodes)

unfoldable pub connected_ids : List GraphEdge → List String
connected_ids [] = []
connected_ids (e ∷ edges) = e.source ∷ e.target ∷ connected_ids edges

abbrev pub ends_from : Bool → String → List String → List String
ends_from true end rest = end ∷ rest
ends_from false end rest = rest

-- neighbors[id]
unfoldable pub neighbors : String → List GraphEdge → List String
neighbors id [] = []
neighbors id (e ∷ edges) =
    ends_from (e.source == id) e.target (ends_from (e.target == id) e.source (neighbors id edges))

unfoldable pub any_mem : List String → List String → Bool
any_mem [] ys = false
any_mem (x ∷ xs) ys = mem x ys || any_mem xs ys

abbrev pub is_reached : List GraphNode → List GraphEdge → GraphNode → Bool
is_reached nodes edges n = n.status == "closed" && any_mem (neighbors n.id edges) (active_ids nodes)

unfoldable pub closed_connected : List GraphNode → List GraphEdge → List String
unfolding active_ids neighbors any_mem
closed_connected nodes edges = map (λ n. n.id) (keep (is_reached nodes edges) nodes)

abbrev pub is_stray : List String → GraphNode → Bool
is_stray connected n =
    if n.issue_type == "gate" || n.issue_type == "decision"
    then not (mem n.id connected)
    else if n.issue_type == "agent"
    then not (mem n.id connected) && (not (n.status == "active") && not (n.status == "idle"))
    else false

abbrev pub stays : List String → List String → GraphNode → Bool
stays connected reached n =
    not (is_stray connected n) && not (n.status == "closed" && not (mem n.id reached))

unfoldable pub filtered_nodes : List GraphNode → List GraphEdge → List GraphNode
unfolding connected_ids closed_connected
filtered_nodes nodes edges = keep (stays (connected_ids edges) (closed_connected nodes edges)) nodes

unfoldable pub filtered_edges : List GraphNode → List GraphEdge → List GraphEdge
filtered_edges nodes edges =
    let ids = map (λ (n : GraphNode). n.id) nodes in
    keep (λ e. mem e.source ids && mem e.target ids) edges

abbrev in_progress : Bead → Bool
in_progress b = not (b.assignee == "") && b.status == "in_progress"

abbrev agent_node : String → String → GraphNode
agent_node actor status = record {
  id = append "agent:" actor;
  title = actor;
  status = status;
  issue_type = "agent";
  parent_id = "";
  assignee = "";
  priority = ℤ.pos 0;
  labels = [];
  blocked_by = [];
  created_at = 0;
  updated_at = 0;
  description = "";
  notes = "";
  dep_count = 0;
  dep_by_count = 0;
}

-- 30 seconds, in nanoseconds.
abbrev half_minute : ℕ
half_minute = 30000000000

-- The agents that the roster shows alive, and then those that only beads name.
unfoldable pub roster_agents : List Entry → Dict GraphNode → Dict GraphNode
roster_agents [] agents = agents
roster_agents (e ∷ entries) agents =
    let status = if ltb e.idle half_minute then "active" else "idle" in
    roster_agents entries
      (if e.reaped then agents else Dict.put e.actor (agent_node e.actor status) agents)

abbrev fallback_agent : Option GraphNode → String → Dict GraphNode → Dict GraphNode
fallback_agent (some n) actor agents = agents
fallback_agent none actor agents = Dict.put actor (agent_node actor "") agents

unfoldable pub assigned_agents : List Bead → Dict GraphNode → Dict GraphNode
assigned_agents [] agents = agents
assigned_agents (b ∷ beads) agents = assigned_agents beads (
    if in_progress b then fallback_agent (Dict.get b.assignee agents) b.assignee agents else agents)

-- Every assignee has a node by now.
unfoldable pub assigned_edges : List Bead → List GraphEdge
assigned_edges beads =
    map
      (λ b. record {
        source = append "agent:" b.assignee;
        target = b.id;
        edge_type = "assigned_to";
      })
      (keep in_progress beads)

abbrev agent_sources : List GraphEdge → List String
agent_sources edges =
    map (λ e. e.source)
      (keep (λ e. e.edge_type == "assigned_to" || e.edge_type == "requested_by") edges)

unfoldable pub add_agents :
    Bool
    → List Entry
    → List Bead
    → List GraphNode
    → List GraphEdge
    → List GraphNode × List GraphEdge
unfolding roster_agents assigned_agents assigned_edges
add_agents false entries beads nodes edges = (nodes, edges)
add_agents true entries beads nodes edges =
    let agents = assigned_agents beads (roster_agents entries []) in
    let edges1 = edges ++ assigned_edges beads in
    (
      nodes ++ keep (λ (n : GraphNode). mem n.id (agent_sources edges1)) (map (λ p. p.1) agents),
      edges1,
    )

-- The nodes and edges of the answer.
unfoldable pub assemble :
    Bool
    → List Entry
    → List Bead
    → Dict String
    → List GraphNode
    → List GraphEdge
    → List GraphNode × List GraphEdge
unfolding promote_edge add_agents filtered_nodes filtered_edges
assemble with_agents entries beads parents nodes edges =
    let (nodes1, edges1) =
      add_agents with_agents entries beads nodes (map (promote_edge parents) edges) in
    let kept = filtered_nodes nodes1 edges1 in (kept, filtered_edges kept edges1)
