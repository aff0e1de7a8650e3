-- ===== src/Graph/Tests.antt =====
-- Ready work in a small store and a small graph, and the theorems at these values.
use kbeads.Prelude.{
  ℕ, String, Bool, true, false, not, List, [], ◌∷◌, Option, none, some, map, keep, length, ◌≡◌,
  refl, inl, ◌==◌,
}
use kbeads.Prelude.Int.{pos}
use kbeads.Prelude.Dict.{Dict}
use kbeads.Model.Bead.{Bead, Dependency}
use kbeads.Server.Actions.{World}
use kbeads.Server.Beads.{Env}
use kbeads.Server.Samples
use kbeads.Server.Samples.{world_of, blocks}
use kbeads.Server.Query.{Database}
use kbeads.Server.ListBeads.{page_of, with_labels}
use kbeads.Graph.Ready.{open_beads, handle_get_ready}
use kbeads.Graph.ReadyProofs.{is_ready, handle_get_ready_lem}
use kbeads.Graph.PruneProofs.{IsTidy}
use kbeads.Graph.Edges.{Batch, GraphArgs, found_of, answer_graph}
use kbeads.Graph.EdgeProofs.{AllDistinct, keys_onto, unpruned, answer_graph-IsTidy}

abbrev task : String → Bead
task id = record (Samples.task id) { assignee = "" }

abbrev worker : Bead
worker = record (task "kd-2") { status = "in_progress"; assignee = "bob" }

-- kd-1 waits for kd-2; what kd-3 waited for is closed.
abbrev world : World
world =
    world_of
      (("kd-1", task "kd-1")
        ∷ ("kd-2", worker)
        ∷ ("kd-3", task "kd-3")
        ∷ ("kd-4", record (task "kd-4") { status = "closed" })
        ∷ [])
      [] (blocks "kd-1" "kd-2" ∷ blocks "kd-3" "kd-4" ∷ []) []

abbrev db : Database
db = record { ilike = λ s p. false; field_text = λ fields key. none; order_by = λ order bs. bs }

abbrev env : Env
env = Samples.env none

third_is_ready : (handle_get_ready db env (pos 200) world).0 ≡ inl (task "kd-3" ∷ [])
unfolding handle_get_ready kbeads.Server.ListBeads.list_beads kbeads.Server.Actions.call
    kbeads.Server.Query.build_query kbeads.Server.Query.all_hold
    kbeads.Server.Store.query_get_dependencies kbeads.Server.Update.get_bead
    kbeads.Server.Store.query_get_row kbeads.Prelude.Dict.get kbeads.Server.Store.query_get_labels
    kbeads.Server.Store.query_get_comments
third_is_ready = refl

handle_get_ready_lem_example :
    ((handle_get_ready db env (pos 200) world).0
      ≡ inl (
          keep (is_ready world.tables) (
            map
              (with_labels world.tables.labels)
              (page_of db world.tables (open_beads (pos 200))))))
    × ((handle_get_ready db env (pos 200) world).1.tables ≡ world.tables)
handle_get_ready_lem_example = handle_get_ready_lem db env (pos 200) world (λ i. refl)

abbrev dep : String → String → String → Dependency
dep id on dep_type = record (blocks id on) { dep_type = dep_type }

-- kd-3 depends on the epic kd-2 twice and on the closed kd-4; nothing joins the closed kd-5.
abbrev batch : Batch
batch = record {
  listed =
      ("kd-2", record worker { bead_type = "epic" })
      ∷ ("kd-3", task "kd-3")
      ∷ ("kd-5", record (task "kd-5") { status = "closed" })
      ∷ [];
  forward =
      (
        "kd-3",
        dep "kd-3" "kd-2" "blocks"
            ∷ dep "kd-3" "kd-2" "parent-child"
            ∷ dep "kd-3" "kd-4" "blocks"
            ∷ [],
      )
      ∷ [];
  reverse = some (("kd-2", dep "kd-3" "kd-2" "blocks" ∷ []) ∷ []);
  labels = [];
  blocked = [];
  counts = [];
  fetch = λ ids. record (task "kd-4") { status = "closed" } ∷ [];
  roster = [];
}

abbrev args : GraphArgs
args = record {
  exclude_types = "message" ∷ [];
  include_deps = true;
  include_connected_closed = false;
  include_agents = true;
  include_body = false;
  is_recent = λ b. true;
}

four_nodes :
    map (λ n. n.id) (answer_graph args batch).0 ≡ "kd-2" ∷ "kd-3" ∷ "kd-4" ∷ "agent:bob" ∷ []
unfolding answer_graph kbeads.Graph.Prune.assemble kbeads.Prelude.Dict.get kbeads.Prelude.Dict.put
four_nodes = refl

-- The promotion makes a second parent-child edge of the blocks edge beside it.
promoted_twice :
    keep (λ e. e.edge_type == "parent-child") (answer_graph args batch).1
    ≡ record { source = "kd-3"; target = "kd-2"; edge_type = "parent-child" }
      ∷ record { source = "kd-3"; target = "kd-2"; edge_type = "parent-child" }
      ∷ []
unfolding answer_graph kbeads.Graph.Prune.assemble kbeads.Prelude.Dict.get kbeads.Prelude.Dict.put
promoted_twice = refl

answer_graph-IsTidy_example :
    AllDistinct (keys_onto [] (found_of args batch).edges)
    × IsTidy (unpruned args batch) (answer_graph args batch).0 (answer_graph args batch).1
answer_graph-IsTidy_example = answer_graph-IsTidy args batch
