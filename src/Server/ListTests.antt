-- ===== src/Server/ListTests.antt =====
-- Listing a small store, and its theorem at a concrete filter.
use kbeads.Prelude.{true, [], ◌∷◌, none, some, ◌≡◌, refl, map, length, ◌==◌}
use kbeads.Prelude.Int.{pos}
use kbeads.Server.Store.{ok}
use kbeads.Server.Actions.{World}
use kbeads.Server.Samples.{task, blocks, world_of}
use kbeads.Server.Query.{BeadFilter, Database}
use kbeads.Server.ListBeads.{list_beads, page_of, in_order, total_of, with_labels}
use kbeads.Server.ListProofs.{list_beads_lem}

-- kd-1 waits for kd-2.
abbrev world : World
world =
    world_of
      (("kd-1", task "kd-1")
        ∷ ("kd-2", task "kd-2")
        ∷ ("kd-3", record (task "kd-3") { status = "closed" })
        ∷ ("kd-4", task "kd-4")
        ∷ [])
      (("kd-2", "urgent") ∷ ("kd-4", "urgent") ∷ ("kd-4", "ui") ∷ []) (blocks "kd-1" "kd-2" ∷ []) []

abbrev db : Database
db = record { ilike = λ s p. s == p; field_text = λ fields key. none; order_by = λ order bs. bs }

abbrev filter : BeadFilter
filter = record {
  status = "open" ∷ "in_progress" ∷ [];
  bead_type = [];
  exclude_types = "epic" ∷ [];
  kind = [];
  priority = none;
  priority_min = none;
  priority_max = some (pos 3);
  assignee = "ann";
  labels = "urgent" ∷ [];
  labels_any = [];
  search = "";
  fields = [];
  no_open_deps = true;
  ids = [];
  updated_after = none;
  parent_id = "";
  sort = "title";
  limit = pos 1;
  offset = pos 1;
}

-- Of the two open urgent beads that wait for nothing, the second.
second_page : map (λ b. b.id) (page_of db world.tables filter) ≡ "kd-4" ∷ []
unfolding kbeads.Server.Filter.takes kbeads.Server.Store.has_label kbeads.Server.Query.has_open_dep
second_page = refl

list_beads_lem_example :
    (w' : World) × (list_beads db (λ n. none) filter world ≡ (
      ok (
        map (with_labels world.tables.labels) (page_of db world.tables filter),
        total_of (page_of db world.tables filter) (length (in_order db world.tables filter)),
      ),
      w',
    ))
    × (w'.tables ≡ world.tables)
list_beads_lem_example = list_beads_lem db (λ n. none) filter world (λ i. refl)

-- Past the last row the total is 0, although two beads satisfy the filter.
past_the_end : (list_beads db (λ n. none) (record filter { offset = pos 7 }) world).0 ≡ ok ([], 0)
unfolding list_beads kbeads.Server.Actions.call kbeads.Server.Query.build_query
    kbeads.Server.Query.all_hold kbeads.Server.Store.has_label
past_the_end = refl
