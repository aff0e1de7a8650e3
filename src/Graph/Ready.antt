-- ===== src/Graph/Ready.antt =====
-- handleGetReady of internal/server/http_graph.go: the open beads that no open bead blocks.
use kbeads.Prelude.{Bool, true, false, List, [], ◌∷◌, none, ◌==◌, if◌then◌else◌, ◌⊎◌, inl, inr, ℕ}
use kbeads.Prelude.Int.{ℤ, pos}
use kbeads.Model.Bead.{Bead, Dependency}
use kbeads.Server.Store.{Answer, ok, fail, query_get_dependencies}
use kbeads.Server.Actions.{World, call}
use kbeads.Server.Beads.{Env}
use kbeads.Server.Update.{get_bead}
use kbeads.Server.Query.{BeadFilter, Database}
use kbeads.Server.ListBeads.{list_beads}

abbrev pub open_beads : ℤ → BeadFilter
open_beads limit = record {
  status = "open" ∷ [];
  bead_type = [];
  exclude_types = [];
  kind = [];
  priority = none;
  priority_min = none;
  priority_max = none;
  assignee = "";
  labels = [];
  labels_any = [];
  search = "";
  fields = [];
  no_open_deps = false;
  ids = [];
  updated_after = none;
  parent_id = "";
  sort = "priority";
  limit = limit;
  offset = pos 0;
}

-- A blocker that cannot be read does not block.
abbrev pub unless_blocking : Answer Bead × World → (World → Bool × World) → Bool × World
unless_blocking (fail e, w) rest = rest w
unless_blocking (ok b, w) rest = if b.status == "closed" then rest w else (true, w)

-- The loop over the dependencies of a bead.
unfoldable pub is_blocked : Env → List Dependency → World → Bool × World
is_blocked env [] w = (false, w)
is_blocked env (d ∷ deps) w =
    let rest = λ (v : World). is_blocked env deps v in
    if d.dep_type == "blocks" then unless_blocking (get_bead env d.depends_on_id w) rest else rest w

-- A list, or a status code.
abbrev pub Listed : Type 0
Listed = List Bead ⊎ ℕ

abbrev pub with_bead : Bead → Bool → Listed → Listed
with_bead b blocked (inr code) = inr code
with_bead b true (inl bs) = inl bs
with_bead b false (inl bs) = inl (b ∷ bs)

abbrev pub unless_blocked :
    Env → Bead → Answer (List Dependency) × World → (World → Listed × World) → Listed × World
unless_blocked env b (fail e, w) rest = (inr 500, w)
unless_blocked env b (ok deps, w) rest =
    let (blocked, w1) = is_blocked env deps w in
    let (bs, w2) = rest w1 in (with_bead b blocked bs, w2)

unfoldable pub ready_of : Env → List Bead → World → Listed × World
unfolding is_blocked
ready_of env [] w = (inl [], w)
ready_of env (b ∷ bs) w =
    unless_blocked env b (call env.links.faults (query_get_dependencies b.id) w)
      (λ v. ready_of env bs v)

abbrev pub from_page : Env → Answer (List Bead × ℕ) × World → Listed × World
from_page env (fail e, w) = (inr 500, w)
from_page env (ok (bs, n), w) = ready_of env bs w

-- The limit of the query, or 200.
unfoldable pub handle_get_ready : Database → Env → ℤ → World → Listed × World
unfolding ready_of
handle_get_ready db env limit w =
    from_page env (list_beads db env.links.faults (open_beads limit) w)
