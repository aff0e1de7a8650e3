-- ===== src/Graph/EdgeProofs.antt =====
-- The edges that handleGraph (internal/server/http_graph.go) finds, and its answer as a whole.
use kbeads.Prelude.{
  String, Bool, false, List, [], ◌∷◌, ◌++◌, Option, none, some, map, mem, ◌≡◌, refl, sym, ap, subst,
  ◌∙◌, Bool-cases, inl, inr,
}
use kbeads.Prelude.Dict.{Dict}
use kbeads.Model.Bead.{Bead, Dependency}
use kbeads.Graph.Prune.{GraphEdge, add_agents, promote_edge}
use kbeads.Graph.PruneProofs.{IsTidy, assemble-IsTidy}
use kbeads.Graph.Edges.{
  Found, edge_key, add_edge, forward_edges, all_forward, reverse_edges, all_reverse, nothing_found,
  found_edges, Batch, GraphArgs, found_of, beads_of, parents_of, rows_of, nodes_of, answer_graph,
}

abbrev pub AllDistinct : List String → Type 0
AllDistinct [] = Unit
AllDistinct (x ∷ xs) = (mem x xs ≡ false) × AllDistinct xs

-- The keys of the edges, the last one first.
abbrev pub keys_onto : List String → List GraphEdge → List String
keys_onto keys [] = keys
keys_onto keys (e ∷ edges) = keys_onto (edge_key e ∷ keys) edges

keys_onto-append :
    (keys : List String) (edges : List GraphEdge) (e : GraphEdge)
    → keys_onto keys (edges ++ e ∷ []) ≡ edge_key e ∷ keys_onto keys edges
keys_onto-append keys [] e = refl
keys_onto-append keys (d ∷ edges) e = keys_onto-append (edge_key d ∷ keys) edges e

-- Each edge found is new, and its key is noted.
record IsNoted (found : Found) : Type 0 where
  noted : found.seen ≡ keys_onto [] found.edges
  distinct : AllDistinct found.seen

add_edge-IsNoted :
    (include_deps : Bool) (beads : Dict Bead) (far : String) (e : GraphEdge) (found : Found)
    → IsNoted found
    → IsNoted (add_edge include_deps beads far e found)
unfolding add_edge
add_edge-IsNoted include_deps beads far e found k =
    elim (Bool-cases (mem (edge_key e) found.seen)) [
      | inl old ↦ rw old k
      | inr new ↦ rw new (record {
        noted = ap (λ ks. edge_key e ∷ ks) k.noted ∙ sym (keys_onto-append [] found.edges e);
        distinct = (new, k.distinct);
      })
    ]

module _ (include_deps : Bool) (beads : Dict Bead) where
  forward_edges-IsNoted :
      (id : String) (deps : List Dependency) (found : Found)
      → IsNoted found
      → IsNoted (forward_edges include_deps beads id deps found)
  unfolding forward_edges
  forward_edges-IsNoted id [] found k = k
  forward_edges-IsNoted id (d ∷ deps) found k =
      forward_edges-IsNoted id deps _
        (add_edge-IsNoted include_deps beads d.depends_on_id _ found k)

  all_forward-IsNoted :
      (records : Dict (List Dependency)) (found : Found)
      → IsNoted found
      → IsNoted (all_forward include_deps beads records found)
  unfolding all_forward
  all_forward-IsNoted [] found k = k
  all_forward-IsNoted ((id, deps) ∷ records) found k =
      all_forward-IsNoted records _ (forward_edges-IsNoted id deps found k)

  reverse_edges-IsNoted :
      (deps : List Dependency) (found : Found)
      → IsNoted found
      → IsNoted (reverse_edges include_deps beads deps found)
  unfolding reverse_edges
  reverse_edges-IsNoted [] found k = k
  reverse_edges-IsNoted (d ∷ deps) found k =
      reverse_edges-IsNoted deps _ (add_edge-IsNoted include_deps beads d.bead_id _ found k)

  all_reverse-IsNoted :
      (records : Dict (List Dependency)) (found : Found)
      → IsNoted found
      → IsNoted (all_reverse include_deps beads records found)
  unfolding all_reverse
  all_reverse-IsNoted [] found k = k
  all_reverse-IsNoted ((id, deps) ∷ records) found k =
      all_reverse-IsNoted records _ (reverse_edges-IsNoted deps found k)

  found_edges-IsNoted :
      (forward : Dict (List Dependency)) (reverse : Option (Dict (List Dependency)))
      → IsNoted (found_edges include_deps beads forward reverse)
  unfolding found_edges
  found_edges-IsNoted forward none =
      all_forward-IsNoted forward nothing_found (record { noted = refl; distinct = tt })
  found_edges-IsNoted forward (some reverse) =
      all_reverse-IsNoted reverse _
        (all_forward-IsNoted forward nothing_found (record { noted = refl; distinct = tt }))

-- The edges before pruning: those found, promoted, and those of agents.
abbrev pub unpruned : GraphArgs → Batch → List GraphEdge
unpruned args batch =
    let rows = rows_of (beads_of args batch) in
    let parents = parents_of (beads_of args batch) batch.forward batch.reverse in
    (add_agents args.include_agents batch.roster rows
      (nodes_of args.include_body batch parents rows)
      (map (promote_edge parents) (found_of args batch).edges)).1

-- Whatever the queries give: no two of the edges that are found for dependencies have the same key; in the
-- answer every edge joins two of its nodes and is one of these edges, promoted, or an agent's; none of
-- those between two nodes that stay is lost; and every closed node that stays is joined by an edge of
-- the answer to a node of the answer that is open.
pub answer_graph-IsTidy :
    (args : GraphArgs) (batch : Batch)
    → AllDistinct (keys_onto [] (found_of args batch).edges)
      × IsTidy (unpruned args batch) (answer_graph args batch).0 (answer_graph args batch).1
unfolding answer_graph
answer_graph-IsTidy args batch =
    let beads = beads_of args batch in
    let parents = parents_of beads batch.forward batch.reverse in
    let rows = rows_of beads in
    let noted : IsNoted (found_of args batch) =
      unfold found_of in
      found_edges-IsNoted args.include_deps batch.listed batch.forward batch.reverse in
    (
      subst AllDistinct noted.noted noted.distinct,
      assemble-IsTidy args.include_agents batch.roster rows parents
          (nodes_of args.include_body batch parents rows) (found_of args batch).edges,
    )
