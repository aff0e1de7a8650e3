-- ===== src/Graph/PruneProofs.antt =====
-- What the answer of handleGraph (internal/server/http_graph.go) keeps of nodes and edges.
use kbeads.Prelude.{
  String, Bool, true, not, ◌&&◌, List, map, keep, mem, ◌==◌, ◌≡◌, inl, inr, refl, sym, ap, ◌∙◌,
  eq_iff, All, All-of_Elem, Elem, Elem-keep, Elem-keep_of, mem→Elem, Elem→mem, subst,
}
use kbeads.Prelude.Dict.{Dict}
use kbeads.Model.Bead.{Bead}
use kbeads.Presence.Roster.{Entry}
use kbeads.Graph.Prune.{
  GraphNode, GraphEdge, is_active, active_ids, connected_ids, neighbors, any_mem, is_reached,
  closed_connected, is_stray, stays, filtered_nodes, filtered_edges, add_agents, assemble,
  promote_edge,
}
use kbeads.Graph.Neighbors.{
  Joins, Elem-map, Elem-map_of, connected_ids-Elem, neighbors-Elem, any_mem-Elem, both-right,
  both-left, stays-reached, active-stays, ids_of,
}

module _ (nodes : List GraphNode) (edges : List GraphEdge) where
  -- An open node at the end of an edge stays.
  neighbor-stays :
      (m : GraphNode) (e : GraphEdge) (id : String)
      → Elem m nodes
      → is_active m ≡ true
      → Elem e edges
      → Joins e id m.id
      → Elem m (filtered_nodes nodes edges)
  unfolding filtered_nodes
  neighbor-stays m e id there active edge joins =
      let (source, target) = connected_ids-Elem e edges edge in
      let connected : mem m.id (connected_ids edges) ≡ true =
        Elem→mem m.id (connected_ids edges) (end_of joins source target) in
      Elem-keep_of m (stays (connected_ids edges) (closed_connected nodes edges)) nodes
        (active-stays (connected_ids edges) (closed_connected nodes edges) m active connected) there
    where
      end_of :
          Joins e id m.id
          → Elem e.source (connected_ids edges)
          → Elem e.target (connected_ids edges)
          → Elem m.id (connected_ids edges)
      end_of (inl (s, t)) source target = subst (λ x. Elem x (connected_ids edges)) t target
      end_of (inr (t, s)) source target = subst (λ x. Elem x (connected_ids edges)) s source

  -- What a closed node reaches.
  abbrev Reaches : GraphNode → Type 0
  Reaches n =
      (m : GraphNode) × (e : GraphEdge) × Elem m nodes
      × (is_active m ≡ true)
      × Elem e edges
      × Joins e n.id m.id

  reached-Reaches : (n : GraphNode) → is_reached nodes edges n ≡ true → Reaches n
  unfolding active_ids
  reached-Reaches n h =
      let reached : any_mem (neighbors n.id edges) (active_ids nodes) ≡ true =
        both-right (n.status == "closed") (any_mem (neighbors n.id edges) (active_ids nodes)) h in
      let (x, near, open_id) = any_mem-Elem (neighbors n.id edges) (active_ids nodes) reached in
      let (m, among, same) = Elem-map (λ (n : GraphNode). n.id) x (keep is_active nodes) open_id in
      let (active, there) = Elem-keep m is_active nodes among in
      let (e, edge, joins) = neighbors-Elem n.id x edges near in
      (m, e, there, active, edge, subst (λ y. Joins e n.id y) same joins)

  closed-Reaches :
      (n : GraphNode)
      → stays (connected_ids edges) (closed_connected nodes edges) n ≡ true
      → n.status ≡ "closed"
      → Reaches n
  unfolding closed_connected
  closed-Reaches n h closed =
      let found : mem n.id (closed_connected nodes edges) ≡ true =
        stays-reached (is_stray (connected_ids edges) n) (mem n.id (closed_connected nodes edges)) (
          ap
            (λ s.
              not (is_stray (connected_ids edges) n)
              && not (s == "closed" && not (mem n.id (closed_connected nodes edges))))
            (sym closed)
          ∙ h) in
      let (n0, among, same) =
        Elem-map (λ (n : GraphNode). n.id) n.id (keep (is_reached nodes edges) nodes)
          (mem→Elem n.id (closed_connected nodes edges) found) in
      let (reached, there) = Elem-keep n0 (is_reached nodes edges) nodes among in
      let (m, e, m_in, active, e_in, joins) = reached-Reaches n0 reached in
      (m, e, m_in, active, e_in, subst (λ y. Joins e y m.id) (sym same) joins)

-- The nodes and edges of an answer, taken from the given edges.
pub record IsTidy (edges : List GraphEdge) (ns : List GraphNode) (es : List GraphEdge)
    : Type 0 where
  pub joined : All (λ e. Elem e.source (ids_of ns) × Elem e.target (ids_of ns)) es
  pub from_edges : All (λ e. Elem e edges) es
  pub complete :
      All (λ e. Elem e es) (keep (λ e. mem e.source (ids_of ns) && mem e.target (ids_of ns)) edges)
  pub open_neighbor :
      All
        (λ n.
          (m : GraphNode) × (e : GraphEdge) × Elem m ns
          × (is_active m ≡ true)
          × Elem e es
          × Joins e n.id m.id)
        (keep (λ n. n.status == "closed") ns)

both_ends :
    (ids : List String) (e : GraphEdge) (a b : String)
    → Joins e a b
    → Elem a ids
    → Elem b ids
    → Elem e.source ids × Elem e.target ids
both_ends ids e a b (inl (s, t)) x y =
    (subst (λ z. Elem z ids) (sym s) x, subst (λ z. Elem z ids) (sym t) y)
both_ends ids e a b (inr (t, s)) x y =
    (subst (λ z. Elem z ids) (sym s) y, subst (λ z. Elem z ids) (sym t) x)

filtered-IsTidy :
    (nodes : List GraphNode) (edges : List GraphEdge)
    → IsTidy edges (filtered_nodes nodes edges) (filtered_edges (filtered_nodes nodes edges) edges)
filtered-IsTidy nodes edges =
    let ns = filtered_nodes nodes edges in
    let ids = ids_of ns in
    let joins = λ (e : GraphEdge). mem e.source ids && mem e.target ids in
    let whole : (e : GraphEdge)
        → Elem e edges
        → Elem e.source ids
        → Elem e.target ids
        → Elem e (filtered_edges ns edges) =
      λ e there s t.
        unfold filtered_edges in
        Elem-keep_of e joins edges (rw (Elem→mem e.source ids s, Elem→mem e.target ids t) refl)
          there in
    record {
      joined = All-of_Elem _ (filtered_edges ns edges) (λ e m.
          let (both, there) = Elem-keep e joins edges (unfold filtered_edges in m) in
          (
            mem→Elem e.source ids (both-left (mem e.source ids) (mem e.target ids) both),
            mem→Elem e.target ids (both-right (mem e.source ids) (mem e.target ids) both),
          ));
      from_edges =
          All-of_Elem _ (filtered_edges ns edges)
            (λ e m. (Elem-keep e joins edges (unfold filtered_edges in m)).1);
      complete = All-of_Elem _ (keep joins edges) (λ e m. unfold filtered_edges in m);
      open_neighbor = All-of_Elem _ (keep (λ (n : GraphNode). n.status == "closed") ns) (λ n m.
          let (is_closed, there) = Elem-keep n (λ (n : GraphNode). n.status == "closed") ns m in
          let closed = (eq_iff n.status "closed").0 is_closed in
          let (kept, among) =
            Elem-keep n (stays (connected_ids edges) (closed_connected nodes edges)) nodes
              (unfold filtered_nodes in there) in
          let (m, e, m_in, active, e_in, joining) = closed-Reaches nodes edges n kept closed in
          let m_stays = neighbor-stays nodes edges m e n.id m_in active e_in joining in
          let (s, t) =
            both_ends ids e n.id m.id joining (Elem-map_of (λ (n : GraphNode). n.id) n ns there)
              (Elem-map_of (λ (n : GraphNode). n.id) m ns m_stays) in
          (m, e, m_stays, active, whole e e_in s t, joining));
    }

-- Whatever nodes, edges, roster and parents it starts from: every edge of the graph that is answered joins
-- two of its nodes, and is an edge of the unpruned graph with its promotion; no edge between two nodes
-- that stay is lost; and every closed node that stays is joined by an edge of the answer to a node of
-- the answer that is open.
pub assemble-IsTidy :
    (with_agents : Bool) (entries : List Entry) (beads : List Bead) (parents : Dict String)
    (nodes : List GraphNode) (edges : List GraphEdge)
    → let graph = assemble with_agents entries beads parents nodes edges in
      IsTidy
        (add_agents with_agents entries beads nodes (map (promote_edge parents) edges)).1
        graph.0
        graph.1
unfolding assemble
assemble-IsTidy with_agents entries beads parents nodes edges =
    let grown = add_agents with_agents entries beads nodes (map (promote_edge parents) edges) in
    filtered-IsTidy grown.0 grown.1
