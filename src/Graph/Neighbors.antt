-- ===== src/Graph/Neighbors.antt =====
-- Which nodes of a graph are the ends of an edge, and which stay (internal/server/http_graph.go).
use kbeads.Prelude.{
  String, Bool, true, false, not, ◌&&◌, List, [], ◌∷◌, map, mem, ◌==◌, ◌≡◌, ◌⊎◌, inl, inr, refl,
  sym, ap, ◌∙◌, arith, Bool-cases, eq_iff, Elem, mem→Elem,
}
use kbeads.Graph.Prune.{
  GraphNode, GraphEdge, is_active, connected_ids, ends_from, neighbors, any_mem, is_stray, stays,
}

-- An edge joins two ids, in one direction or the other.
abbrev pub Joins : GraphEdge → String → String → Type 0
Joins e a b = ((e.source ≡ a) × (e.target ≡ b)) ⊎ ((e.target ≡ a) × (e.source ≡ b))

module _ {A : Type 0} {B : Type 0} (g : A → B) where
  pub Elem-map : (y : B) (xs : List A) → Elem y (map g xs) → (x : A) × Elem x xs × (y ≡ g x)
  Elem-map y [] h = elim h [ ]
  Elem-map y (x ∷ xs) (inl e) = (x, inl refl, e)
  Elem-map y (x ∷ xs) (inr m) = let (z, there, e) = Elem-map y xs m in (z, inr there, e)

  pub Elem-map_of : (x : A) (xs : List A) → Elem x xs → Elem (g x) (map g xs)
  Elem-map_of x (z ∷ xs) (inl e) = inl (ap g e)
  Elem-map_of x (z ∷ xs) (inr m) = inr (Elem-map_of x xs m)
  Elem-map_of x [] h = elim h [ ]

-- Both ends of an edge are connected.
pub connected_ids-Elem :
    (e : GraphEdge) (edges : List GraphEdge)
    → Elem e edges
    → Elem e.source (connected_ids edges) × Elem e.target (connected_ids edges)
unfolding connected_ids
connected_ids-Elem e [] h = elim h [ ]
connected_ids-Elem e (d ∷ edges) (inl same) =
    (inl (ap (λ (e : GraphEdge). e.source) same), inr (inl (ap (λ (e : GraphEdge). e.target) same)))
connected_ids-Elem e (d ∷ edges) (inr m) =
    let (s, t) = connected_ids-Elem e edges m in (inr (inr s), inr (inr t))

ends_from-Elem :
    (c : Bool) (x y : String) (rest : List String)
    → Elem y (ends_from c x rest)
    → ((c ≡ true) × (y ≡ x)) ⊎ Elem y rest
ends_from-Elem true x y rest (inl e) = inl (refl, e)
ends_from-Elem true x y rest (inr m) = inr m
ends_from-Elem false x y rest h = inr h

pub neighbors-Elem :
    (id other : String) (edges : List GraphEdge)
    → Elem other (neighbors id edges)
    → (e : GraphEdge) × Elem e edges × Joins e id other
unfolding neighbors
neighbors-Elem id other [] h = elim h [ ]
neighbors-Elem id other (e ∷ edges) h =
    let rest = neighbors id edges in
    elim (ends_from-Elem (e.source == id) e.target other (ends_from (e.target == id) e.source rest)
      h) [
        | inl (c, same) ↦ (e, inl refl, inl ((eq_iff e.source id).0 c, sym same))
        | inr m ↦ elim (ends_from-Elem (e.target == id) e.source other rest m) [
          | inl (c, same) ↦ (e, inl refl, inr ((eq_iff e.target id).0 c, sym same))
          | inr later ↦
              let (d, there, joins) = neighbors-Elem id other edges later in (d, inr there, joins)
        ]
      ]

pub any_mem-Elem :
    (xs ys : List String) → any_mem xs ys ≡ true → (x : String) × Elem x xs × Elem x ys
unfolding any_mem
any_mem-Elem [] ys h = cc
any_mem-Elem (x ∷ xs) ys h = elim (Bool-cases (mem x ys)) [
  | inl y ↦ (x, inl refl, mem→Elem x ys y)
  | inr n ↦
      let later : any_mem xs ys ≡ true = ground (arith, n, h) in
      let (z, there, found) = any_mem-Elem xs ys later in (z, inr there, found)
]

active-not_closed : (n : GraphNode) → is_active n ≡ true → (n.status == "closed") ≡ false
active-not_closed n h = elim (Bool-cases (n.status == "closed")) [
  | inl y ↦
      let closed : n.status ≡ "closed" = (eq_iff n.status "closed").0 y in
      let bad : false ≡ true =
        ap (λ s. mem s ("open" ∷ "in_progress" ∷ "blocked" ∷ "deferred" ∷ "active" ∷ "idle" ∷ []))
          (sym closed)
        ∙ h in
      absurd (ground (arith, bad))
  | inr k ↦ k
]

pub both-right : (a b : Bool) → (a && b) ≡ true → b ≡ true
both-right a b h = ground (arith, h)

pub both-left : (a b : Bool) → (a && b) ≡ true → a ≡ true
both-left a b h = ground (arith, h)

pub stays-reached :
    (stray reached : Bool) → (not stray && not (true && not reached)) ≡ true → reached ≡ true
stays-reached stray reached h = ground (arith, h)

-- A connected node that is open stays.
pub active-stays :
    (connected reached : List String) (n : GraphNode)
    → is_active n ≡ true
    → mem n.id connected ≡ true
    → stays connected reached n ≡ true
active-stays connected reached n a c =
    let open_node = active-not_closed n a in
    let kept : is_stray connected n ≡ false = ground (arith, c) in rw (kept, open_node) refl

abbrev pub ids_of : List GraphNode → List String
ids_of nodes = map (λ (n : GraphNode). n.id) nodes
