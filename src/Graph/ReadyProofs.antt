-- ===== src/Graph/ReadyProofs.antt =====
-- Which beads are ready.
use kbeads.Prelude.{
  ℕ, suc, String, Bool, true, false, not, ◌&&◌, ◌||◌, List, [], ◌∷◌, Option, none, some, keep, map,
  ◌==◌, if◌then◌else◌, inl, inr, ◌≡◌, refl, ap, ◌∙◌, Bool-cases,
}
use kbeads.Prelude.Int.{ℤ}
use kbeads.Prelude.Dict
use kbeads.Prelude.Dict.{Dict}
use kbeads.Model.Bead.{Bead, Dependency}
use kbeads.Server.Store.{
  Answer, ok, fail, no_rows, Tables, labels_of, query_get_row, query_get_labels,
  query_get_dependencies, query_get_comments,
}
use kbeads.Server.Actions.{World, Faults, call}
use kbeads.Server.Beads.{Env}
use kbeads.Server.Update.{get_bead}
use kbeads.Server.Query.{Database}
use kbeads.Server.ListBeads.{page_of, with_labels}
use kbeads.Server.ListProofs.{list_beads_lem}
use kbeads.Graph.Ready.{
  open_beads, unless_blocking, is_blocked, Listed, with_bead, ready_of, handle_get_ready,
}

call-free :
    {A : Type 0} (faults : Faults) (query : Tables → Answer A × Tables) (a : Answer A) (w : World)
    → faults w.calls ≡ none
    → query w.tables ≡ (a, w.tables)
    → call faults query w ≡ (a, record w { calls = suc w.calls })
unfolding call
call-free faults query a w e q = rw (e, q) refl

-- A bead as it is read: its row with its relational data.
abbrev read_of : Option Bead → String → Tables → Answer Bead
read_of none id t = fail no_rows
read_of (some b) id t = ok (record b {
  labels = labels_of id t.labels;
  dependencies = keep (λ d. d.bead_id == id) t.deps;
  comments = keep (λ c. c.bead_id == id) t.comments;
})

module _ (env : Env) (free : (i : ℕ) → env.links.faults i ≡ none) where
  get_bead-free :
      (id : String) (o : Option Bead) (w : World)
      → Dict.get id w.tables.beads ≡ o
      → (w' : World) × (get_bead env id w ≡ (read_of o id w.tables, w')) × (w'.tables ≡ w.tables)
  unfolding get_bead query_get_row query_get_labels query_get_dependencies query_get_comments
  get_bead-free id none w e =
      let f = env.links.faults in
      (
        record w { calls = suc w.calls },
        rw (call-free f (query_get_row id) (fail no_rows) w (free w.calls) (rw e refl)) refl,
        refl,
      )
  get_bead-free id (some b) w e =
      let f = env.links.faults in
      let t = w.tables in
      let ds = keep (λ (d : Dependency). d.bead_id == id) t.deps in
      let w1 : World = record w { calls = suc w.calls } in
      let w2 : World = record w1 { calls = suc w1.calls } in
      let w3 : World = record w2 { calls = suc w2.calls } in
      let w4 : World = record w3 { calls = suc w3.calls } in
      (
        w4,
        rw
            (
              call-free f (query_get_row id) (ok b) w (free w.calls) (rw e refl),
              call-free f (query_get_labels id) (ok (labels_of id t.labels)) w1 (free w1.calls)
                  refl,
              call-free f (query_get_dependencies id) (ok ds) w2 (free w2.calls) refl,
              call-free f (query_get_comments id) (ok (keep (λ c. c.bead_id == id) t.comments)) w3
                  (free w3.calls) refl,
            )
            refl,
        refl,
      )

-- Whether a bead stands in the table and is not closed.
abbrev pub is_unfinished : Option Bead → Bool
is_unfinished none = false
is_unfinished (some b) = not (b.status == "closed")

-- Whether some dependency of the list is on an unfinished blocker.
abbrev pub some_blocker : Dict Bead → List Dependency → Bool
some_blocker rows [] = false
some_blocker rows (d ∷ deps) =
    (d.dep_type == "blocks" && is_unfinished (Dict.get d.depends_on_id rows))
    || some_blocker rows deps

-- No dependency of the bead is on an unfinished blocker.
abbrev pub is_ready : Tables → Bead → Bool
is_ready t b = not (some_blocker t.beads (keep (λ d. d.bead_id == b.id) t.deps))

module _ (env : Env) (free : (i : ℕ) → env.links.faults i ≡ none) where
  -- One dependency on a blocker.
  blocking :
      (id : String) (o : Option Bead) (w : World) (rest : World → Bool × World) (tail : Bool)
      → Dict.get id w.tables.beads ≡ o
      → ((v : World) → v.tables ≡ w.tables → ((rest v).0 ≡ tail) × ((rest v).1.tables ≡ w.tables))
      → ((unless_blocking (get_bead env id w) rest).0 ≡ (is_unfinished o || tail))
        × ((unless_blocking (get_bead env id w) rest).1.tables ≡ w.tables)
  blocking id none w rest tail e k =
      let (w1, run, same) = get_bead-free env free id none w e in rw run (k w1 same)
  blocking id (some b) w rest tail e k =
      let (w1, run, same) = get_bead-free env free id (some b) w e in
      elim (Bool-cases (b.status == "closed")) [
        | inl y ↦ rw (run, y) (k w1 same)
        | inr n ↦ rw (run, n) (refl, same)
      ]

  is_blocked_lem :
      (deps : List Dependency) (w : World)
      → ((is_blocked env deps w).0 ≡ some_blocker w.tables.beads deps)
        × ((is_blocked env deps w).1.tables ≡ w.tables)
  unfolding is_blocked
  is_blocked_lem [] w = (refl, refl)
  is_blocked_lem (d ∷ deps) w =
      let later : (v : World)
          → v.tables ≡ w.tables
          → ((is_blocked env deps v).0 ≡ some_blocker w.tables.beads deps)
            × ((is_blocked env deps v).1.tables ≡ w.tables) =
        λ v same.
          let (b, t) = is_blocked_lem deps v in
          (b ∙ ap (λ (t : Tables). some_blocker t.beads deps) same, t ∙ same) in
      elim (Bool-cases (d.dep_type == "blocks")) [
        | inl y ↦ rw y (
            blocking d.depends_on_id (Dict.get d.depends_on_id w.tables.beads) w
              (λ v. is_blocked env deps v) (some_blocker w.tables.beads deps) refl later)
        | inr n ↦ rw n (later w refl)
      ]

  ready_of_lem :
      (bs : List Bead) (w : World)
      → ((ready_of env bs w).0 ≡ inl (keep (is_ready w.tables) bs))
        × ((ready_of env bs w).1.tables ≡ w.tables)
  unfolding ready_of query_get_dependencies
  ready_of_lem [] w = (refl, refl)
  ready_of_lem (b ∷ bs) w =
      let f = env.links.faults in
      let deps = keep (λ (d : Dependency). d.bead_id == b.id) w.tables.deps in
      let w1 : World = record w { calls = suc w.calls } in
      let (blocked, same) = is_blocked_lem deps w1 in
      let w2 = (is_blocked env deps w1).1 in
      let (others, same2) = ready_of_lem bs w2 in
      let others1 : (ready_of env bs w2).0 ≡ inl (keep (is_ready w.tables) bs) =
        others ∙ ap (λ (t : Tables). inl (keep (is_ready t) bs)) same in
      let run = call-free f (query_get_dependencies b.id) (ok deps) w (free w.calls) refl in
      (
        rw (run, blocked, others1) (ready_step (some_blocker w.tables.beads deps)),
        rw run (same2 ∙ same),
      )
    where
      ready_step :
          (blocked : Bool)
          → ◌≡◌ {A = Listed} (with_bead b blocked (inl (keep (is_ready w.tables) bs))) (
              inl (
                if not blocked
                then b ∷ keep (is_ready w.tables) bs
                else keep (is_ready w.tables) bs))
      ready_step true = refl
      ready_step false = refl

-- When no store call fails, the beads listed as ready are exactly the beads of the page of open beads none
-- of whose blocks dependencies is on a bead that stands in the store and is not closed, in the order of
-- the page. The tables stay as they are.
pub handle_get_ready_lem :
    (db : Database) (env : Env) (limit : ℤ) (w : World)
    → ((i : ℕ) → env.links.faults i ≡ none)
    → ((handle_get_ready db env limit w).0
        ≡ inl (
            keep
              (is_ready w.tables)
              (map (with_labels w.tables.labels) (page_of db w.tables (open_beads limit)))))
      × ((handle_get_ready db env limit w).1.tables ≡ w.tables)
unfolding handle_get_ready
handle_get_ready_lem db env limit w free =
    let (w1, run, same) = list_beads_lem db env.links.faults (open_beads limit) w free in
    let page = map (with_labels w.tables.labels) (page_of db w.tables (open_beads limit)) in
    let (found, kept) = ready_of_lem env free page w1 in
    (rw run (found ∙ ap (λ (t : Tables). inl (keep (is_ready t) page)) same), rw run (kept ∙ same))
