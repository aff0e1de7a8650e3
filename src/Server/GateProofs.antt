-- ===== src/Server/GateProofs.antt =====
-- What the gate handlers do to every gate.
use kbeads.Prelude.{
  ℕ, String, Bool, true, false, ◌&&◌, ◌||◌, List, [], ◌∷◌, Option, none, some, map, ◌==◌, eq_iff,
  if◌then◌else◌, ◌≡◌, refl, sym, ap, ◌∙◌, arith, inl, inr, Bool-cases,
}
use kbeads.Prelude.Dict
use kbeads.Model.Bead.{Bead}
use kbeads.Server.Store.{Answer, ok, fail, Tables, GateRow}
use kbeads.Server.Actions.{World, Faults, bind, call, call-ok, continue-ok}
use kbeads.Server.Gates.{
  gate_status, insert_gate, upsert_for, upsert_gate, set_status, mark_gate_satisfied, clear_gate,
  reply, unless_bad, handle_satisfy_gate, handle_clear_gate,
}

-- The status that a statement on the gate (agent, gate) leaves.
abbrev pub changed_to : Option String → String → Option String
changed_to none status = none
changed_to (some old) status = some status

map-set_status :
    (agent gate status : String) (at : Option ℕ) (a g : String) (rows : List GateRow)
    → gate_status a g (map (set_status agent gate status at) rows) ≡ (
        if agent == a && gate == g
        then changed_to (gate_status a g rows) status
        else gate_status a g rows)
unfolding gate_status
map-set_status agent gate status at a g [] = ground arith
map-set_status agent gate status at a g (r ∷ rows) = ground (
  arith,
  map-set_status agent gate status at a g rows,
  eq_iff r.agent_bead_id agent,
  eq_iff r.gate_id gate,
  eq_iff r.agent_bead_id a,
  eq_iff r.gate_id g,
  eq_iff agent a,
  eq_iff gate g,
)

append-status :
    (a g agent gate : String) (rows : List GateRow)
    → gate_status agent gate rows ≡ none
    → gate_status a g (insert_gate none agent gate rows)
      ≡ (if agent == a && gate == g then some "pending" else gate_status a g rows)
unfolding gate_status
append-status a g agent gate [] h = ground arith
append-status a g agent gate (r ∷ rows) h = ground (
  arith,
  append-status a g agent gate rows,
  eq_iff r.agent_bead_id agent,
  eq_iff r.gate_id gate,
  eq_iff r.agent_bead_id a,
  eq_iff r.gate_id g,
  eq_iff agent a,
  eq_iff gate g,
)

abbrev pub or_pending : Option String → Option String
or_pending none = some "pending"
or_pending (some s) = some s

inserted_here :
    (o : Option String) (a g agent gate : String) (rows : List GateRow)
    → gate_status agent gate rows ≡ o
    → (agent == a && gate == g) ≡ true
    → gate_status a g rows ≡ o
    → gate_status a g (insert_gate o agent gate rows) ≡ (
        if agent == a && gate == g then or_pending (gate_status a g rows) else gate_status a g rows)
inserted_here none a g agent gate rows h y there =
    rw (y, there) (append-status a g agent gate rows h ∙ rw y refl)
inserted_here (some s) a g agent gate rows h y there = rw (y, there) refl

inserted_elsewhere :
    (o : Option String) (a g agent gate : String) (rows : List GateRow)
    → gate_status agent gate rows ≡ o
    → (agent == a && gate == g) ≡ false
    → gate_status a g (insert_gate o agent gate rows) ≡ (
        if agent == a && gate == g then or_pending (gate_status a g rows) else gate_status a g rows)
inserted_elsewhere none a g agent gate rows h n =
    rw n (append-status a g agent gate rows h ∙ rw n refl)
inserted_elsewhere (some s) a g agent gate rows h n = rw n refl

insert_gate-status :
    (o : Option String) (a g agent gate : String) (rows : List GateRow)
    → gate_status agent gate rows ≡ o
    → gate_status a g (insert_gate o agent gate rows) ≡ (
        if agent == a && gate == g then or_pending (gate_status a g rows) else gate_status a g rows)
insert_gate-status o a g agent gate rows h = elim (Bool-cases (agent == a && gate == g)) [
  | inl y ↦
      let same_agent : agent ≡ a = ground (arith, eq_iff agent a) in
      let same_gate : gate ≡ g = ground (arith, eq_iff gate g) in
      let there : gate_status a g rows ≡ o =
        ap (λ x. gate_status x g rows) (sym same_agent)
        ∙ ap (λ x. gate_status agent x rows) (sym same_gate)
        ∙ h in
      inserted_here o a g agent gate rows h y there
  | inr n ↦ inserted_elsewhere o a g agent gate rows h n
]

-- What a statement on one gate does to all.
abbrev pub Sets : (Option String → Option String) → String → String → Tables → Tables → Type 0
Sets f agent gate t t' =
    ((a g : String)
      → gate_status a g t'.gates ≡ (
          if agent == a && gate == g then f (gate_status a g t.gates) else gate_status a g t.gates))
    × (t'.beads ≡ t.beads)

abbrev to_satisfied : Option String → Option String
to_satisfied o = changed_to o "satisfied"

abbrev pub to_pending : Option String → Option String
to_pending o = changed_to o "pending"

upsert_for-Sets :
    (o : Option Bead) (agent gate : String) (t t' : Tables) (u : Unit)
    → upsert_for o agent gate t ≡ (ok u, t')
    → Sets or_pending agent gate t t'
upsert_for-Sets none agent gate t t' u h = cc
upsert_for-Sets (some b) agent gate t t' u h =
    let e : record t { gates = insert_gate (gate_status agent gate t.gates) agent gate t.gates }
        ≡ t' =
      cc in
    (
      λ a g.
          ap (λ (s : Tables). gate_status a g s.gates) (sym e)
          ∙ insert_gate-status (gate_status agent gate t.gates) a g agent gate t.gates refl,
      ap (λ (s : Tables). s.beads) (sym e),
    )

pub upsert_gate-Sets :
    (agent gate : String) (t t' : Tables) (u : Unit)
    → upsert_gate agent gate t ≡ (ok u, t')
    → Sets or_pending agent gate t t'
unfolding upsert_gate
upsert_gate-Sets agent gate t t' u h = upsert_for-Sets (Dict.get agent t.beads) agent gate t t' u h

mark_gate_satisfied-Sets :
    (now : ℕ) (agent gate : String) (t t' : Tables) (u : Unit)
    → mark_gate_satisfied now agent gate t ≡ (ok u, t')
    → Sets to_satisfied agent gate t t'
unfolding mark_gate_satisfied
mark_gate_satisfied-Sets now agent gate t t' u h =
    let e : record t { gates = map (set_status agent gate "satisfied" (some now)) t.gates } ≡ t' =
      cc in
    (
      λ a g.
          ap (λ (s : Tables). gate_status a g s.gates) (sym e)
          ∙ map-set_status agent gate "satisfied" (some now) a g t.gates,
      ap (λ (s : Tables). s.beads) (sym e),
    )

pub clear_gate-Sets :
    (agent gate : String) (t t' : Tables) (u : Unit)
    → clear_gate agent gate t ≡ (ok u, t')
    → Sets to_pending agent gate t t'
unfolding clear_gate
clear_gate-Sets agent gate t t' u h =
    let e : record t { gates = map (set_status agent gate "pending" none) t.gates } ≡ t' = cc in
    (
      λ a g.
          ap (λ (s : Tables). gate_status a g s.gates) (sym e)
          ∙ map-set_status agent gate "pending" none a g t.gates,
      ap (λ (s : Tables). s.beads) (sym e),
    )

reply-ok :
    (r : Answer Unit × World) (w' : World) → reply r ≡ (200, w') → (u : Unit) × (r ≡ (ok u, w'))
reply-ok (ok u, w) w' h = (u, cc)
reply-ok (fail e, w) w' h =
    let bad : 500 ≡ 200 = ap (λ (p : ℕ × World). p.0) h in absurd (omega (arith, bad))

unless_bad-ok :
    (test : Bool) (w : World) (answer : ℕ × World) (w' : World)
    → unless_bad test w answer ≡ (200, w')
    → answer ≡ (200, w')
unless_bad-ok true w answer w' h =
    let bad : 400 ≡ 200 = ap (λ (p : ℕ × World). p.0) h in absurd (omega (arith, bad))
unless_bad-ok false w answer w' h = h

satisfied_of : (o : Option String) → to_satisfied (or_pending o) ≡ some "satisfied"
satisfied_of none = refl
satisfied_of (some s) = refl

satisfied_after :
    (test : Bool) (before between last : Option String)
    → between ≡ (if test then or_pending before else before)
    → last ≡ (if test then to_satisfied between else between)
    → last ≡ (if test then some "satisfied" else before)
satisfied_after true before between last h k = k ∙ ap to_satisfied h ∙ satisfied_of before
satisfied_after false before between last h k = k ∙ h

-- After a successful request to satisfy a gate this gate is satisfied, whether it had a row or not, and
-- every other gate and all beads are what they were.
pub handle_satisfy_gate_lem :
    (faults : Faults) (now : ℕ) (agent gate : String) (w w' : World)
    → handle_satisfy_gate faults now agent gate w ≡ (200, w')
    → ((a g : String)
        → gate_status a g w'.tables.gates
          ≡ (if agent == a && gate == g then some "satisfied" else gate_status a g w.tables.gates))
      × (w'.tables.beads ≡ w.tables.beads)
unfolding handle_satisfy_gate
handle_satisfy_gate_lem faults now agent gate w w' h =
    let upserted = call faults (upsert_gate agent gate) w in
    let body =
      bind (call faults (upsert_gate agent gate))
        (λ u. call faults (mark_gate_satisfied now agent gate)) w in
    let (u, done) =
      reply-ok body w' (unless_bad-ok (agent == "" || gate == "") w (reply body) w' h) in
    let (v, w1, first, second) =
      continue-ok (λ (u : Unit). call faults (mark_gate_satisfied now agent gate)) upserted u w'
        done in
    let (rows, beads) =
      upsert_gate-Sets agent gate w.tables w1.tables v
        (call-ok faults (upsert_gate agent gate) w v w1 first) in
    let (rows1, beads1) =
      mark_gate_satisfied-Sets now agent gate w1.tables w'.tables u
        (call-ok faults (mark_gate_satisfied now agent gate) w1 u w' second) in
    (
      λ a g.
          satisfied_after (agent == a && gate == g) (gate_status a g w.tables.gates)
            (gate_status a g w1.tables.gates) (gate_status a g w'.tables.gates) (rows a g)
            (rows1 a g),
      beads1 ∙ beads,
    )

-- After a successful request to clear a gate this gate is pending if it has a row and has none
-- otherwise, and every other gate and all beads are what they were.
handle_clear_gate_lem :
    (faults : Faults) (agent gate : String) (w w' : World)
    → handle_clear_gate faults agent gate w ≡ (200, w')
    → ((a g : String)
        → gate_status a g w'.tables.gates ≡ (
            if agent == a && gate == g
            then to_pending (gate_status a g w.tables.gates)
            else gate_status a g w.tables.gates))
      × (w'.tables.beads ≡ w.tables.beads)
unfolding handle_clear_gate
handle_clear_gate_lem faults agent gate w w' h =
    let body = call faults (clear_gate agent gate) w in
    let (u, done) =
      reply-ok body w' (unless_bad-ok (agent == "" || gate == "") w (reply body) w' h) in
    clear_gate-Sets agent gate w.tables w'.tables u
      (call-ok faults (clear_gate agent gate) w u w' done)
