-- ===== src/Server/Gates.antt =====
-- The session gates of internal/store/postgres/gates.go, and their handlers in
-- internal/server/http_gates.go.
use kbeads.Prelude.{
  ℕ, String, Bool, true, false, ◌&&◌, ◌||◌, List, [], ◌∷◌, ◌++◌, Option, none, some, map, ◌==◌,
  if◌then◌else◌,
}
use kbeads.Prelude.Dict
use kbeads.Model.Bead.{Bead}
use kbeads.Server.Store.{Answer, ok, fail, fault, Tables, GateRow}
use kbeads.Server.Actions.{World, Faults, bind, call}

abbrev pub is_gate : String → String → GateRow → Bool
is_gate agent gate r = r.agent_bead_id == agent && r.gate_id == gate

-- SELECT status FROM session_gates, by the key.
unfoldable pub gate_status : String → String → List GateRow → Option String
gate_status agent gate [] = none
gate_status agent gate (r ∷ rows) =
    if r.agent_bead_id == agent && r.gate_id == gate
    then some r.status
    else gate_status agent gate rows

abbrev pub insert_gate : Option String → String → String → List GateRow → List GateRow
insert_gate (some status) agent gate rows = rows
insert_gate none agent gate rows =
    rows
    ++ record { agent_bead_id = agent; gate_id = gate; status = "pending"; satisfied_at = none }
      ∷ []

abbrev pub upsert_for : Option Bead → String → String → Tables → Answer Unit × Tables
upsert_for none agent gate t = (fail (fault "violates foreign key"), t)
upsert_for (some b) agent gate t =
    (ok tt, record t { gates = insert_gate (gate_status agent gate t.gates) agent gate t.gates })

-- INSERT ... ON CONFLICT DO NOTHING, with its foreign key.
unfoldable pub upsert_gate : String → String → Tables → Answer Unit × Tables
unfolding gate_status
upsert_gate agent gate t = upsert_for (Dict.get agent t.beads) agent gate t

abbrev pub set_status : String → String → String → Option ℕ → GateRow → GateRow
set_status agent gate status at r =
    if r.agent_bead_id == agent && r.gate_id == gate
    then (record r { status = status; satisfied_at = at })
    else r

unfoldable pub mark_gate_satisfied : ℕ → String → String → Tables → Answer Unit × Tables
mark_gate_satisfied now agent gate t =
    (ok tt, record t { gates = map (set_status agent gate "satisfied" (some now)) t.gates })

unfoldable pub clear_gate : String → String → Tables → Answer Unit × Tables
clear_gate agent gate t =
    (ok tt, record t { gates = map (set_status agent gate "pending" none) t.gates })

abbrev pub satisfied : Option String → Bool
satisfied none = false
satisfied (some status) = status == "satisfied"

-- No row is no error.
unfoldable pub is_gate_satisfied : String → String → Tables → Answer Bool × Tables
is_gate_satisfied agent gate t = (ok (satisfied (gate_status agent gate t.gates)), t)

-- An HTTP status code for a result.
abbrev pub reply : Answer Unit × World → ℕ × World
reply (ok u, w) = (200, w)
reply (fail e, w) = (500, w)

abbrev pub unless_bad : Bool → World → ℕ × World → ℕ × World
unless_bad true w answer = (400, w)
unless_bad false w answer = answer

unfoldable pub handle_satisfy_gate : Faults → ℕ → String → String → World → ℕ × World
unfolding upsert_gate mark_gate_satisfied
handle_satisfy_gate faults now agent gate w = unless_bad (agent == "" || gate == "") w (
    reply (
      bind (call faults (upsert_gate agent gate))
        (λ u. call faults (mark_gate_satisfied now agent gate)) w))

unfoldable pub handle_clear_gate : Faults → String → String → World → ℕ × World
unfolding clear_gate
handle_clear_gate faults agent gate w =
    unless_bad (agent == "" || gate == "") w (reply (call faults (clear_gate agent gate) w))
