-- ===== src/Server/GateRows.antt =====
-- The statements on gates (internal/store/postgres/gates.go), over a sound store.
use kbeads.Prelude.{
  ℕ, String, Bool, ◌&&◌, List, [], ◌∷◌, Option, none, some, map, ◌==◌, ◌≡◌, inl, inr, refl, All,
  All-append, Bool-cases,
}
use kbeads.Prelude.Dict
use kbeads.Prelude.Dict.{Dict, get-put, get-remove}
use kbeads.Model.Bead.{Bead}
use kbeads.Server.Store.{GateRow, Tables}
use kbeads.Server.Gates.{
  gate_status, insert_gate, upsert_for, upsert_gate, set_status, mark_gate_satisfied, clear_gate,
}
use kbeads.Server.Soundness.{Known, IsSound, All-map, Known-some}

module _ (json_valid : String → Bool) where
  insert_gate-Known :
      (o : Option String) (m : Dict Bead) (agent gate : String) (rows : List GateRow)
      → Known m agent
      → All (λ g. Known m g.agent_bead_id) rows
      → All (λ g. Known m g.agent_bead_id) (insert_gate o agent gate rows)
  insert_gate-Known (some s) m agent gate rows k a = a
  insert_gate-Known none m agent gate rows k a =
      All-append (λ g. Known m g.agent_bead_id) rows
        (record { agent_bead_id = agent; gate_id = gate; status = "pending"; satisfied_at = none }
          ∷ [])
        a (k, tt)

  upsert_for-IsSound :
      (o : Option Bead) (agent gate : String) (t : Tables)
      → Dict.get agent t.beads ≡ o
      → IsSound json_valid t
      → IsSound json_valid (upsert_for o agent gate t).1
  upsert_for-IsSound none agent gate t e s = s
  upsert_for-IsSound (some b) agent gate t e s =
      let (labels, deps, comments, gates) = s.refs in
      record {
        rows = s.rows;
        refs = (
          labels,
          deps,
          comments,
          insert_gate-Known (gate_status agent gate t.gates) t.beads agent gate t.gates
              (Known-some t.beads agent b e) gates,
        );
      }

  pub upsert_gate-IsSound :
      (agent gate : String) (t : Tables)
      → IsSound json_valid t
      → IsSound json_valid (upsert_gate agent gate t).1
  unfolding upsert_gate
  upsert_gate-IsSound agent gate t s =
      upsert_for-IsSound (Dict.get agent t.beads) agent gate t refl s

  set_status-Known :
      (m : Dict Bead) (agent gate status : String) (at : Option ℕ) (rows : List GateRow)
      → All (λ g. Known m g.agent_bead_id) rows
      → All (λ g. Known m g.agent_bead_id) (map (set_status agent gate status at) rows)
  set_status-Known m agent gate status at rows a =
      All-map (λ g. Known m g.agent_bead_id) (set_status agent gate status at) rows
        (λ g h. elim (Bool-cases (g.agent_bead_id == agent && g.gate_id == gate)) [
          | inl y ↦ rw y h
          | inr n ↦ rw n h
        ])
        a

  pub mark_gate-IsSound :
      (now : ℕ) (agent gate : String) (t : Tables)
      → IsSound json_valid t
      → IsSound json_valid (mark_gate_satisfied now agent gate t).1
  unfolding mark_gate_satisfied
  mark_gate-IsSound now agent gate t s =
      let (labels, deps, comments, gates) = s.refs in
      record {
        rows = s.rows;
        refs = (
          labels,
          deps,
          comments,
          set_status-Known t.beads agent gate "satisfied" (some now) t.gates gates,
        );
      }

  pub clear_gate-IsSound :
      (agent gate : String) (t : Tables)
      → IsSound json_valid t
      → IsSound json_valid (clear_gate agent gate t).1
  unfolding clear_gate
  clear_gate-IsSound agent gate t s =
      let (labels, deps, comments, gates) = s.refs in
      record {
        rows = s.rows;
        refs = (
          labels,
          deps,
          comments,
          set_status-Known t.beads agent gate "pending" none t.gates gates,
        );
      }
