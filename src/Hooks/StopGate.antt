-- ===== src/Hooks/StopGate.antt =====
-- The decision gate that a Stop must pass (stop_gate of Hooks/Emit, from internal/server/http_hooks.go):
-- who passes it.
use kbeads.Prelude.{
  String, Bool, true, false, Option, none, some, ◌≡◌, ◌⊎◌, inl, inr, refl, sym, ap, ◌∙◌, arith,
  eq_iff, eq_refl, subst,
}
use kbeads.Prelude.Dict
use kbeads.Model.Bead.{Bead}
use kbeads.Server.Store.{Answer, ok, fail, Tables, Error, row_of}
use kbeads.Server.Actions.{World, Faults, call, call-ok, call-fail}
use kbeads.Server.Beads.{Env}
use kbeads.Server.Update.{get_bead}
use kbeads.Server.UpdateSteps.{get_bead-IsRead}
use kbeads.Server.Gates.{gate_status, upsert_gate, is_gate_satisfied, satisfied, upsert_for}
use kbeads.Server.GateProofs.{or_pending, upsert_gate-Sets}
use kbeads.Hooks.Emit.{
  satisfied_by, by_of, is_allowed, consume, when_allowed, when_satisfied, stop_gate,
}

-- The decision gate of an agent.
abbrev pub decision : String → Tables → Option String
decision id t = gate_status id "decision" t.gates

or_pending-satisfied : (o : Option String) → satisfied (or_pending o) ≡ true → o ≡ some "satisfied"
or_pending-satisfied none h = absurd (ground (arith, h))
or_pending-satisfied (some s) h = ap some (ground (arith, eq_iff s "satisfied", h))

pub satisfied-some : (o : Option String) → satisfied o ≡ true → o ≡ some "satisfied"
satisfied-some none h = absurd (ground (arith, h))
satisfied-some (some s) h = ap some (ground (arith, eq_iff s "satisfied", h))

upsert_for-fail :
    (o : Option Bead) (agent gate : String) (t t' : Tables) (e : Error)
    → upsert_for o agent gate t ≡ (fail e, t')
    → t' ≡ t
upsert_for-fail none agent gate t t' e h = cc
upsert_for-fail (some b) agent gate t t' e h = cc

upsert_gate-fail :
    (agent gate : String) (t t' : Tables) (e : Error)
    → upsert_gate agent gate t ≡ (fail e, t')
    → t' ≡ t
unfolding upsert_gate
upsert_gate-fail agent gate t t' e h = upsert_for-fail (Dict.get agent t.beads) agent gate t t' e h

-- What the upsert of the gate leaves, whether it succeeds or not.
pub Upserted : String → Tables → Tables → Type 0
Upserted id t t' =
    ((decision id t' ≡ decision id t) ⊎ (decision id t' ≡ or_pending (decision id t)))
    × (t'.beads ≡ t.beads)

upserted :
    (faults : Faults) (id : String) (w : World) (r : Answer Unit × World)
    → call faults (upsert_gate id "decision") w ≡ r
    → Upserted id w.tables r.1.tables
unfolding Upserted
upserted faults id w (ok u, w1) h =
    let (rows, beads) =
      upsert_gate-Sets id "decision" w.tables w1.tables u
        (call-ok faults (upsert_gate id "decision") w u w1 h) in
    (inr (rows id "decision" ∙ ground (arith, eq_refl id)), beads)
upserted faults id w (fail e, w1) h =
    let same : w1.tables ≡ w.tables = elim (call-fail faults (upsert_gate id "decision") w e w1 h) [
      | inl unchanged ↦ unchanged
      | inr failed ↦ upsert_gate-fail id "decision" w.tables w1.tables e failed
    ] in
    (inl (ap (λ (t : Tables). decision id t) same), ap (λ (t : Tables). t.beads) same)

-- The gate was satisfied, and the agent's bead names a proper way.
pub record Passes (env : Env) (id : String) (t : Tables) : Type 0 where
  pub row : Bead
  pub found : Dict.get id t.beads ≡ some row
  pub properly :
      (satisfied_by env row ≡ "yield")
      ⊎ ((satisfied_by env row ≡ "operator") ⊎ (satisfied_by env row ≡ "manual-force"))
  pub open_gate : decision id t ≡ some "satisfied"

is_allowed-one_of :
    (by : String)
    → is_allowed by ≡ true
    → (by ≡ "yield") ⊎ ((by ≡ "operator") ⊎ (by ≡ "manual-force"))
is_allowed-one_of by h =
    ground (arith, h, eq_iff by "yield", eq_iff by "operator", eq_iff by "manual-force")

satisfied_by-row :
    (env : Env) (b row : Bead) → row_of b ≡ row_of row → satisfied_by env b ≡ satisfied_by env row
unfolding satisfied_by row_of
satisfied_by-row env b row e =
    let same : b.fields ≡ row.fields = ap (λ (x : Bead). x.fields) e in rw same refl

-- The bead that is read, if its field is allowed.
read_allowed :
    (env : Env) (id : String) (w : World) (r : Answer Bead × World)
    → get_bead env id w ≡ r
    → is_allowed (by_of env r) ≡ true
    → (row : Bead) × (Dict.get id w.tables.beads ≡ some row)
      × (is_allowed (satisfied_by env row) ≡ true)
read_allowed env id w (fail e, w1) h a = absurd (ground (arith, a))
read_allowed env id w (ok b, w1) h a =
    let ((row, found, same), tables) = get_bead-IsRead env id w w1 b h in
    (row, found, ap is_allowed (sym (satisfied_by-row env b row same)) ∙ a)

when_allowed-none :
    (test : Bool) (env : Env) (id : String) (w w' : World)
    → when_allowed test env id w ≡ (none, w')
    → (test ≡ true) × (w' ≡ consume env id w)
when_allowed-none true env id w w' h = (refl, cc)
when_allowed-none false env id w w' h = cc

-- Who gets through: the gate was found satisfied, and the bead read then was allowed.
unfoldable pub Through : Env → String → World → World → Type 0
Through env id w w' =
    (w1 : World) × Upserted id w.tables w1.tables
    × (satisfied (decision id w1.tables) ≡ true)
    × (is_allowed (by_of env (get_bead env id w1)) ≡ true)
    × (w' ≡ consume env id (get_bead env id w1).1)

is_gate_satisfied-true :
    (id : String) (t t' : Tables)
    → is_gate_satisfied id "decision" t ≡ (ok true, t')
    → (satisfied (decision id t) ≡ true) × (t' ≡ t)
unfolding is_gate_satisfied
is_gate_satisfied-true id t t' h = (cc, cc)

when_satisfied-none :
    (env : Env) (id : String) (w v w' : World) (r : Answer Bool × World)
    → Upserted id w.tables v.tables
    → call env.links.faults (is_gate_satisfied id "decision") v ≡ r
    → when_satisfied env id r ≡ (none, w')
    → Through env id w w'
unfolding Through
when_satisfied-none env id w v w' (ok true, w1) u h e =
    let got : is_gate_satisfied id "decision" v.tables ≡ (ok true, w1.tables) =
      call-ok env.links.faults (is_gate_satisfied id "decision") v true w1 h in
    let (was, same) = is_gate_satisfied-true id v.tables w1.tables got in
    let (allowed, end) =
      when_allowed-none (is_allowed (by_of env (get_bead env id w1))) env id (get_bead env id w1).1
        w' e in
    (
      w1,
      subst (Upserted id w.tables) (sym same) u,
      ap (λ (t : Tables). satisfied (decision id t)) same ∙ was,
      allowed,
      end,
    )
when_satisfied-none env id w v w' (ok false, w1) u h e = cc
when_satisfied-none env id w v w' (fail x, w1) u h e = cc

satisfied-before :
    (id : String) (t t' : Tables)
    → Upserted id t t'
    → satisfied (decision id t') ≡ true
    → decision id t ≡ some "satisfied"
unfolding Upserted
satisfied-before id t t' (inl same, beads) h =
    satisfied-some (decision id t) (ap satisfied (sym same) ∙ h)
satisfied-before id t t' (inr put, beads) h =
    or_pending-satisfied (decision id t) (ap satisfied (sym put) ∙ h)

pub stop_gate-Through :
    (env : Env) (id : String) (w w' : World) → stop_gate env id w ≡ (none, w') → Through env id w w'
unfolding stop_gate
stop_gate-Through env id w w' h =
    let f = env.links.faults in
    let v = call f (upsert_gate id "decision") w in
    when_satisfied-none env id w v.1 w' (call f (is_gate_satisfied id "decision") v.1)
      (upserted f id w v refl) refl h

pub Through-Passes :
    (env : Env) (id : String) (w w' : World) → Through env id w w' → Passes env id w.tables
unfolding Through Upserted
Through-Passes env id w w' (w1, u, was, allowed, end) =
    let (row, found, proper) = read_allowed env id w1 (get_bead env id w1) refl allowed in
    record {
      row = row;
      found = ap (λ m. Dict.get id m) (sym u.1) ∙ found;
      properly = is_allowed-one_of (satisfied_by env row) proper;
      open_gate = satisfied-before id w.tables w1.tables u was;
    }
