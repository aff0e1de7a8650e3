-- ===== src/Server/Actions.antt =====
-- Handlers as actions on the server's world: each store call may fail, and a transaction rolls back.
use kbeads.Prelude.{ℕ, suc, String, List, Option, none, some, ◌≡◌, ◌⊎◌, inl, inr, refl}
use kbeads.Sse.Hub.{SseHub}
use kbeads.Server.Store.{Answer, ok, fail, Error, fault, wrapped, Tables}

-- The store with the number of calls made of it, the SSE hub, and what has gone to NATS and JetStream.
pub record World : Type 0 where
  pub tables : Tables
  pub calls : ℕ
  pub hub : SseHub
  pub published : List (String × String)
  pub stream : List (String × String)

-- What the n-th store call runs into (a lost connection, a cancelled context), if anything.
abbrev pub Faults : Type 0
Faults = ℕ → Option String

abbrev pub Action : Type 0 → Type 0
Action A = World → Answer A × World

abbrev pub pure : {A : Type 0} → A → Action A
pure a w = (ok a, w)

abbrev pub failing : {A : Type 0} → Error → Action A
failing e w = (fail e, w)

abbrev pub continue : {A B : Type 0} → (A → Action B) → Answer A × World → Answer B × World
continue f (ok a, w) = f a w
continue f (fail e, w) = (fail e, w)

abbrev pub bind : {A B : Type 0} → Action A → (A → Action B) → Action B
bind m f w = continue f (m w)

-- fmt.Errorf("text: %w", err)
abbrev pub wrap_answer : {A : Type 0} → String → Answer A × World → Answer A × World
wrap_answer text (ok a, w) = (ok a, w)
wrap_answer text (fail e, w) = (fail (wrapped text e), w)

abbrev pub wrapping : {A : Type 0} → String → Action A → Action A
wrapping text m w = wrap_answer text (m w)

abbrev pub with_tables : {A : Type 0} → World → Answer A × Tables → Answer A × World
with_tables w (a, t) = (a, record w { tables = t })

-- One statement, where a fault leaves the tables as they are.
abbrev pub run_unless : {A : Type 0} → Option String → (Tables → Answer A × Tables) → Action A
run_unless (some why) query w = (fail (fault why), record w { calls = suc w.calls })
run_unless none query w = with_tables (record w { calls = suc w.calls }) (query w.tables)

unfoldable pub call : {A : Type 0} → Faults → (Tables → Answer A × Tables) → Action A
call faults query w = run_unless (faults w.calls) query w

abbrev pub nothing : Tables → Answer Unit × Tables
nothing t = (ok tt, t)

abbrev pub commit : {A : Type 0} → Option String → Tables → A → Action A
commit (some why) before a w = (
  fail (wrapped "commit transaction" (fault why)),
  record w { tables = before; calls = suc w.calls },
)
commit none before a w = (ok a, record w { calls = suc w.calls })

-- What comes back of a transaction's body: a rollback, or a commit that may fail.
abbrev pub finish : {A : Type 0} → Faults → Tables → Answer A × World → Answer A × World
finish faults before (fail e, w) = (fail e, record w { tables = before })
finish faults before (ok a, w) = commit (faults w.calls) before a w

-- RunInTransaction.
unfoldable pub run_in_transaction : {A : Type 0} → Faults → Action A → Action A
run_in_transaction faults body w =
    continue (λ u w1. finish faults w.tables (body w1))
      (wrap_answer "begin transaction" (call faults nothing w))

-- Reading a run back: what went well before an action that went well, and so on.
pub continue-ok :
    {A B : Type 0} (f : A → Action B) (r : Answer A × World) (b : B) (w' : World)
    → continue f r ≡ (ok b, w')
    → (a : A) × (w1 : World) × (r ≡ (ok a, w1)) × (f a w1 ≡ (ok b, w'))
continue-ok f (ok a, w1) b w' h = (a, w1, refl, h)
continue-ok f (fail e, w1) b w' h = cc

pub continue-fail :
    {A B : Type 0} (f : A → Action B) (r : Answer A × World) (e : Error) (w' : World)
    → continue f r ≡ (fail e, w')
    → (r ≡ (fail e, w')) ⊎ ((a : A) × (w1 : World) × (r ≡ (ok a, w1)) × (f a w1 ≡ (fail e, w')))
continue-fail f (ok a, w1) e w' h = inr (a, w1, refl, h)
continue-fail f (fail x, w1) e w' h = inl cc

pub wrap_answer-ok :
    {A : Type 0} (text : String) (r : Answer A × World) (a : A) (w' : World)
    → wrap_answer text r ≡ (ok a, w')
    → r ≡ (ok a, w')
wrap_answer-ok text (ok x, w1) a w' h = h
wrap_answer-ok text (fail e, w1) a w' h = cc

pub wrap_answer-fail :
    {A : Type 0} (text : String) (r : Answer A × World) (e : Error) (w' : World)
    → wrap_answer text r ≡ (fail e, w')
    → (x : Error) × (r ≡ (fail x, w'))
wrap_answer-fail text (ok x, w1) e w' h = cc
wrap_answer-fail text (fail x, w1) e w' h = (x, cc)

with_tables_lem :
    {A : Type 0} (w : World) (r : Answer A × Tables) (a : Answer A) (w' : World)
    → with_tables w r ≡ (a, w')
    → r ≡ (a, w'.tables)
with_tables_lem w (x, t) a w' h = cc

run_unless-ok :
    {A : Type 0} (o : Option String) (query : Tables → Answer A × Tables) (w : World) (a : A)
    (w' : World)
    → run_unless o query w ≡ (ok a, w')
    → query w.tables ≡ (ok a, w'.tables)
run_unless-ok (some why) query w a w' h = cc
run_unless-ok none query w a w' h =
    with_tables_lem (record w { calls = suc w.calls }) (query w.tables) (ok a) w' h

run_unless-fail :
    {A : Type 0} (o : Option String) (query : Tables → Answer A × Tables) (w : World) (e : Error)
    (w' : World)
    → run_unless o query w ≡ (fail e, w')
    → (w'.tables ≡ w.tables) ⊎ (query w.tables ≡ (fail e, w'.tables))
run_unless-fail (some why) query w e w' h = inl cc
run_unless-fail none query w e w' h =
    inr (with_tables_lem (record w { calls = suc w.calls }) (query w.tables) (fail e) w' h)

pub call-ok :
    {A : Type 0} (faults : Faults) (query : Tables → Answer A × Tables) (w : World) (a : A)
    (w' : World)
    → call faults query w ≡ (ok a, w')
    → query w.tables ≡ (ok a, w'.tables)
unfolding call
call-ok faults query w a w' h = run_unless-ok (faults w.calls) query w a w' h

pub call-fail :
    {A : Type 0} (faults : Faults) (query : Tables → Answer A × Tables) (w : World) (e : Error)
    (w' : World)
    → call faults query w ≡ (fail e, w')
    → (w'.tables ≡ w.tables) ⊎ (query w.tables ≡ (fail e, w'.tables))
unfolding call
call-fail faults query w e w' h = run_unless-fail (faults w.calls) query w e w' h

pub commit-ok :
    {A : Type 0} (o : Option String) (before : Tables) (x : A) (w : World) (a : A) (w' : World)
    → commit o before x w ≡ (ok a, w')
    → (x ≡ a) × (w'.tables ≡ w.tables)
commit-ok (some why) before x w a w' h = cc
commit-ok none before x w a w' h = (cc, cc)

commit-fail :
    {A : Type 0} (o : Option String) (before : Tables) (x : A) (w : World) (e : Error) (w' : World)
    → commit o before x w ≡ (fail e, w')
    → w'.tables ≡ before
commit-fail (some why) before x w e w' h = cc
commit-fail none before x w e w' h = cc

finish-ok :
    {A : Type 0} (faults : Faults) (before : Tables) (r : Answer A × World) (a : A) (w' : World)
    → finish faults before r ≡ (ok a, w')
    → (w1 : World) × (r ≡ (ok a, w1)) × (w'.tables ≡ w1.tables)
finish-ok faults before (fail e, w1) a w' h = cc
finish-ok faults before (ok x, w1) a w' h =
    let (same, tables) = commit-ok (faults w1.calls) before x w1 a w' h in (w1, cc, tables)

finish-fail :
    {A : Type 0} (faults : Faults) (before : Tables) (r : Answer A × World) (e : Error) (w' : World)
    → finish faults before r ≡ (fail e, w')
    → w'.tables ≡ before
finish-fail faults before (fail x, w1) e w' h = cc
finish-fail faults before (ok x, w1) e w' h = commit-fail (faults w1.calls) before x w1 e w' h

-- A transaction that commits has run its body from the tables at its start.
pub run_in_transaction-ok :
    {A : Type 0} (faults : Faults) (body : Action A) (w : World) (a : A) (w' : World)
    → run_in_transaction faults body w ≡ (ok a, w')
    → (w1 w2 : World) × (w1.tables ≡ w.tables) × (body w1 ≡ (ok a, w2)) × (w'.tables ≡ w2.tables)
unfolding run_in_transaction
run_in_transaction-ok faults body w a w' h =
    let (u, w1, begun, rest) =
      continue-ok (λ u w1. finish faults w.tables (body w1))
        (wrap_answer "begin transaction" (call faults nothing w)) a w' h in
    let start =
      call-ok faults nothing w u w1
        (wrap_answer-ok "begin transaction" (call faults nothing w) u w1 begun) in
    let (w2, run, end) = finish-ok faults w.tables (body w1) a w' rest in (w1, w2, cc, run, end)

-- A transaction that fails, wherever it does, leaves the tables as they were.
pub run_in_transaction-fail :
    {A : Type 0} (faults : Faults) (body : Action A) (w : World) (e : Error) (w' : World)
    → run_in_transaction faults body w ≡ (fail e, w')
    → w'.tables ≡ w.tables
unfolding run_in_transaction
run_in_transaction-fail faults body w e w' h =
    elim (continue-fail (λ u w1. finish faults w.tables (body w1))
      (wrap_answer "begin transaction" (call faults nothing w)) e w' h) [
        | inl early ↦
            let (x, broken) =
              wrap_answer-fail "begin transaction" (call faults nothing w) e w' early in
            elim (call-fail faults nothing w x w' broken) [ inl same ↦ same | inr never ↦ cc ]
        | inr (u, w1, begun, rest) ↦ finish-fail faults w.tables (body w1) e w' rest
      ]
