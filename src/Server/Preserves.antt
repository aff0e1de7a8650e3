-- ===== src/Server/Preserves.antt =====
-- Predicates on the tables that actions keep, put together the way the actions are.
use kbeads.Prelude.{String, Option, none, some}
use kbeads.Server.Store.{Answer, ok, fail, Tables}
use kbeads.Server.Actions.{
  World, Faults, Action, bind, continue, wrap_answer, wrapping, call, run_unless,
}

module _ (P : Tables → Type 0) where
  abbrev pub QueryPreserves : {A : Type 0} → (Tables → Answer A × Tables) → Type 0
  QueryPreserves query = (t : Tables) → P t → P (query t).1

  abbrev pub Preserves : {A : Type 0} → Action A → Type 0
  Preserves m = (w : World) → P w.tables → P (m w).1.tables

  module _ {A : Type 0} where
    run_unless-Preserves :
        (o : Option String) (query : Tables → Answer A × Tables)
        → QueryPreserves query
        → Preserves (run_unless o query)
    run_unless-Preserves (some why) query k w s = s
    run_unless-Preserves none query k w s = k w.tables s

    pub call-Preserves :
        (faults : Faults) (query : Tables → Answer A × Tables)
        → QueryPreserves query
        → Preserves (call faults query)
    unfolding call
    call-Preserves faults query k w s = run_unless-Preserves (faults w.calls) query k w s

    pub wrapping-Preserves :
        (text : String) (m : Action A) → Preserves m → Preserves (wrapping text m)
    wrapping-Preserves text m k w s = wrapped (m w) (k w s)
      where
        wrapped : (r : Answer A × World) → P r.1.tables → P (wrap_answer text r).1.tables
        wrapped (ok a, w1) s1 = s1
        wrapped (fail e, w1) s1 = s1

  module _ {A B : Type 0} where
    pub continue-Preserves :
        (f : A → Action B) (r : Answer A × World)
        → ((a : A) → Preserves (f a))
        → P r.1.tables
        → P (continue f r).1.tables
    continue-Preserves f (ok a, w) k s = k a w s
    continue-Preserves f (fail e, w) k s = s

    pub bind-Preserves :
        (m : Action A) (f : A → Action B)
        → Preserves m
        → ((a : A) → Preserves (f a))
        → Preserves (bind m f)
    bind-Preserves m f k l w s = continue-Preserves f (m w) l (k w s)
