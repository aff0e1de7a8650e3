-- ===== src/Hooks/HandlerProofs.antt =====
-- Which hooks of the advice run on a session event, and what the response says of them.
use kbeads.Prelude.{
  String, Bool, true, false, ◌||◌, List, [], ◌∷◌, ◌++◌, Option, none, some, map, ◌==◌,
  if◌then◌else◌, ◌≡◌, ◌⊎◌, inl, inr, refl, sym, ap, Bool-cases, append-nil, append_assoc,
}
use kbeads.Model.Bead.{Bead}
use kbeads.Hooks.Handler.{
  SessionEvent, HookResponse, AdviceFields, Run, RunResult, Host, execute, hook_of, run_hook,
  run_hooks, react, proceed, blocked_text, warning_text,
}
use kbeads.Hooks.Executor.{hook_timeout}

abbrev pub Hook : Type 0
Hook = Bead × AdviceFields

abbrev pub run_for : SessionEvent → AdviceFields → Run
run_for event f = record {
  command = f.hook_command;
  timeout = hook_timeout f.hook_seconds;
  cwd = event.cwd;
  env = ("KD_AGENT", event.agent_id) ∷ [];
}

abbrev with_hook : Bead → Option AdviceFields → List Hook → List Hook
with_hook b none hs = hs
with_hook b (some f) hs = (b, f) ∷ hs

abbrev failed_with : String → Option String → AdviceFields → Bool
failed_with policy none f = false
failed_with policy (some why) f = f.hook_on_failure == policy

-- The warning of a hook whose run failed under the policy "warn".
abbrev warning_of : Bead → AdviceFields → String → Option String → List String
warning_of b f output none = []
warning_of b f output (some why) =
    if f.hook_on_failure == "warn" then warning_text b why output ∷ [] else []

abbrev reason_of : Bead → AdviceFields → String → Option String → String
reason_of b f output none = ""
reason_of b f output (some why) = blocked_text b f why output

module _ (host : Host) (event : SessionEvent) where
  abbrev result_of : List Run → AdviceFields → RunResult
  result_of log f = host.shell log (run_for event f)

  abbrev pub runs_of : List Hook → List Run
  runs_of hs = map (λ h. run_for event h.1) hs

  -- Whether the hook, run after the given runs, fails with the policy "block".
  abbrev pub blocks : List Run → Hook → Bool
  blocks log (b, f) = failed_with "block" (result_of log f).error f

  abbrev pub any_blocks : List Run → List Hook → Bool
  any_blocks log [] = false
  any_blocks log ((b, f) ∷ hs) = blocks log (b, f) || any_blocks (log ++ run_for event f ∷ []) hs

  -- The warnings of hooks run one after the other.
  abbrev pub warnings_of : List Run → List Hook → List String
  warnings_of log [] = []
  warnings_of log ((b, f) ∷ hs) =
      warning_of b f (result_of log f).output (result_of log f).error
      ++ warnings_of (log ++ run_for event f ∷ []) hs

  abbrev pub reason_for : List Run → Hook → String
  reason_for log (b, f) = reason_of b f (result_of log f).output (result_of log f).error

  -- All hooks ran and none blocked.
  pub record AllRan (hs : List Hook) (resp : HookResponse) (log : List Run)
      (out : HookResponse × List Run) : Type 0 where
    pub none_blocked : any_blocks log hs ≡ false
    pub outcome :
        out ≡ (record resp { warnings = resp.warnings ++ warnings_of log hs }, log ++ runs_of hs)

  -- The first hook that blocked was the last to run.
  pub record Blocked (hs : List Hook) (resp : HookResponse) (log : List Run)
      (out : HookResponse × List Run) : Type 0 where
    pub earlier : List Hook
    pub blocker : Hook
    pub later : List Hook
    pub split_at : hs ≡ earlier ++ blocker ∷ later
    pub none_blocked : any_blocks log earlier ≡ false
    pub blocked : blocks (log ++ runs_of earlier) blocker ≡ true
    pub outcome : out ≡ (
      record resp {
        block = true;
        reason = reason_for (log ++ runs_of earlier) blocker;
        warnings = resp.warnings ++ warnings_of log earlier;
      },
      log ++ runs_of (earlier ++ blocker ∷ []),
    )

  -- The same loop over the hooks that are to run.
  run_all : List Hook → HookResponse → List Run → HookResponse × List Run
  run_all [] resp log = (resp, log)
  run_all ((b, f) ∷ hs) resp log =
      let result = result_of log f in
      proceed (react b f result result.error resp) (log ++ run_for event f ∷ [])
        (λ r l. run_all hs r l)

  react-block :
      (b : Bead) (f : AdviceFields) (r : RunResult) (e : Option String) (resp : HookResponse)
      → failed_with "block" e f ≡ true
      → react b f r e resp ≡ (true, record resp { block = true; reason = reason_of b f r.output e })
  react-block b f r none resp h = cc
  react-block b f r (some why) resp h = rw h refl

  react-pass :
      (b : Bead) (f : AdviceFields) (r : RunResult) (e : Option String) (resp : HookResponse)
      → failed_with "block" e f ≡ false
      → react b f r e resp
        ≡ (false, record resp { warnings = resp.warnings ++ warning_of b f r.output e })
  react-pass b f r none resp h = rw (append-nil resp.warnings) refl
  react-pass b f r (some why) resp h = elim (Bool-cases (f.hook_on_failure == "warn")) [
    | inl y ↦ rw (h, y) refl
    | inr n ↦ rw (h, n, append-nil resp.warnings) refl
  ]

  run_all-Blocked :
      (b : Bead) (f : AdviceFields) (hs : List Hook) (resp : HookResponse) (log : List Run)
      → blocks log (b, f) ≡ true
      → Blocked ((b, f) ∷ hs) resp log (run_all ((b, f) ∷ hs) resp log)
  unfolding run_all
  run_all-Blocked b f hs resp log h = record {
    earlier = [];
    blocker = (b, f);
    later = hs;
    split_at = refl;
    none_blocked = refl;
    blocked = rw (append-nil log) h;
    outcome =
        rw
          (
            append-nil log,
            append-nil resp.warnings,
            react-block b f (result_of log f) (result_of log f).error resp h,
          )
          refl;
  }

  abbrev pub Outcome : List Hook → HookResponse → List Run → HookResponse × List Run → Type 0
  Outcome hs resp log out = AllRan hs resp log out ⊎ Blocked hs resp log out

  run_all-pass :
      (b : Bead) (f : AdviceFields) (hs : List Hook) (resp : HookResponse) (log : List Run)
      → blocks log (b, f) ≡ false
      → run_all ((b, f) ∷ hs) resp log
        ≡ run_all hs
            (record resp {
              warnings =
                  resp.warnings ++ warning_of b f (result_of log f).output (result_of log f).error;
            })
            (log ++ run_for event f ∷ [])
  unfolding run_all
  run_all-pass b f hs resp log h =
      rw (react-pass b f (result_of log f) (result_of log f).error resp h) refl

  grow :
      (b : Bead) (f : AdviceFields) (hs : List Hook) (resp : HookResponse) (log : List Run)
      (out : HookResponse × List Run)
      → blocks log (b, f) ≡ false
      → Outcome hs
          (record resp {
            warnings =
                resp.warnings ++ warning_of b f (result_of log f).output (result_of log f).error;
          })
          (log ++ run_for event f ∷ [])
          out
      → Outcome ((b, f) ∷ hs) resp log out
  grow b f hs resp log out h (inl all) =
      let w = warning_of b f (result_of log f).output (result_of log f).error in
      let log1 = log ++ run_for event f ∷ [] in
      inl (record {
        none_blocked = rw (h, all.none_blocked) refl;
        outcome =
            rw
              (
                sym (append_assoc resp.warnings w (warnings_of log1 hs)),
                sym (append_assoc log (run_for event f ∷ []) (runs_of hs)),
              )
              all.outcome;
      })
  grow b f hs resp log out h (inr found) =
      let w = warning_of b f (result_of log f).output (result_of log f).error in
      let r = run_for event f in
      let log1 = log ++ r ∷ [] in
      inr (record {
        earlier = (b, f) ∷ found.earlier;
        blocker = found.blocker;
        later = found.later;
        split_at = ap (λ hs. (b, f) ∷ hs) found.split_at;
        none_blocked = rw (h, found.none_blocked) refl;
        blocked = rw (sym (append_assoc log (r ∷ []) (runs_of found.earlier))) found.blocked;
        outcome =
            rw
              (
                sym (append_assoc resp.warnings w (warnings_of log1 found.earlier)),
                sym (append_assoc log (r ∷ []) (runs_of found.earlier)),
                sym (append_assoc log (r ∷ []) (runs_of (found.earlier ++ found.blocker ∷ []))),
              )
              found.outcome;
      })

  run_all-Outcome :
      (hs : List Hook) (resp : HookResponse) (log : List Run)
      → Outcome hs resp log (run_all hs resp log)
  unfolding run_all
  run_all-Outcome [] resp log =
      inl (record {
        none_blocked = refl;
        outcome = rw (append-nil resp.warnings, append-nil log) refl;
      })
  run_all-Outcome ((b, f) ∷ hs) resp log = elim (Bool-cases (blocks log (b, f))) [
    | inl y ↦ inr (run_all-Blocked b f hs resp log y)
    | inr n ↦
        rw (run_all-pass b f hs resp log n) (grow b f hs resp log _ n (run_all-Outcome hs _ _))
  ]

proceed-cong :
    (p : Bool × HookResponse) (log : List Run)
    (f g : HookResponse → List Run → HookResponse × List Run)
    → ((r : HookResponse) (l : List Run) → f r l ≡ g r l)
    → proceed p log f ≡ proceed p log g
proceed-cong (true, resp) log f g e = refl
proceed-cong (false, resp) log f g e = e resp log

module _ (host : Host) (event : SessionEvent) (subs : List String) where
  -- The advice whose hook is to run, in the order of the list.
  pub hooks_of : List Bead → List Hook
  hooks_of [] = []
  hooks_of (b ∷ bs) = with_hook b (hook_of host event subs b) (hooks_of bs)

  run_hook-with :
      (b : Bead) (o : Option AdviceFields) (bs : List Bead) (hs : List Hook) (resp : HookResponse)
      (log : List Run)
      → ((r : HookResponse) (l : List Run)
          → run_hooks host event subs bs r l ≡ run_all host event hs r l)
      → run_hook host event subs b o resp log (λ r l. run_hooks host event subs bs r l)
        ≡ run_all host event (with_hook b o hs) resp log
  unfolding run_all execute
  run_hook-with b none bs hs resp log ih = ih resp log
  run_hook-with b (some f) bs hs resp log ih =
      let result = result_of host event log f in
      proceed-cong (react b f result result.error resp) (log ++ run_for event f ∷ [])
        (λ r l. run_hooks host event subs bs r l) (λ r l. run_all host event hs r l) ih

  run_hooks-all :
      (bs : List Bead) (resp : HookResponse) (log : List Run)
      → run_hooks host event subs bs resp log ≡ run_all host event (hooks_of bs) resp log
  unfolding run_hooks hooks_of run_all
  run_hooks-all [] resp log = refl
  run_hooks-all (b ∷ bs) resp log =
      run_hook-with b (hook_of host event subs b) bs (hooks_of bs) resp log
        (λ r l. run_hooks-all bs r l)

  pub run_hooks-Outcome :
      (bs : List Bead) (resp : HookResponse) (log : List Run)
      → Outcome host event (hooks_of bs) resp log (run_hooks host event subs bs resp log)
  run_hooks-Outcome bs resp log =
      rw (run_hooks-all bs resp log) (run_all-Outcome host event (hooks_of bs) resp log)
