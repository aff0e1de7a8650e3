-- ===== src/Eventbus/Dispatch.antt =====
-- What a dispatch does: which handlers run, in which order, and what is published.
use kbeads.Prelude.{
  ℕ, suc, ◌+◌, ◌<◌, zero, String, true, false, List, [], ◌∷◌, ◌++◌, Option, none, some, take,
  length, ◌==◌, eq_iff, eq_refl, ◌≡◌, ◌≢◌, ◌⊎◌, refl, ap, ◌∙◌, arith, All,
}
use kbeads.Prelude.Text.{append}
use kbeads.Prelude.Dict
use kbeads.Prelude.Dict.{Dict, get-put}
use kbeads.Prelude.Sorted.{SortSlice}
use kbeads.Eventbus.Bus.{
  Event, Result, Handler, Bus, Json, empty_result, before, matching_handlers, run_handlers,
  Dispatched, inject_actor_into_raw, subject_of, dispatch, publish_to_jet_stream, drop_first,
  unregister, register,
}

-- What handlers make of an event and a result, one after the other; their errors change nothing.
abbrev pub fold_handlers : List Handler → Event → Result → Event × Result
fold_handlers [] e r = (e, r)
fold_handlers (h ∷ hs) e r = let done = h.handle e r in fold_handlers hs done.event done.result

run_handlers_step :
    (ctx : ℕ → Option String) (poll : ℕ) (h : Handler) (hs : List Handler) (e : Event) (r : Result)
    → ctx poll ≡ none
    → run_handlers ctx poll (h ∷ hs) e r
      ≡ run_handlers ctx (suc poll) hs (h.handle e r).event (h.handle e r).result
unfolding run_handlers
run_handlers_step ctx poll h hs e r calm = rw (calm, run_handlers) refl

run_handlers_stop :
    (ctx : ℕ → Option String) (poll : ℕ) (h : Handler) (hs : List Handler) (e : Event) (r : Result)
    (why : String)
    → ctx poll ≡ some why
    → run_handlers ctx poll (h ∷ hs) e r
      ≡ record { event = e; result = r; error = some (append "eventbus: context canceled: " why) }
unfolding run_handlers
run_handlers_stop ctx poll h hs e r why stop = rw (stop, run_handlers) refl

run_handlers_cancelled :
    (ctx : ℕ → Option String) (n poll : ℕ) (hs : List Handler) (e : Event) (r : Result)
    (why : String)
    → n < length hs
    → ((k : ℕ) → k < poll + n → ctx k ≡ none)
    → ctx (poll + n) ≡ some why
    → run_handlers ctx poll hs e r ≡ record {
      event = (fold_handlers (take n hs) e r).0;
      result = (fold_handlers (take n hs) e r).1;
      error = some (append "eventbus: context canceled: " why);
    }
run_handlers_cancelled ctx n poll [] e r why lt calm stop = elim lt [ ]
run_handlers_cancelled ctx zero poll (h ∷ hs) e r why lt calm stop =
    run_handlers_stop ctx poll h hs e r why (ap ctx (omega arith) ∙ stop)
run_handlers_cancelled ctx (suc n) poll (h ∷ hs) e r why lt calm stop =
    run_handlers_step ctx poll h hs e r (calm poll (omega arith))
    ∙ run_handlers_cancelled ctx n (suc poll) hs (h.handle e r).event (h.handle e r).result why
        (omega arith) (λ k lt'. calm k (omega arith)) (ap ctx (omega arith) ∙ stop)

-- What a dispatch that is not cancelled comes to: the end without an error, or a panic, where JetStream is
-- attached and the event that is left has an actor and a raw text that is JSON null.
abbrev pub Completed : Json → Bus → Event → Result → Option Dispatched → Type 0
Completed json b e r o =
    ((d : Dispatched) × (o ≡ some d)
      × (d.result ≡ some r)
      × (d.error ≡ none)
      × (b.js ≡ false → d.published ≡ []))
    ⊎ ((o ≡ none) × (b.js ≡ true) × (e.actor ≢ "") × (json.unmarshal_object e.raw ≡ some none))

-- If the context is found cancelled before the handler number `n`, the first `n` handlers have run
-- and no other, their result comes back with the error, and nothing is published.
pub dispatch_cancelled :
    (by : SortSlice before) (json : Json) (ctx : ℕ → Option String) (now : ℕ) (b : Bus) (e : Event)
    (n : ℕ) (why : String)
    → n < length (matching_handlers by e.event_type b)
    → ((k : ℕ) → k < n → ctx k ≡ none)
    → ctx n ≡ some why
    → dispatch by json ctx now b (some e)
      ≡ some (record {
        event =
            some (fold_handlers (take n (matching_handlers by e.event_type b)) e empty_result).0;
        result =
            some (fold_handlers (take n (matching_handlers by e.event_type b)) e empty_result).1;
        error = some (append "eventbus: context canceled: " why);
        published = [];
      })
dispatch_cancelled by json ctx now b e n why lt calm stop =
    let hs = matching_handlers by e.event_type b in
    let run =
      run_handlers_cancelled ctx n 0 hs e empty_result why lt (λ k lt'. calm k (omega arith))
        (ap ctx (omega arith) ∙ stop) in
    unfold dispatch in ground (arith, run)

drop_first-absent :
    (id : String) (hs : List Handler) → All (λ h. h.id ≢ id) hs → drop_first id hs ≡ (hs, false)
unfolding drop_first
drop_first-absent id [] a = refl
drop_first-absent id (h ∷ hs) a = ground (arith, drop_first-absent id hs a.1, eq_iff h.id id, a.0)

drop_first-last :
    (h : Handler) (hs : List Handler)
    → All (λ g. g.id ≢ h.id) hs
    → drop_first h.id (hs ++ h ∷ []) ≡ (hs, true)
unfolding drop_first
drop_first-last h [] a = ground (arith, eq_iff h.id h.id)
drop_first-last h (g ∷ hs) a = ground (arith, drop_first-last h hs a.1, eq_iff g.id h.id, a.0)

-- A handler whose id is not in use yet is taken back by its id: the bus is as it was, with the
-- answer true; and a second removal changes nothing and answers false.
unregister-register :
    (h : Handler) (b : Bus)
    → All (λ g. g.id ≢ h.id) b.handlers
    → (unregister h.id (register h b) ≡ (b, true)) × (unregister h.id b ≡ (b, false))
unfolding unregister register
unregister-register h b a =
    (rw (drop_first-last h b.handlers a) refl, rw (drop_first-absent h.id b.handlers a) refl)

injected :
    (json : Json) (raw actor : String) (obj : Dict String) (a text : String)
    → json.unmarshal_object raw ≡ some (some obj)
    → json.marshal_string actor ≡ some a
    → json.marshal_object (Dict.put "actor" a obj) ≡ some text
    → inject_actor_into_raw json raw actor ≡ some text
unfolding inject_actor_into_raw
injected json raw actor obj a text read write out = ground arith

published_text :
    (json : Json) (now : ℕ) (e : Event) (obj : Dict String) (a text : String)
    → (e.raw == "") ≡ false
    → (e.actor == "") ≡ false
    → json.unmarshal_object e.raw ≡ some (some obj)
    → json.marshal_string e.actor ≡ some a
    → json.marshal_object (Dict.put "actor" a obj) ≡ some text
    → publish_to_jet_stream json now e ≡ some (e, (subject_of json e, text) ∷ [])
published_text json now e obj a text r n read write out =
    unfold publish_to_jet_stream in
    simp (r, n, injected json e.raw e.actor obj a text read write out)

-- What an external subscriber reads from the message of an event that came as a JSON object from a
-- named agent: the fields of the object, with `actor` set to the agent; and the subject of a hook
-- event names the agent too. The JSON library encodes the object, and reads back what it wrote.
published_actor :
    (json : Json) (now : ℕ) (e : Event) (obj : Dict String) (a text : String)
    → ((m : Dict String) (s : String)
        → json.marshal_object m ≡ some s
        → json.unmarshal_object s ≡ some (some m))
    → e.raw ≢ ""
    → e.actor ≢ ""
    → json.unmarshal_object e.raw ≡ some (some obj)
    → json.marshal_string e.actor ≡ some a
    → json.marshal_object (Dict.put "actor" a obj) ≡ some text
    → (publish_to_jet_stream json now e ≡ some (e, (subject_of json e, text) ∷ []))
      × ((m : Dict String) × (json.unmarshal_object text ≡ some (some m))
          × (Dict.get "actor" m ≡ some a)
          × ((k : String) → k ≢ "actor" → Dict.get k m ≡ Dict.get k obj))
published_actor json now e obj a text law raw named read write out =
    let r : (e.raw == "") ≡ false = ground (arith, eq_iff e.raw "") in
    let n : (e.actor == "") ≡ false = ground (arith, eq_iff e.actor "") in
    (
      published_text json now e obj a text r n read write out,
      (
        Dict.put "actor" a obj,
        law (Dict.put "actor" a obj) text out,
        ground (arith, get-put "actor" "actor" a obj, eq_refl "actor"),
        λ k ne. ground (arith, get-put "actor" k a obj, eq_iff "actor" k),
      ),
    )
