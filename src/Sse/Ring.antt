-- ===== src/Sse/Ring.antt =====
-- What a reconnecting client is replayed from the ring buffer of internal/server/sse.go.
use mathlib.Core.List.{reverse}
use kbeads.Prelude.{
  ℕ, ◌-◌, min, String, ◌≡◌, refl, ap, ◌∙◌, inl, inr, List, [], ◌∷◌, length, take, keep, eqb, ltb,
  leb, ◌++◌, sym, arith, Bool-cases,
}
use kbeads.Sse.Hub.{
  SseEvent, SseHub, ring_size, new_sse_hub, new_event, take_id, store_event, fan_out, subscribe,
  unsubscribe, receive, events_since,
}
use kbeads.Sse.Buffers.{
  Buffers, Numbered, new_sse_hub-Buffers, store_event-Buffers, take-all, keep-reverse, collect-eq,
  keep-take,
}

take-min : (n : ℕ) (hist : List SseEvent) → take (min (length hist) n) hist ≡ take n hist
take-min n hist = elim (Bool-cases (leb (length hist) n)) [
  | inl y ↦
      let e : min (length hist) n ≡ length hist = ground (arith, y) in
      rw e (sym (take-all n hist (ground (arith, y))))
  | inr o ↦ let e : min (length hist) n ≡ n = ground (arith, o) in rw e refl
]

-- Of the newest 1000 events stored those with a later id, in the order in which they were stored.
abbrev pub stored_after : ℕ → List SseEvent → List SseEvent
stored_after last_id hist = reverse (keep (λ e. ltb last_id e.id) (take ring_size hist))

events_since-stored_after :
    (last_id : ℕ) (h : SseHub) (hist : List SseEvent)
    → Buffers h hist
    → events_since last_id h ≡ stored_after last_id hist
unfolding events_since
events_since-stored_after last_id h hist b =
    let all : take h.ring_len hist ≡ take ring_size hist =
      ap (λ n. take n hist) b.len ∙ take-min ring_size hist in
    elim (Bool-cases (eqb h.ring_len 0)) [
      | inl y ↦
          let z : h.ring_len ≡ 0 = ground (arith, y) in
          let nothing : take h.ring_len hist ≡ [] = ap (λ n. take n hist) z in
          rw y (ap (λ l. reverse (keep (λ e. ltb last_id e.id) l)) (sym nothing ∙ all))
      | inr n ↦ rw n (
          collect-eq h.ring_len 0 last_id h hist b (omega arith)
          ∙ keep-reverse (λ e. ltb last_id e.id) (take h.ring_len hist)
          ∙ ap (λ l. reverse (keep (λ e. ltb last_id e.id) l)) all)
    ]

-- The hub, the events that have an id and are not stored yet, and those stored, newest first, after any
-- steps of broadcasts and of streams in any order.
pub data Reach : SseHub → List SseEvent → List SseEvent → Type 0 where
  fresh : Reach new_sse_hub [] []
  begin :
      {h : SseHub} {flying hist : List SseEvent} (topic payload : String)
      → Reach h flying hist
      → Reach (take_id h) (new_event h topic payload ∷ flying) hist
  store :
      {h : SseHub} {hist : List SseEvent} (before after : List SseEvent) (evt : SseEvent)
      → Reach h (before ++ evt ∷ after) hist
      → Reach (store_event evt h) (before ++ after) (evt ∷ hist)
  spread :
      {h : SseHub} {flying hist : List SseEvent} (evt : SseEvent)
      → Reach h flying hist
      → Reach (fan_out evt h) flying hist
  connect :
      {h : SseHub} {flying hist : List SseEvent} (topics : List String)
      → Reach h flying hist
      → Reach (subscribe topics h).0 flying hist
  disconnect :
      {h : SseHub} {flying hist : List SseEvent} (handle : ℕ)
      → Reach h flying hist
      → Reach (unsubscribe handle h) flying hist
  read :
      {h : SseHub} {flying hist : List SseEvent} (handle : ℕ)
      → Reach h flying hist
      → Reach (receive handle h) flying hist

same_ring :
    {h k : SseHub} {hist : List SseEvent}
    → k.ring ≡ h.ring
    → k.ring_pos ≡ h.ring_pos
    → k.ring_len ≡ h.ring_len
    → Buffers h hist
    → Buffers k hist
same_ring {h} {k} {hist} r p l b = record {
  sized = ap length r ∙ b.sized;
  pos = p ∙ b.pos;
  len = l ∙ b.len;
  slots = λ j lt. rw (r, p) (b.slots j (omega (arith, l)));
}

subscribe-Buffers :
    (topics : List String) (h : SseHub) (hist : List SseEvent)
    → Buffers h hist
    → Buffers (subscribe topics h).0 hist
unfolding subscribe
subscribe-Buffers topics h hist b = same_ring refl refl refl b

unsubscribe-Buffers :
    (handle : ℕ) (h : SseHub) (hist : List SseEvent)
    → Buffers h hist
    → Buffers (unsubscribe handle h) hist
unfolding unsubscribe
unsubscribe-Buffers handle h hist b = same_ring refl refl refl b

receive-Buffers :
    (handle : ℕ) (h : SseHub) (hist : List SseEvent)
    → Buffers h hist
    → Buffers (receive handle h) hist
unfolding receive
receive-Buffers handle h hist b = same_ring refl refl refl b

take_id-Buffers : (h : SseHub) (hist : List SseEvent) → Buffers h hist → Buffers (take_id h) hist
unfolding take_id
take_id-Buffers h hist b = same_ring refl refl refl b

fan_out-Buffers :
    (evt : SseEvent) (h : SseHub) (hist : List SseEvent)
    → Buffers h hist
    → Buffers (fan_out evt h) hist
unfolding fan_out
fan_out-Buffers evt h hist b = same_ring refl refl refl b

Reach-Buffers : {h : SseHub} {flying hist : List SseEvent} → Reach h flying hist → Buffers h hist
Reach-Buffers fresh = new_sse_hub-Buffers
Reach-Buffers (begin {h} {flying} {hist} topic payload r) = take_id-Buffers h hist (Reach-Buffers r)
Reach-Buffers (store {h} {hist} before after evt r) =
    store_event-Buffers h hist evt (Reach-Buffers r)
Reach-Buffers (spread {h} {flying} {hist} evt r) = fan_out-Buffers evt h hist (Reach-Buffers r)
Reach-Buffers (connect {h} {flying} {hist} topics r) =
    subscribe-Buffers topics h hist (Reach-Buffers r)
Reach-Buffers (disconnect {h} {flying} {hist} handle r) =
    unsubscribe-Buffers handle h hist (Reach-Buffers r)
Reach-Buffers (read {h} {flying} {hist} handle r) = receive-Buffers handle h hist (Reach-Buffers r)

-- However clients come, read and go, and however the steps of broadcasts fall between each other, a replay
-- from `last_id` is exactly the events with a later id among the newest 1000 stored, in the order in which
-- they were stored: none of them is left out, and an id too old for the buffer gives the whole buffer.
pub replay_exact :
    {h : SseHub} {flying hist : List SseEvent} (last_id : ℕ)
    → Reach h flying hist
    → events_since last_id h ≡ reverse (keep (λ e. ltb last_id e.id) (take 1000 hist))
replay_exact {h} {flying} {hist} last_id r =
    events_since-stored_after last_id h hist (Reach-Buffers r)

-- Where the events were stored in the order of their ids, these are the ones that came after `last_id` and
-- are still among the newest 1000.
replay_in_turn :
    {h : SseHub} {flying hist : List SseEvent} (last_id : ℕ)
    → Reach h flying hist
    → Numbered hist
    → events_since last_id h ≡ reverse (take (min ring_size (length hist - last_id)) hist)
replay_in_turn {h} {flying} {hist} last_id r num =
    replay_exact last_id r
    ∙ ap reverse
        (keep-take 1000 last_id (min ring_size (length hist - last_id)) hist num (omega arith))
