-- ===== src/Sse/Hub.antt =====
-- sseHub of internal/server/sse.go: broadcast, subscribe, unsubscribe, eventsSince, and the ways in
-- which the server drives the hub. A client's pointer is its `handle`.
use kbeads.Prelude.{
  ℕ, zero, suc, ◌+◌, ◌-◌, ◌%◌, ◌^◌, String, not, List, [], ◌∷◌, ◌++◌, none, some, map, length,
  get_elem?, set, replicate, keep, ltb, eqb, if◌then◌else◌,
}
use kbeads.Sse.Topic.{matches_topic}

-- sseRingBufferSize, and the capacity of a client's channel.
abbrev pub ring_size : ℕ
ring_size = 1000

abbrev pub channel_size : ℕ
channel_size = 64

pub record SseEvent : Type 0 where
  pub id : ℕ  -- uint64
  pub topic : String
  pub payload : String

pub record SseClient : Type 0 where
  pub handle : ℕ
  pub topics : List String
  pub ch : List SseEvent

pub record SseHub : Type 0 where
  pub clients : List SseClient
  pub allocated : ℕ  -- the clients made so far; the next pointer
  pub next_id : ℕ  -- uint64
  pub ring : List SseEvent
  pub ring_pos : ℕ
  pub ring_len : ℕ

unfoldable pub new_sse_hub : SseHub
new_sse_hub = record {
  clients = [];
  allocated = 0;
  next_id = 0;
  ring = replicate ring_size (record { id = 0; topic = ""; payload = "" });
  ring_pos = 0;
  ring_len = 0;
}

-- The `select` with a `default`: the send to a full channel is dropped.
unfoldable pub deliver : SseEvent → SseClient → SseClient
deliver evt c =
    if matches_topic c.topics evt.topic
    then (if ltb (length c.ch) channel_size then record c { ch = c.ch ++ evt ∷ [] } else c)
    else c

-- The next id, an atomic addition on a uint64.
abbrev pub add_id : ℕ → ℕ
add_id n = (n + 1) % 2 ^ 64

abbrev pub new_event : SseHub → String → String → SseEvent
new_event h topic payload = record { id = add_id h.next_id; topic = topic; payload = payload }

-- A broadcast is three steps, between which those of other goroutines may come: it takes its id, an atomic
-- addition; stores the event in the ring, under ringMu; and fans it out, under mu.
unfoldable pub take_id : SseHub → SseHub
take_id h = record h { next_id = add_id h.next_id }

unfoldable pub store_event : SseEvent → SseHub → SseHub
store_event evt h = record h {
  ring = set h.ring h.ring_pos evt;
  ring_pos = (h.ring_pos + 1) % ring_size;
  ring_len = if ltb h.ring_len ring_size then h.ring_len + 1 else h.ring_len;
}

unfoldable pub fan_out : SseEvent → SseHub → SseHub
unfolding deliver
fan_out evt h = record h { clients = map (deliver evt) h.clients }

-- A broadcast without steps of others between.
unfoldable pub broadcast : String → String → SseHub → SseHub
unfolding take_id store_event fan_out
broadcast topic payload h =
    let evt = new_event h topic payload in fan_out evt (store_event evt (take_id h))

unfoldable pub subscribe : List String → SseHub → SseHub × SseClient
subscribe topics h =
    let c : SseClient = record { handle = h.allocated; topics = topics; ch = [] } in
    (record h { allocated = h.allocated + 1; clients = c ∷ h.clients }, c)

unfoldable pub unsubscribe : ℕ → SseHub → SseHub
unsubscribe handle h = record h { clients = keep (λ c. not (eqb c.handle handle)) h.clients }

-- The loop `for i := range h.ringLen` with `rounds` iterations left.
unfoldable pub collect : ℕ → ℕ → ℕ → ℕ → List SseEvent → List SseEvent
collect zero i start last_id ring = []
collect (suc rounds) i start last_id ring =
    let rest = collect rounds (i + 1) start last_id ring in
    elim (get_elem? ring ((start + i) % ring_size)) [
      | none ↦ rest
      | some evt ↦ if ltb last_id evt.id then evt ∷ rest else rest
    ]

-- `ringPos - ringLen` may be negative in Go; then the size is added.
abbrev pub ring_start : ℕ → ℕ → ℕ
ring_start ring_pos ring_len =
    if ltb ring_pos ring_len then ring_pos + ring_size - ring_len else ring_pos - ring_len

unfoldable pub events_since : ℕ → SseHub → List SseEvent
unfolding collect
events_since last_id h =
    let found = collect h.ring_len 0 (ring_start h.ring_pos h.ring_len) last_id h.ring in
    if eqb h.ring_len 0 then [] else found

-- `evt := <-client.ch` in handleEventStream, for the client of that stream.
abbrev take_one : ℕ → SseClient → SseClient
take_one handle c =
    if eqb c.handle handle then (record c { ch = elim c.ch [ [] ↦ [] | e ∷ rest ↦ rest ] }) else c

unfoldable pub receive : ℕ → SseHub → SseHub
receive handle h = record h { clients = map (take_one handle) h.clients }
