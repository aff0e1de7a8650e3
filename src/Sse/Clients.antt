-- ===== src/Sse/Clients.antt =====
-- What a connected client finds in its channel.
use mathlib.Core.List.{map-map, map-id}
use kbeads.Prelude.{
  ℕ, zero, suc, ◌+◌, ◌≤◌, String, ◌≡◌, refl, sym, ap, ◌∙◌, Bool, inl, inr, List, [], ◌∷◌, ◌++◌, map,
  length, take, keep, ltb, arith, Bool-cases, length-append, append_assoc, append-nil,
}
use kbeads.Sse.Topic.{matches_topic}
use kbeads.Sse.Hub.{
  SseEvent, SseClient, SseHub, channel_size, add_id, new_event, deliver, broadcast, subscribe,
}

abbrev Message : Type 0
Message = String × String

-- Several broadcasts in a row, and the events that they make.
pub broadcast_all : List Message → SseHub → SseHub
broadcast_all [] h = h
broadcast_all ((topic, payload) ∷ ms) h = broadcast_all ms (broadcast topic payload h)

pub events_of : ℕ → List Message → List SseEvent
events_of n [] = []
events_of n ((topic, payload) ∷ ms) =
    record { id = add_id n; topic = topic; payload = payload } ∷ events_of (add_id n) ms

deliver_all : List SseEvent → SseClient → SseClient
deliver_all [] c = c
deliver_all (e ∷ es) c = deliver_all es (deliver e c)

abbrev pub wanted : List String → SseEvent → Bool
wanted topics e = matches_topic topics e.topic

take-length : {A : Type 0} (n : ℕ) (xs : List A) → length xs ≤ n → take n xs ≡ xs
take-length zero [] h = refl
take-length zero (x ∷ xs) h = absurd (omega arith)
take-length (suc n) [] h = refl
take-length (suc n) (x ∷ xs) h = ap (◌∷◌ x) (take-length n xs (omega arith))

take-append_full :
    {A : Type 0} (n : ℕ) (xs ys : List A) → length xs ≡ n → take n (xs ++ ys) ≡ take n xs
take-append_full zero xs ys h = refl
take-append_full (suc n) [] ys h = absurd (omega arith)
take-append_full (suc n) (x ∷ xs) ys h = ap (◌∷◌ x) (take-append_full n xs ys (omega arith))

deliver_all-topics : (es : List SseEvent) (c : SseClient) → (deliver_all es c).topics ≡ c.topics
unfolding deliver_all deliver
deliver_all-topics [] c = refl
deliver_all-topics (e ∷ es) c = deliver_all-topics es (deliver e c) ∙ ground arith

deliver_all-cons :
    (e : SseEvent) (es : List SseEvent) (c : SseClient)
    → deliver_all (e ∷ es) c ≡ deliver_all es (deliver e c)
unfolding deliver_all
deliver_all-cons e es c = refl

deliver_all-ch :
    (es : List SseEvent) (c : SseClient)
    → length c.ch ≤ channel_size
    → (deliver_all es c).ch ≡ take channel_size (c.ch ++ keep (wanted c.topics) es)
deliver_all-ch [] c h = unfold deliver_all in rw (append-nil c.ch) (sym (take-length 64 c.ch h))
deliver_all-ch (e ∷ es) c h = elim (Bool-cases (matches_topic c.topics e.topic)) [
  | inl y ↦ elim (Bool-cases (ltb (length c.ch) 64)) [
    | inl room ↦
        let d : deliver e c ≡ record c { ch = c.ch ++ e ∷ [] } =
          unfold deliver in rw (y, room) refl in
        let fits : length (c.ch ++ e ∷ []) ≤ 64 =
          ground (arith, length-append {A = SseEvent} c.ch (e ∷ [])) in
        rw (deliver_all-cons e es c, d, y)
          (deliver_all-ch es (record c { ch = c.ch ++ e ∷ [] }) fits
            ∙ ap (take 64) (append_assoc c.ch (e ∷ []) (keep (wanted c.topics) es)))
    | inr full ↦
        let d : deliver e c ≡ c = unfold deliver in rw (y, full) refl in
        let at : length c.ch ≡ 64 = ground arith in
        rw (deliver_all-cons e es c, d, y)
          (deliver_all-ch es c h
            ∙ take-append_full 64 c.ch (keep (wanted c.topics) es) at
            ∙ sym (take-append_full 64 c.ch (e ∷ keep (wanted c.topics) es) at))
  ]
  | inr n ↦
      let d : deliver e c ≡ c = unfold deliver in rw n refl in
      rw (deliver_all-cons e es c, d, n) (deliver_all-ch es c h)
]

clients-broadcast_all :
    (ms : List Message) (h : SseHub)
    → (broadcast_all ms h).clients ≡ map (deliver_all (events_of h.next_id ms)) h.clients
unfolding broadcast_all events_of deliver_all broadcast
clients-broadcast_all [] h = sym (map-id h.clients)
clients-broadcast_all ((t, p) ∷ ms) h =
    clients-broadcast_all ms (broadcast t p h)
    ∙ map-map (deliver_all (events_of (add_id h.next_id) ms)) (deliver (new_event h t p)) h.clients

-- A stream that connects with `topics` and reads nothing holds in its channel, after any further
-- broadcasts, the first 64 of those events that its topics accept, in the order of broadcast: what
-- comes while the channel is full is dropped and never displaces an earlier event.
pub channel_prefix :
    (topics : List String) (ms : List Message) (h : SseHub)
    → map (λ c. c.ch) (take 1 (broadcast_all ms (subscribe topics h).0).clients)
      ≡ take channel_size (keep (wanted topics) (events_of h.next_id ms)) ∷ []
unfolding subscribe
channel_prefix topics ms h =
    let c : SseClient = record { handle = h.allocated; topics = topics; ch = [] } in
    let h' : SseHub = record h { allocated = h.allocated + 1; clients = c ∷ h.clients } in
    rw (clients-broadcast_all ms h')
      (ap (λ l. l ∷ []) (deliver_all-ch (events_of h.next_id ms) c (omega arith)))
