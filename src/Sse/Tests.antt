-- ===== src/Sse/Tests.antt =====
-- Runs of the hub, and its theorems at concrete broadcasts.
use kbeads.Prelude.{true, false, List, [], ◌∷◌, ◌≡◌, ◌↔◌, refl, map, take, keep, ltb}
use mathlib.Core.List.{reverse}
use kbeads.Prelude.Text.{split}
use kbeads.Sse.Topic.{match_loop, match_topic_pattern}
use kbeads.Sse.Match.{Matches, match_topic_pattern_iff}
use kbeads.Sse.Hub.{
  SseEvent, SseHub, new_sse_hub, take_id, store_event, subscribe, events_since, channel_size,
}
use kbeads.Sse.Ring.{Reach, fresh, begin, store, connect, replay_exact}
use kbeads.Sse.Clients.{broadcast_all, events_of, wanted, channel_prefix}

star : match_topic_pattern "beads.bead.*" "beads.bead.created" ≡ true
unfolding match_topic_pattern match_loop split
star = refl

suffix : match_topic_pattern "beads.>" "beads.bead.created" ≡ true
unfolding match_topic_pattern match_loop split
suffix = refl

suffix_needs_one : match_topic_pattern "beads.>" "beads" ≡ false
unfolding match_topic_pattern match_loop split
suffix_needs_one = refl

match_topic_pattern_iff_example :
    (match_topic_pattern "beads.*" "beads.x" ≡ true)
    ↔ Matches (split b'.' "beads.*") (split b'.' "beads.x")
match_topic_pattern_iff_example = match_topic_pattern_iff "beads.*" "beads.x"

-- Two broadcasts overlap: the second is stored before the first.
abbrev hub2 : SseHub
hub2 =
    store_event (record { id = 1; topic = "a"; payload = "1" })
      (store_event (record { id = 2; topic = "b"; payload = "2" })
        (take_id (take_id (subscribe [] new_sse_hub).0)))

abbrev history2 : List SseEvent
history2 =
    record { id = 1; topic = "a"; payload = "1" }
    ∷ record { id = 2; topic = "b"; payload = "2" }
    ∷ []

hub2-Reach : Reach hub2 [] history2
unfolding subscribe new_sse_hub take_id
hub2-Reach =
    store [] [] (record { id = 1; topic = "a"; payload = "1" })
      (store [] (record { id = 1; topic = "a"; payload = "1" } ∷ [])
        (record { id = 2; topic = "b"; payload = "2" })
        (begin "b" "2" (begin "a" "1" (connect [] fresh))))

replay_exact_example : events_since 1 hub2 ≡ reverse (keep (λ e. ltb 1 e.id) (take 1000 history2))
replay_exact_example = replay_exact 1 hub2-Reach

channel_prefix_example :
    map (λ c. c.ch) (take 1 (broadcast_all (("a", "1") ∷ []) (subscribe [] new_sse_hub).0).clients)
    ≡ take channel_size (keep (wanted []) (events_of new_sse_hub.next_id (("a", "1") ∷ []))) ∷ []
channel_prefix_example = channel_prefix [] (("a", "1") ∷ []) new_sse_hub
