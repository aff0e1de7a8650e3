-- ===== src/Sse/Topic.antt =====
-- matchTopicPattern and matchesTopic of internal/server/sse.go.
use kbeads.Prelude.{
  ℕ, ◌+◌, String, Bool, true, false, not, ◌&&◌, List, [], ◌∷◌, none, some, length, get_elem?, ltb,
  eqb, ◌==◌, if◌then◌else◌,
}
use kbeads.Prelude.Text.{split}

-- The loop `for i, pp := range patParts` and the length test behind it; `none` is `i >= len(topParts)`.
unfoldable pub match_loop : List String → ℕ → List String → List String → Bool
match_loop [] i pat_parts top_parts = eqb (length pat_parts) (length top_parts)
match_loop (pp ∷ rest) i pat_parts top_parts =
    let next = match_loop rest (i + 1) pat_parts top_parts in
    if pp == ">" then ltb i (length top_parts) else elim (get_elem? top_parts i) [
      | none ↦ false
      | some tp ↦ if not (pp == "*") && not (pp == tp) then false else next
    ]

unfoldable pub match_topic_pattern : String → String → Bool
match_topic_pattern pattern topic =
    if pattern == topic
    then true
    else let pat_parts = split b'.' pattern in
      let top_parts = split b'.' topic in match_loop pat_parts 0 pat_parts top_parts

unfoldable pub some_filter : List String → String → Bool
some_filter [] topic = false
some_filter (pattern ∷ rest) topic =
    let others = some_filter rest topic in
    if match_topic_pattern pattern topic then true else others

-- The filters of one client; no filter accepts every topic.
unfoldable pub matches_topic : List String → String → Bool
matches_topic [] topic = true
matches_topic (pattern ∷ rest) topic = some_filter (pattern ∷ rest) topic
