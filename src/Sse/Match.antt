-- ===== src/Sse/Match.antt =====
-- What topic patterns mean: the loop of matchTopicPattern against a relation on segments.
use kbeads.Prelude.{
  ◌+◌, String, ◌≡◌, ◌↔◌, refl, sym, ◌∙◌, ◌⊎◌, inl, inr, Bool, true, false, not, ◌&&◌, List, [], ◌∷◌,
  ◌++◌, none, some, length, get_elem?, length-append, append_assoc, arith, ◌==◌, eq_iff,
  if◌then◌else◌, Bool-cases, Any,
}
use kbeads.Prelude.Text.{split}
use kbeads.Sse.Topic.{match_loop, match_topic_pattern, some_filter, matches_topic}

-- `*` stands for one segment, and `>` for one or more up to the end.
abbrev pub Matches : List String → List String → Type 0
Matches [] [] = Unit
Matches [] (s ∷ ss) = ⊥
Matches (p ∷ ps) [] = ⊥
Matches (p ∷ ps) (s ∷ ss) = (p ≡ ">") ⊎ (((p ≡ "*") ⊎ (p ≡ s)) × Matches ps ss)

abbrev match_segments : List String → List String → Bool
match_segments [] [] = true
match_segments [] (s ∷ ss) = false
match_segments (p ∷ ps) [] = false
match_segments (p ∷ ps) (s ∷ ss) =
    let rest = match_segments ps ss in
    if p == ">" then true else if not (p == "*") && not (p == s) then false else rest

match_segments→Matches : (ps ss : List String) → match_segments ps ss ≡ true → Matches ps ss
match_segments→Matches [] [] h = tt
match_segments→Matches [] (s ∷ ss) h = cc
match_segments→Matches (p ∷ ps) [] h = cc
match_segments→Matches (p ∷ ps) (s ∷ ss) h =
    ground (arith, eq_iff p ">", eq_iff p "*", eq_iff p s, match_segments→Matches ps ss)

Matches→match_segments : (ps ss : List String) → Matches ps ss → match_segments ps ss ≡ true
Matches→match_segments [] [] h = refl
Matches→match_segments [] (s ∷ ss) h = elim h [ ]
Matches→match_segments (p ∷ ps) [] h = elim h [ ]
Matches→match_segments (p ∷ ps) (s ∷ ss) (inl e) = ground (arith, eq_iff p ">")
Matches→match_segments (p ∷ ps) (s ∷ ss) (inr (inl e, m)) =
    ground (arith, eq_iff p "*", Matches→match_segments ps ss m)
Matches→match_segments (p ∷ ps) (s ∷ ss) (inr (inr e, m)) =
    ground (arith, eq_iff p s, Matches→match_segments ps ss m)

get_elem?-middle :
    (pre : List String) (s : String) (ss : List String)
    → get_elem? (pre ++ s ∷ ss) (length pre) ≡ some s
get_elem?-middle [] s ss = refl
get_elem?-middle (x ∷ pre) s ss = get_elem?-middle pre s ss

get_elem?-end : (pre : List String) → get_elem? (pre ++ []) (length pre) ≡ none
get_elem?-end [] = refl
get_elem?-end (x ∷ pre) = get_elem?-end pre

match_loop-eq :
    (rest pre suf pat : List String)
    → length pat ≡ length pre + length rest
    → match_loop rest (length pre) pat (pre ++ suf) ≡ match_segments rest suf
unfolding match_loop
match_loop-eq [] pre [] pat h = ground (arith, length-append {A = String} pre [])
match_loop-eq [] pre (s ∷ ss) pat h = ground (arith, length-append {A = String} pre (s ∷ ss))
match_loop-eq (p ∷ ps) pre [] pat h =
    rw (get_elem?-end pre) (ground (arith, length-append {A = String} pre []))
match_loop-eq (p ∷ ps) pre (s ∷ ss) pat h =
    let shift : pre ++ s ∷ ss ≡ (pre ++ s ∷ []) ++ ss = sym (append_assoc pre (s ∷ []) ss) in
    let count : length (pre ++ s ∷ []) ≡ length pre + 1 = length-append pre (s ∷ []) in
    let ih = match_loop-eq ps (pre ++ s ∷ []) ss pat (omega arith) in
    let next : match_loop ps (length pre + 1) pat (pre ++ s ∷ ss) ≡ match_segments ps ss =
      rw (shift, ← count) ih in
    rw (get_elem?-middle pre s ss) (ground (arith, next, length-append {A = String} pre (s ∷ ss)))

match_segments_refl : (ss : List String) → match_segments ss ss ≡ true
match_segments_refl [] = refl
match_segments_refl (s ∷ ss) = ground (arith, eq_iff s s, match_segments_refl ss)

match_topic_pattern-eq :
    (p t : String) → match_topic_pattern p t ≡ match_segments (split b'.' p) (split b'.' t)
unfolding match_topic_pattern
match_topic_pattern-eq p t = elim (Bool-cases (p == t)) [
  | inl same ↦
      let e : p ≡ t = (eq_iff p t).0 same in
      rw same (rw e (sym (match_segments_refl (split b'.' t))))
  | inr other ↦
      rw other (match_loop-eq (split b'.' p) [] (split b'.' t) (split b'.' p) (omega arith))
]

-- A pattern accepts a topic exactly when its segments match those of the topic: the test
-- `pattern == topic` in front of the loop changes no answer.
pub match_topic_pattern_iff :
    (pattern topic : String)
    → (match_topic_pattern pattern topic ≡ true) ↔ Matches (split b'.' pattern) (split b'.' topic)
match_topic_pattern_iff p t = (
  λ h. match_segments→Matches (split b'.' p) (split b'.' t) (sym (match_topic_pattern-eq p t) ∙ h),
  λ m. match_topic_pattern-eq p t ∙ Matches→match_segments (split b'.' p) (split b'.' t) m,
)

some_filter→Any :
    (topics : List String) (t : String)
    → some_filter topics t ≡ true
    → Any (λ p. Matches (split b'.' p) (split b'.' t)) topics
unfolding some_filter
some_filter→Any [] t h = cc
some_filter→Any (p ∷ ps) t h = elim (Bool-cases (match_topic_pattern p t)) [
  | inl y ↦ inl ((match_topic_pattern_iff p t).0 y)
  | inr n ↦ inr (some_filter→Any ps t (ground (arith, n, h)))
]

Any→some_filter :
    (topics : List String) (t : String)
    → Any (λ p. Matches (split b'.' p) (split b'.' t)) topics
    → some_filter topics t ≡ true
unfolding some_filter
Any→some_filter [] t h = elim h [ ]
Any→some_filter (p ∷ ps) t (inl m) = rw ((match_topic_pattern_iff p t).1 m)
Any→some_filter (p ∷ ps) t (inr m) = ground (arith, Any→some_filter ps t m)

-- The filters that accept a topic: none at all, or one pattern that matches it.
abbrev pub Accepts : List String → String → Type 0
Accepts topics t = (topics ≡ []) ⊎ Any (λ p. Matches (split b'.' p) (split b'.' t)) topics

-- A client accepts a topic exactly when it has no filter, or one of its patterns matches the topic.
matches_topic_iff :
    (topics : List String) (t : String) → (matches_topic topics t ≡ true) ↔ Accepts topics t
unfolding matches_topic
matches_topic_iff [] t = (λ h. inl refl, λ h. refl)
matches_topic_iff (p ∷ ps) t = (
  λ h. inr (some_filter→Any (p ∷ ps) t h),
  λ h. elim h [ inl e ↦ cc | inr m ↦ Any→some_filter (p ∷ ps) t m ],
)
