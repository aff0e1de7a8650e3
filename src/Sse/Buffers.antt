-- ===== src/Sse/Buffers.antt =====
-- The ring buffer of the hub (internal/server/sse.go) against the history of the events stored, newest first.
use mathlib.Core.List.{reverse, reverse-append}
use kbeads.Prelude.{
  ℕ, zero, suc, ◌+◌, ◌-◌, ◌%◌, ◌≤◌, ◌<◌, min, ◌≡◌, refl, sym, ap, ◌∙◌, Bool, inl, inr, List, [],
  ◌∷◌, ◌++◌, some, length, get_elem?, take, keep, ltb, if◌then◌else◌, arith, length-set,
  length-replicate, get_elem?-set_self, get_elem?-set_ne, keep-append, Bool-cases, append-nil,
}
use kbeads.Sse.Hub.{SseEvent, SseHub, ring_size, new_sse_hub, store_event, collect, ring_start}

-- The ring holds the newest events of the history.
pub record Buffers (h : SseHub) (hist : List SseEvent) : Type 0 where
  pub sized : length h.ring ≡ ring_size
  pub pos : h.ring_pos ≡ length hist % ring_size
  pub len : h.ring_len ≡ min (length hist) ring_size
  pub slots :
      (j : ℕ)
      → j < h.ring_len
      → get_elem? h.ring ((h.ring_pos + 999 - j) % ring_size) ≡ get_elem? hist j

-- The ids count the events.
abbrev pub Numbered : List SseEvent → Type 0
Numbered [] = Unit
Numbered (e ∷ hist) = (e.id ≡ suc (length hist)) × Numbered hist

pub new_sse_hub-Buffers : Buffers new_sse_hub []
unfolding new_sse_hub
new_sse_hub-Buffers = record {
  sized = length-replicate {A = SseEvent} 1000 (record { id = 0; topic = ""; payload = "" });
  pos = refl;
  len = refl;
  slots = λ j h. absurd (omega arith);
}

store_slot :
    (h : SseHub) (hist : List SseEvent) (evt : SseEvent) (j : ℕ)
    → Buffers h hist
    → j < (store_event evt h).ring_len
    → get_elem? (store_event evt h).ring (((store_event evt h).ring_pos + 999 - j) % ring_size)
      ≡ get_elem? (evt ∷ hist) j
unfolding store_event
store_slot h hist evt zero b lt =
    let at : ((h.ring_pos + 1) % 1000 + 999 - 0) % 1000 ≡ h.ring_pos = omega (arith, b.pos) in
    rw at (get_elem?-set_self h.ring h.ring_pos evt (omega (arith, b.sized, b.pos)))
store_slot h hist evt (suc j) b lt =
    let older : j < 999 = ground (arith, b.len) in
    let kept : j < h.ring_len = ground (arith, b.len) in
    let at : ((h.ring_pos + 1) % 1000 + 999 - suc j) % 1000 ≡ (h.ring_pos + 999 - j) % 1000 =
      omega (arith, b.pos) in
    rw at (
      get_elem?-set_ne h.ring h.ring_pos ((h.ring_pos + 999 - j) % 1000) evt (omega (arith, b.pos))
      ∙ b.slots j kept)

pub store_event-Buffers :
    (h : SseHub) (hist : List SseEvent) (evt : SseEvent)
    → Buffers h hist
    → Buffers (store_event evt h) (evt ∷ hist)
store_event-Buffers h hist evt b = record {
  sized = unfold store_event in length-set h.ring h.ring_pos evt ∙ b.sized;
  pos = unfold store_event in omega (arith, b.pos);
  len = unfold store_event in ground (arith, b.len);
  slots = λ j lt. store_slot h hist evt j b lt;
}

module _ {A : Type 0} where
  pub take-nil : (n : ℕ) → take {A = A} n [] ≡ []
  take-nil zero = refl
  take-nil (suc n) = refl

  get_elem?-some : (xs : List A) (n : ℕ) → n < length xs → (x : A) × (get_elem? xs n ≡ some x)
  get_elem?-some [] n h = elim h [ ]
  get_elem?-some (x ∷ xs) zero h = (x, refl)
  get_elem?-some (x ∷ xs) (suc n) h = get_elem?-some xs n (omega arith)

  take-suc :
      (xs : List A) (n : ℕ) (x : A)
      → get_elem? xs n ≡ some x
      → take (suc n) xs ≡ take n xs ++ x ∷ []
  take-suc [] n x h = cc
  take-suc (y ∷ xs) zero x h = ground arith
  take-suc (y ∷ xs) (suc n) x h = ap (◌∷◌ y) (take-suc xs n x h)

  reverse-take-suc :
      (xs : List A) (n : ℕ) (x : A)
      → get_elem? xs n ≡ some x
      → reverse (take (suc n) xs) ≡ x ∷ reverse (take n xs)
  reverse-take-suc xs n x h = rw (take-suc xs n x h) (reverse-append (take n xs) (x ∷ []))

  pub keep-reverse : (p : A → Bool) (xs : List A) → keep p (reverse xs) ≡ reverse (keep p xs)
  keep-reverse p [] = refl
  keep-reverse p (x ∷ xs) = elim (Bool-cases (p x)) [
    | inl y ↦
        rw (reverse-append (x ∷ []) xs, keep-append p (reverse xs) (x ∷ []), y)
          (ap (λ l. l ++ x ∷ []) (keep-reverse p xs) ∙ sym (reverse-append (x ∷ []) (keep p xs)))
    | inr n ↦
        rw (reverse-append (x ∷ []) xs, keep-append p (reverse xs) (x ∷ []), n)
          (append-nil (keep p (reverse xs)) ∙ keep-reverse p xs)
  ]

collect_step :
    (rounds i start last_id : ℕ) (ring : List SseEvent) (x : SseEvent)
    → get_elem? ring ((start + i) % ring_size) ≡ some x
    → collect (suc rounds) i start last_id ring ≡ (
        if ltb last_id x.id
        then x ∷ collect rounds (i + 1) start last_id ring
        else collect rounds (i + 1) start last_id ring)
unfolding collect
collect_step rounds i start last_id ring x h = rw (h, collect) refl

pub collect-eq :
    (rounds i last_id : ℕ) (h : SseHub) (hist : List SseEvent)
    → Buffers h hist
    → i + rounds ≡ h.ring_len
    → collect rounds i (ring_start h.ring_pos h.ring_len) last_id h.ring
      ≡ keep (λ e. ltb last_id e.id) (reverse (take rounds hist))
collect-eq zero i last_id h hist b e = unfold collect in refl
collect-eq (suc r) i last_id h hist b e =
    let start = ring_start h.ring_pos h.ring_len in
    let at : (start + i) % 1000 ≡ (h.ring_pos + 999 - r) % 1000 = ground (arith, b.pos, b.len) in
    let (x, found) = get_elem?-some hist r (omega (arith, b.len)) in
    let here = ap (get_elem? h.ring) at ∙ b.slots r (omega arith) ∙ found in
    collect_step r i start last_id h.ring x here
    ∙ rw (reverse-take-suc hist r x found)
        (ground (arith, collect-eq r (i + 1) last_id h hist b (omega arith)))

pub keep-take :
    (n last_id k : ℕ) (hist : List SseEvent)
    → Numbered hist
    → k ≡ min n (length hist - last_id)
    → keep (λ e. ltb last_id e.id) (take n hist) ≡ take k hist
keep-take zero last_id k hist num e = let z : k ≡ 0 = omega arith in rw z refl
keep-take (suc n) last_id k [] num e = sym (take-nil k)
keep-take (suc n) last_id k (x ∷ hist) num e = elim (Bool-cases (ltb last_id x.id)) [
  | inl y ↦
      let s : k ≡ suc (k - 1) = ground (arith, num.0) in
      rw (y, s) (ap (◌∷◌ x) (keep-take n last_id (k - 1) hist num.1 (ground (arith, num.0))))
  | inr o ↦
      let z : k ≡ 0 = ground (arith, num.0) in
      rw (o, z) (keep-take n last_id 0 hist num.1 (ground (arith, num.0)))
]

pub take-all : {A : Type 0} (n : ℕ) (xs : List A) → length xs ≤ n → take n xs ≡ take (length xs) xs
take-all n [] h = take-nil n
take-all zero (x ∷ xs) h = absurd (omega arith)
take-all (suc n) (x ∷ xs) h = ap (◌∷◌ x) (take-all n xs (omega arith))
