-- ===== src/Model/Delivery.antt =====
-- Advice and rigs: who a rig label lets in, and what a group number may run into.
use kbeads.Prelude.{
  String, true, false, List, [], ◌∷◌, ◌++◌, none, some, mem, mem→Elem, ◌==◌, ◌≡◌, ◌≢◌, ◌⊎◌, inl,
  inr, refl, sym, ap, ◌∙◌, subst, arith, Elem, Elem-append, All-Elem, Bool-cases,
}
use kbeads.Prelude.Int.{pos}
use kbeads.Prelude.Text.{append, split, has_prefix, drop_prefix}
use kbeads.Model.Advice.{
  strip_group_prefix, group_of, add_to_group, group_labels, parse_groups, some_group,
  matches_subscriptions, rig_labels, role_labels, singularize, build_agent_subscriptions,
}
use kbeads.Model.Matching.{RequiredMet, matches_subscriptions_iff, prefixed_step, group_labels_free}

not_rig : (s t : String) → has_prefix s "rig:" ≡ false → append "rig:" t ≢ s
not_rig s t h e = let t : true ≡ has_prefix s "rig:" = ap (λ x. has_prefix x "rig:") e in cc

role_labels-not_rig :
    (parts : List String) (rig : String) → ¬ Elem (append "rig:" rig) (role_labels parts)
role_labels-not_rig [] rig h = h
role_labels-not_rig (p ∷ []) rig h = h
role_labels-not_rig (p ∷ role ∷ ps) rig (inl e) = not_rig (append "role:" role) rig refl e
role_labels-not_rig (p ∷ role ∷ ps) rig (inr m) = elim (Bool-cases (singularize role == role)) [
  | inl y ↦ let none_left : ⊥ = rw y at m in none_left
  | inr n ↦
      let one : (append "rig:" rig ≡ append "role:" (singularize role)) ⊎ ⊥ = rw n at m in
      elim one [
        | inl e ↦ not_rig (append "role:" (singularize role)) rig refl e
        | inr no_more ↦ no_more
      ]
]

rig_labels-first :
    (parts : List String) (rig : String)
    → Elem (append "rig:" rig) (rig_labels parts)
    → (ps : List String) × (parts ≡ rig ∷ ps)
rig_labels-first [] rig h = elim h [ ]
rig_labels-first (p ∷ ps) rig h = elim (Bool-cases (p == "")) [
  | inl y ↦ let none_left : ⊥ = rw y at h in absurd none_left
  | inr n ↦
      let one : (append "rig:" rig ≡ append "rig:" p) ⊎ ⊥ = rw n at h in
      elim one [
        | inl e ↦ (ps, ap (λ (x : String). x ∷ ps) (sym (ap (λ x. drop_prefix x "rig:") e)))
        | inr no_more ↦ absurd no_more
      ]
]

rig_subscribed :
    (agent_id rig : String) (extra : List String)
    → ¬ Elem (append "rig:" rig) extra
    → Elem (append "rig:" rig) (build_agent_subscriptions agent_id extra)
    → (ps : List String) × (split b'/' agent_id ≡ rig ∷ ps)
unfolding build_agent_subscriptions
rig_subscribed agent_id rig extra absent h =
    let parts = split b'/' agent_id in
    let own = rig_labels parts ++ role_labels parts in
    elim (Elem-append (append "rig:" rig) extra ("global" ∷ append "agent:" agent_id ∷ own) h) [
      | inl x ↦ absurd (absent x)
      | inr (inl e) ↦ absurd (not_rig "global" rig refl e)
      | inr (inr (inl e)) ↦ absurd (not_rig (append "agent:" agent_id) rig refl e)
      | inr (inr (inr m)) ↦
          elim (Elem-append (append "rig:" rig) (rig_labels parts) (role_labels parts) m) [
            | inl l ↦ rig_labels-first parts rig l
            | inr r ↦ absurd (role_labels-not_rig parts rig r)
          ]
    ]

-- Advice with a label that is rig:X behind its group prefix, if it has one, reaches, of the agents whose
-- extra subscriptions do not have rig:X, only those whose ID has X as its first part.
pub rig_isolation :
    (labels : List String) (agent_id label rig : String) (extra : List String)
    → Elem label labels
    → strip_group_prefix label ≡ append "rig:" rig
    → ¬ Elem (append "rig:" rig) extra
    → matches_subscriptions labels (build_agent_subscriptions agent_id extra) ≡ true
    → (ps : List String) × (split b'/' agent_id ≡ rig ∷ ps)
rig_isolation labels agent_id label rig extra m is_rig absent h =
    let subs = build_agent_subscriptions agent_id extra in
    let (req, full) = (matches_subscriptions_iff labels subs).0 h in
    let met = All-Elem (RequiredMet subs) label labels req m in
    let scoped : has_prefix (strip_group_prefix label) "rig:" ≡ true =
      ap (λ x. has_prefix x "rig:") is_rig in
    rig_subscribed agent_id rig extra absent (subst (λ x. Elem x subs) is_rig (met (inl scoped)))

collided_groups :
    (x y : String)
    → group_of y ≡ none
    → parse_groups (append "g1000:" x ∷ y ∷ []) ≡ (pos 1000, x ∷ y ∷ []) ∷ []
collided_groups x y free =
    let first : group_of (append "g1000:" x) ≡ some (pos 1000, x) = unfold group_of in refl in
    unfold parse_groups in
    (prefixed_step 1000 [] (append "g1000:" x) (y ∷ []) (pos 1000) x first
      ∙ group_labels_free 1000 (add_to_group (pos 1000) x []) y [] free
      ∙ (unfold group_labels add_to_group in refl))

collided_any :
    (x y : String) (subs : List String)
    → mem x subs ≡ false
    → some_group subs ((pos 1000, x ∷ y ∷ []) ∷ []) ≡ false
unfolding some_group
collided_any x y subs missing = rw missing refl

-- Advice with a label g1000:x and one more label y that has no prefix is not delivered to an agent
-- that is not subscribed to x, even if the agent is subscribed to y.
group_collision :
    (x y : String) (subs : List String)
    → group_of y ≡ none
    → ¬ Elem x subs
    → matches_subscriptions (append "g1000:" x ∷ y ∷ []) subs ≡ false
group_collision x y subs free absent =
    let missing : mem x subs ≡ false = elim (Bool-cases (mem x subs)) [
      | inl y ↦ absurd (absent (mem→Elem x subs y))
      | inr n ↦ n
    ] in
    unfold matches_subscriptions in
    ground (arith, collided_groups x y free, collided_any x y subs missing)
