-- ===== src/Eventbus/Routing.antt =====
-- What a subject says of its event: the stream by its first segment, the type by its last.
use kbeads.Eventbus.Types.{
  is_decision_event, is_agent_event, is_mail_event, is_mutation_event, is_config_event,
  is_gate_event, is_jack_event,
}
use kbeads.Prelude.{
  String, Bool, true, false, none, some, if◌then◌else◌, ◌≡◌, refl, arith, subst, Option-cases, inl,
  inr, ◌↔◌,
}
use kbeads.Prelude.Text.{is_char, append}
use kbeads.Prelude.Dict
use kbeads.Eventbus.Subjects.{
  scope_of, stream_for_subject, after_last_dot, event_type_from_subject, subject_prefix_for_stream,
  subject_for_event, subject_for_decision_event, subject_for_hook_event,
}

-- A text with no '.', as every event type but the advice and jack events.
abbrev pub has_dot : String → Bool
has_dot String.[] = false
has_dot (String.◌∷◌ c s) = if is_char b'.' c then true else has_dot s

after_last_dot-none : (t : String) → has_dot t ≡ false → after_last_dot t ≡ none
unfolding after_last_dot
after_last_dot-none String.[] h = refl
after_last_dot-none (String.◌∷◌ c s) h = ground (arith, after_last_dot-none s)

after_last_dot-append :
    (p t : String) → has_dot t ≡ false → after_last_dot (append p (append "." t)) ≡ some t
unfolding after_last_dot
after_last_dot-append String.[] t h = ground (arith, after_last_dot-none t h)
after_last_dot-append (String.◌∷◌ c p) t h = ground (arith, after_last_dot-append p t h)

has_dot-after : (s : String) → after_last_dot s ≡ none → has_dot s ≡ false
unfolding after_last_dot
has_dot-after String.[] h = refl
has_dot-after (String.◌∷◌ c s) h = ground (arith, has_dot-after s)

-- The text behind the last '.' has none, and neither has a text without one.
after_last_dot-no_dot : (s w : String) → after_last_dot s ≡ some w → has_dot w ≡ false
unfolding after_last_dot
after_last_dot-no_dot String.[] w h = cc
after_last_dot-no_dot (String.◌∷◌ c s) w h = elim (Option-cases (after_last_dot s)) [
  | inl e ↦
      let t : s ≡ w = ground (arith, e, h) in subst (λ x. has_dot x ≡ false) t (has_dot-after s e)
  | inr (v, e) ↦ after_last_dot-no_dot s w (ground arith)
]

event_type-no_dot : (s : String) → has_dot (event_type_from_subject s) ≡ false
unfolding event_type_from_subject
event_type-no_dot s = elim (Option-cases (after_last_dot s)) [
  | inl e ↦ rw (e, event_type_from_subject) (has_dot-after s e)
  | inr (w, e) ↦ rw (e, event_type_from_subject) (after_last_dot-no_dot s w e)
]

event_type-append :
    (p t : String) → has_dot t ≡ false → event_type_from_subject (append p (append "." t)) ≡ t
unfolding event_type_from_subject
event_type-append p t h = rw (after_last_dot-append p t h, event_type_from_subject) refl

if-ind {ℓ} : {A : Type ℓ} (P : A → Type 0) (b : Bool) (x y : A) → P x → P y → P (if b then x else y)
if-ind P true x y h k = h
if-ind P false x y h k = k

-- The subject of an event is one of eight stream prefixes before the type.
subject-ind :
    (P : String → Type 0) (t : String)
    → P (append "decisions" (append "." t))
    → P (append "agents" (append "." t))
    → P (append "mail" (append "." t))
    → P (append "mutations" (append "." t))
    → P (append "config" (append "." t))
    → P (append "gate" (append "." t))
    → P (append "jack" (append "." t))
    → P (append "hooks" (append "." t))
    → P (subject_for_event t)
unfolding subject_for_event
subject-ind P t d a m u c g j h = if-ind P (is_decision_event t) _ _ d (
    if-ind P (is_agent_event t) _ _ a (
      if-ind P (is_mail_event t) _ _ m (
        if-ind P (is_mutation_event t) _ _ u (
          if-ind P (is_config_event t) _ _ c
            (if-ind P (is_gate_event t) _ _ g (if-ind P (is_jack_event t) _ _ j h))))))

event_type-subject :
    (t : String) → has_dot t ≡ false → event_type_from_subject (subject_for_event t) ≡ t
event_type-subject t h =
    subject-ind (λ s. event_type_from_subject s ≡ t) t (event_type-append "decisions" t h)
      (event_type-append "agents" t h) (event_type-append "mail" t h)
      (event_type-append "mutations" t h) (event_type-append "config" t h)
      (event_type-append "gate" t h) (event_type-append "jack" t h) (event_type-append "hooks" t h)

-- The last segment of an event's subject is its type exactly when the type has no '.'; and then it
-- is so too for the subjects scoped by a requester or an agent, whatever the scope is called.
pub event_type_roundtrip :
    (t scope : String)
    → ((event_type_from_subject (subject_for_event t) ≡ t) ↔ (has_dot t ≡ false))
      × (has_dot t ≡ false
          → (event_type_from_subject (subject_for_decision_event t scope) ≡ t)
            × (event_type_from_subject (subject_for_hook_event t scope) ≡ t))
unfolding subject_for_decision_event subject_for_hook_event
event_type_roundtrip t scope = (
  (
    λ e. subst (λ x. has_dot x ≡ false) e (event_type-no_dot (subject_for_event t)),
    event_type-subject t,
  ),
  λ h. (
    event_type-append (append "decisions." (scope_of scope)) t h,
    event_type-append (append "hooks." (scope_of scope)) t h,
  ),
)

-- The stream found from the subject of any event is the stream whose prefix the subject has.
pub stream_routing :
    (t : String)
    → append (subject_prefix_for_stream (stream_for_subject (subject_for_event t))) t
      ≡ subject_for_event t
unfolding subject_prefix_for_stream stream_for_subject Dict.get
stream_routing t =
    subject-ind (λ s. append (subject_prefix_for_stream (stream_for_subject s)) t ≡ s) t refl refl
      refl refl refl refl refl refl
