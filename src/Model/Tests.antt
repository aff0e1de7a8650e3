-- ===== src/Model/Tests.antt =====
-- Runs of the model's functions, and its theorems at concrete values.
use kbeads.Prelude.{
  ℕ, String, Bool, true, false, List, [], ◌∷◌, ◌≡◌, ◌↔◌, refl, arith, none, some, map, eq_iff, ◌==◌,
  if◌then◌else◌, Elem, Any, inl, inr,
}
use kbeads.Prelude.Int.{pos, negsuc}
use kbeads.Prelude.Text.{split}
use kbeads.Prelude.Dict.{Dict}
use kbeads.Model.Bead.{Bead, FieldDef, integer, enum}
use kbeads.Model.Validate.{IsValid, validate_bead, validate_bead_iff}
use kbeads.Model.Value.{str, num, Decoder}
use kbeads.Model.Fields.{validate_fields, unknown_keys, check_fields, validate_field_value}
use kbeads.Model.FieldProofs.{Conforms, validate_fields_iff}
use kbeads.Model.Delivery.{rig_isolation}
use kbeads.Model.Advice.{
  strip_group_prefix, parse_groups, group_labels, group_of, add_to_group, matches_subscriptions,
  required_ok, some_group, build_agent_subscriptions, singularize,
}

strips :
    map strip_group_prefix ("g12:rig:beads" ∷ "g:bad" ∷ "global" ∷ "g0:" ∷ [])
    ≡ "rig:beads" ∷ "g:bad" ∷ "global" ∷ "" ∷ []
unfolding strip_group_prefix
strips = refl

groups :
    parse_groups ("g0:role:polecat" ∷ "g0:rig:beads" ∷ "g-1x:role:crew" ∷ "global" ∷ [])
    ≡ (pos 0, "role:polecat" ∷ "rig:beads" ∷ [])
      ∷ (negsuc 0, "role:crew" ∷ [])
      ∷ (pos 1000, "global" ∷ [])
      ∷ []
unfolding parse_groups group_labels group_of add_to_group
groups = refl

rig_required :
    matches_subscriptions
      ("rig:gastown" ∷ "g0:role:polecat" ∷ [])
      ("global" ∷ "rig:beads" ∷ "role:polecat" ∷ [])
    ≡ false
unfolding matches_subscriptions required_ok strip_group_prefix
rig_required = refl

subscribed :
    build_agent_subscriptions "beads/polecats/quartz" []
    ≡ "global" ∷ "agent:beads/polecats/quartz" ∷ "rig:beads" ∷ "role:polecats" ∷ "role:polecat" ∷ []
unfolding build_agent_subscriptions split singularize
subscribed = refl

abbrev task : Bead
task = record {
  id = "kd-1";
  slug = "";
  kind = "issue";
  bead_type = "task";
  title = "Fix login";
  description = "";
  notes = "";
  status = "open";
  priority = pos 2;
  assignee = "";
  owner = "";
  created_at = 1;
  created_by = "";
  updated_at = 1;
  closed_at = none;
  closed_by = "";
  due_at = none;
  defer_until = none;
  fields = "";
  labels = [];
  dependencies = [];
  comments = [];
}

validate_bead_iff_example : (validate_bead (λ t. true) task ≡ []) ↔ IsValid (λ t. true) task
validate_bead_iff_example = validate_bead_iff (λ t. true) task

-- One object, with the fields outcome and count.
abbrev decoder : Decoder
decoder = record {
  unmarshal =
      λ t. if t == "{}" then some (("outcome", str "approved") ∷ ("count", num 3) ∷ []) else none;
  is_whole = λ n. true;
  parses_time = λ t. false;
}

abbrev defs : List FieldDef
defs =
    record { name = "outcome"; field_type = enum; required = true; values = "approved" ∷ [] }
    ∷ record { name = "count"; field_type = integer; required = false; values = [] }
    ∷ []

accepted : validate_fields decoder "{}" defs ≡ []
unfolding validate_fields unknown_keys check_fields validate_field_value kbeads.Prelude.Dict.get
accepted = refl

validate_fields_iff_example : (validate_fields decoder "{}" defs ≡ []) ↔ Conforms decoder "{}" defs
validate_fields_iff_example = validate_fields_iff decoder "{}" defs

delivered :
    matches_subscriptions ("rig:beads" ∷ []) (build_agent_subscriptions "beads/polecats/quartz" [])
    ≡ true
unfolding matches_subscriptions required_ok some_group parse_groups group_labels group_of
    add_to_group strip_group_prefix build_agent_subscriptions split singularize
delivered = refl

rig_isolation_example : (ps : List String) × (split b'/' "beads/polecats/quartz" ≡ "beads" ∷ ps)
rig_isolation_example =
    rig_isolation ("rig:beads" ∷ []) "beads/polecats/quartz" "rig:beads" "beads" [] (inl refl)
      (unfold strip_group_prefix in refl) (λ h. h) delivered
