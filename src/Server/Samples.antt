-- ===== src/Server/Samples.antt =====
-- Data for the tests: a bead, a world with some rows, and what a request meets.
use kbeads.Prelude.{ℕ, String, true, List, [], Option, none, some, if◌then◌else◌, eqb}
use kbeads.Prelude.Int.{pos}
use kbeads.Prelude.Dict.{Dict}
use kbeads.Model.Bead.{Bead, Dependency}
use kbeads.Sse.Hub.{new_sse_hub}
use kbeads.Server.Actions.{World}
use kbeads.Server.Beads.{Env}

-- An open task of ann's without fields.
abbrev pub task : String → Bead
task id = record {
  id = id;
  slug = "";
  kind = "issue";
  bead_type = "task";
  title = id;
  description = "";
  notes = "";
  status = "open";
  priority = pos 2;
  assignee = "ann";
  owner = "";
  created_at = 1;
  created_by = "ann";
  updated_at = 1;
  closed_at = none;
  closed_by = "";
  due_at = none;
  defer_until = none;
  fields = "";
  labels = [];
  dependencies = [];
  comments = [];
}

abbrev pub blocks : String → String → Dependency
blocks a b = record {
  bead_id = a;
  depends_on_id = b;
  dep_type = "blocks";
  created_at = 1;
  created_by = "ann";
  metadata = "";
}

abbrev pub world_of : Dict Bead → List (String × String) → List Dependency → Dict String → World
world_of beads labels deps configs = record {
  tables = record {
    beads = beads;
    labels = labels;
    deps = deps;
    comments = [];
    next_comment = 1;
    configs = configs;
    events = [];
    gates = [];
  };
  calls = 0;
  hub = new_sse_hub;
  published = [];
  stream = [];
}

-- A store that fails at the call of number `at`, if any.
abbrev pub env : Option ℕ → Env
env at = record {
  links = record {
    faults = λ n. elim at [ none ↦ none | some k ↦ if eqb n k then some "timeout" else none ];
    marshal = λ e. some "{}";
    has_bus = true;
  };
  now = 5;
  store_now = 6;
  new_id = none;
  json_valid = λ t. true;
  decoder = record { unmarshal = λ t. none; is_whole = λ n. true; parses_time = λ t. true };
  marshal_map = λ m. some "{\"chosen\":\"a\"}";
  parse_type_config = λ t. none;
}
