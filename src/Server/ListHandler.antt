-- ===== src/Server/ListHandler.antt =====
-- ListBeads of internal/server/beads.go: the filter of a request and the reply.
use kbeads.Prelude.{
  ℕ, ◌-◌, ◌%◌, String, false, List, [], map, Option, none, ltb, if◌then◌else◌, inl,
}
use kbeads.Prelude.Int.{ℤ, pos, negsuc}
use kbeads.Prelude.Dict
use kbeads.Prelude.Dict.{Dict}
use kbeads.Model.Bead.{Bead, type_aliases}
use kbeads.Server.Actions.{World}
use kbeads.Server.Beads.{Env, or_else}
use kbeads.Server.Replies.{Reply, answer, internal_error}
use kbeads.Server.Query.{BeadFilter, Database}
use kbeads.Server.ListBeads.{list_beads}

pub record ListBeadsRequest : Type 0 where
  pub status : List String
  pub bead_type : List String
  pub kind : List String
  pub labels : List String
  pub assignee : String
  pub priority : Option ℤ
  pub search : String
  pub sort : String
  pub limit : ℤ
  pub offset : ℤ
  pub field_filters : Dict String

-- A deprecated type name stands for its canonical one.
abbrev pub canonical_type : String → String
canonical_type t = or_else t (Dict.get t type_aliases)

unfoldable pub filter_of : ListBeadsRequest → BeadFilter
filter_of req = record {
  status = req.status;
  bead_type = map canonical_type req.bead_type;
  exclude_types = [];
  kind = req.kind;
  priority = req.priority;
  priority_min = none;
  priority_max = none;
  assignee = req.assignee;
  labels = req.labels;
  labels_any = [];
  search = req.search;
  fields = req.field_filters;
  no_open_deps = false;
  ids = [];
  updated_after = none;
  parent_id = "";
  sort = req.sort;
  limit = req.limit;
  offset = req.offset;
}

-- int32(n) of an int that is not negative.
unfoldable pub to_int32 : ℕ → ℤ
to_int32 n =
    let m = n % 4294967296 in if ltb m 2147483648 then pos m else negsuc (4294967296 - m - 1)

-- The beads of the reply are not converted to the wire.
unfoldable pub grpc_list_beads :
    Database → Env → ListBeadsRequest → World → Reply (List Bead × ℤ) × World
unfolding filter_of to_int32
grpc_list_beads db env req w =
    answer internal_error (λ r v. (inl (r.0, to_int32 r.1), v))
      (list_beads db env.links.faults (filter_of req) w)
