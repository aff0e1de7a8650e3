-- ===== src/Http/Tests.antt =====
-- Calls over both transports at concrete values.
use kbeads.Prelude.{
  arith, true, ℕ, String, List, [], ◌∷◌, Option, none, some, ◌==◌, ◌≡◌, refl, inr, ◌⊎◌,
}
use kbeads.Prelude.Text.{append}
use kbeads.Model.Bead.{Bead}
use kbeads.Server.Actions.{World}
use kbeads.Server.Samples.{task, world_of, env}
use kbeads.Server.Close.{close_bead}
use kbeads.Config.Rpc.{ConfigDatabase}
use kbeads.Http.Replies.{Response, unbroken, bead, empty, translated}
use kbeads.Http.Beads.{handle_close_bead}
use kbeads.Server.Beads.{Env, CreateBeadInput}
use kbeads.Server.Requests
use kbeads.Server.Soundness.{IsSound}
use kbeads.Http.History.{
  AnyRequest, rpc, http, grpc, close_with_fields, resolve, run_all, run_all-IsSound,
}
use kbeads.Http.Agreement.{
  store_config, label, create, link, over_http, over_grpc, transports_agree,
}
use kbeads.Http.Closing.{close_body, then_advice_deleted, close_transports}
use kbeads.Prelude.Int.{pos, negsuc}
use kbeads.Prelude.Dict
use kbeads.Http.Listing.{ListRequest, client_query, http_filter}
use kbeads.Http.ListingProofs.{wanted, http_filter-client_query}
use kbeads.Http.Auth.{
  HttpRequest, RpcHandler, unauthenticated, auth_middleware, unauthorized, new_grpc_server,
}
use kbeads.Http.AuthProofs.{
  AnsweredBy, Admitted, Decided, IsHealth, FirstBears, auth_middleware_lem, new_grpc_server_lem,
}

abbrev advice : Bead
advice = record (task "kd-2") { bead_type = "advice" }

abbrev world : World
world = world_of (("kd-1", task "kd-1") ∷ ("kd-2", advice) ∷ []) [] [] []

abbrev db : ConfigDatabase
db = record { like = λ k p. k == p; order_by_key = λ m. m }

-- The label is stored, and the bead read back.
labelled :
    (over_http db (env none) (label "kd-1" "ui") world).0
    ≡ (201, bead (record (task "kd-1") { labels = "ui" ∷ [] }))
unfolding over_http kbeads.Http.Relations.handle_add_label kbeads.Server.Actions.call
    kbeads.Server.Store.query_add_label kbeads.Server.Store.has_label kbeads.Prelude.Dict.get
    kbeads.Server.Notify.record_and_publish kbeads.Server.Update.get_bead
    kbeads.Server.Store.query_get_row kbeads.Server.Store.query_get_labels
    kbeads.Server.Store.labels_of kbeads.Server.Store.query_get_dependencies
    kbeads.Server.Store.query_get_comments kbeads.Server.Store.query_record_event
labelled = refl

transports_agree_example :
    over_http db (env (some 2)) (label "kd-1" "ui") world
    ≡ over_grpc db (env (some 2)) (label "kd-1" "ui") world
transports_agree_example = transports_agree db (env (some 2)) (label "kd-1" "ui") world tt

close_transports_example :
    (r : Response × World) × (handle_close_bead (env none) "kd-2" (close_body "bob") world
      ≡ unbroken r)
    × (translated 200 bead (close_bead (env none) "kd-2" "bob" world)
        ≡ then_advice_deleted (env none) "bob" r)
close_transports_example = close_transports (env none) "kd-2" "bob" world

-- A handler that answers with nothing, and a request without a token.
abbrev next : HttpRequest → World → Response × World
next req w = ((204, empty), w)

abbrev anonymous : HttpRequest
anonymous = record { method = "DELETE"; path = "/v1/beads/kd-1"; authorization = "" }

anonymous_is_refused : auth_middleware "secret" next anonymous world ≡ unauthorized world
unfolding auth_middleware
anonymous_is_refused = refl

auth_middleware_lem_example :
    Decided
      (Admitted "secret" (IsHealth anonymous) (anonymous.authorization ≡ append "Bearer " "secret"))
      (next anonymous world)
      (unauthorized world)
      (auth_middleware "secret" next anonymous world)
auth_middleware_lem_example = auth_middleware_lem "secret" next anonymous world

abbrev panics : RpcHandler ℕ
panics w = (none, w)

abbrev method : String
method = "/beads.v1.BeadsService/GetBead"

abbrev health : String
health = "/beads.v1.BeadsService/Health"

abbrev header : Option (List String)
header = some ("Bearer secret" ∷ [])

new_grpc_server_lem_example :
    (Admitted "secret" (method ≡ health) (FirstBears "secret" header)
      × AnsweredBy panics world (new_grpc_server "secret" method header panics world))
    ⊎ ((Admitted "secret" (method ≡ health) (FirstBears "secret" header) → ⊥)
        × (new_grpc_server "secret" method header panics world ≡ (inr unauthenticated, world)))
new_grpc_server_lem_example = new_grpc_server_lem "secret" method header panics world

abbrev list_request : ListRequest
list_request = record {
  status = "open" ∷ "in_progress" ∷ [];
  bead_type = [];
  kind = "issue" ∷ [];
  labels = [];
  assignee = "ann";
  search = "a=b&c";
  sort = "-priority";
  priority = some (negsuc 0);
  no_open_deps = true;
  limit = pos 20;
  offset = negsuc 4;
  field_filters = ("role", "x=y") ∷ [];
}

sent_query :
    client_query list_request
    ≡ ("status", "open,in_progress" ∷ [])
      ∷ ("type", [])
      ∷ ("kind", "issue" ∷ [])
      ∷ ("labels", [])
      ∷ ("assignee", "ann" ∷ [])
      ∷ ("search", "a=b&c" ∷ [])
      ∷ ("sort", "-priority" ∷ [])
      ∷ ("priority", "-1" ∷ [])
      ∷ ("no_open_deps", "true" ∷ [])
      ∷ ("limit", "20" ∷ [])
      ∷ ("offset", [])
      ∷ ("field", "role=x=y" ∷ [])
      ∷ []
unfolding client_query
sent_query = refl

http_filter-client_query_example :
    let f = http_filter (client_query list_request) in
    (record f { fields = [] } ≡ wanted list_request)
    × ((k : String) → Dict.get k f.fields ≡ Dict.get k list_request.field_filters)
unfolding Dict.get
http_filter-client_query_example = http_filter-client_query list_request (record {
  status = ((λ e. cc, refl), ((λ e. cc, refl), tt));
  bead_type = tt;
  kind = ((λ e. cc, refl), tt);
  labels = tt;
  priority = omega arith;
  limit = omega arith;
  offset = omega arith;
  keys = (refl, tt);
  names = (refl, tt);
})

start-IsSound : IsSound (λ t. true) (world_of [] [] [] []).tables
unfolding kbeads.Prelude.Dict.get
start-IsSound = record { rows = λ k b h. cc; refs = (tt, tt, tt, tt) }

abbrev new_task : CreateBeadInput
new_task = record {
  title = "Fix login";
  kind = "";
  bead_type = "task";
  description = "";
  notes = "";
  priority = pos 2;
  assignee = "";
  owner = "";
  labels = "a" ∷ [];
  created_by = "ann";
  fields = "";
  due_at = none;
  defer_until = none;
}

-- A server that names a new bead, and whose store may fail at one call.
abbrev naming : Option ℕ → Env
naming at = record (env at) { new_id = some "kd-1" }

abbrev history : List (Env × AnyRequest)
history =
    (naming none, http (create new_task))
    ∷ (naming (some 9), rpc (Requests.label "kd-1" "c"))
    ∷ (
      naming none,
      http (link "kd-1" (record { depends_on_id = "kd-9"; dep_type = "blocks"; created_by = "" })),
    )
    ∷ (naming none, grpc (store_config "type:x" "{}"))
    ∷ (
      naming none,
      resolve "now" "kd-1"
          (record { selected_option = "a"; response_text = ""; responded_by = "ann" }),
    )
    ∷ (naming none, close_with_fields "kd-1" (close_body "bob"))
    ∷ []

run_all-IsSound_example : IsSound (λ t. true) (run_all db history (world_of [] [] [] [])).tables
run_all-IsSound_example =
    run_all-IsSound (λ t. true) db history (world_of [] [] [] [])
      (
        (refl, λ m t h. refl),
        (
          (refl, λ m t h. refl),
          (
            (refl, λ m t h. refl),
            ((refl, λ m t h. refl), ((refl, λ m t h. refl), ((refl, λ m t h. refl), tt))),
          ),
        ),
      )
      start-IsSound
