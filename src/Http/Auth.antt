-- ===== src/Http/Auth.antt =====
-- The bearer token and the panics of internal/server/interceptors.go, NewGRPCServer of grpc.go, and the
-- header that doJSON of internal/client/http.go sets.
use kbeads.Prelude.{String, ◌&&◌, List, [], ◌∷◌, Option, none, some, ◌==◌, if◌then◌else◌, ◌⊎◌, inr}
use kbeads.Prelude.Text.{append, has_prefix, drop_prefix}
use kbeads.Server.Actions.{World}
use kbeads.Server.Replies.{Code, internal}
use kbeads.Http.Replies.{Response, problem}

-- What the middleware reads of a request; a header that is not there is "".
pub record HttpRequest : Type 0 where
  pub method : String
  pub path : String
  pub authorization : String

abbrev pub unauthorized : World → Response × World
unauthorized w = ((401, problem), w)

-- subtle.ConstantTimeCompare tells whether two texts are equal.
abbrev pub bearer : {R : Type 0} → String → String → R → R → R
bearer token header admitted denied =
    if has_prefix header "Bearer "
    then (if drop_prefix header "Bearer " == token then admitted else denied)
    else denied

unfoldable pub auth_middleware :
    String → (HttpRequest → World → Response × World) → HttpRequest → World → Response × World
auth_middleware token next req w =
    if token == ""
    then next req w
    else if req.method == "GET" && req.path == "/v1/health"
    then next req w
    else if req.authorization == ""
    then unauthorized w
    else bearer token req.authorization (next req w) (unauthorized w)

-- The status codes of the chain; a handler panics where it gives none.
pub data RpcStatus : Type 0 where
  unauthenticated : RpcStatus
  of_code : Code → RpcStatus

abbrev pub RpcHandler : Type 0 → Type 0
RpcHandler A = World → Option (A ⊎ RpcStatus) × World

abbrev pub refused : {A : Type 0} → World → Option (A ⊎ RpcStatus) × World
refused w = (some (inr unauthenticated), w)

-- LoggingInterceptor gives back what it is given.
abbrev pub logging_interceptor : {A : Type 0} → RpcHandler A → RpcHandler A
logging_interceptor handler w = handler w

abbrev pub recovered : {A : Type 0} → Option (A ⊎ RpcStatus) × World → (A ⊎ RpcStatus) × World
recovered (some r, w) = (r, w)
recovered (none, w) = (inr (of_code internal), w)

unfoldable pub recovery_interceptor : {A : Type 0} → RpcHandler A → World → (A ⊎ RpcStatus) × World
recovery_interceptor handler w = recovered (handler w)

-- The values of the header; no metadata is none.
abbrev pub first_value : {A : Type 0} → String → Option (List String) → RpcHandler A → RpcHandler A
first_value token none handler w = refused w
first_value token (some []) handler w = refused w
first_value token (some (provided ∷ more)) handler w = bearer token provided (handler w) (refused w)

unfoldable pub auth_interceptor :
    {A : Type 0} → String → String → Option (List String) → RpcHandler A → RpcHandler A
auth_interceptor token full_method values handler w =
    if token == ""
    then handler w
    else if full_method == "/beads.v1.BeadsService/Health"
    then handler w
    else first_value token values handler w

-- The chain of NewGRPCServer around the handler of a unary method. There is none around the stream methods,
-- of which server reflection is the only one.
unfoldable pub new_grpc_server :
    {A : Type 0}
    → String
    → String
    → Option (List String)
    → RpcHandler A
    → World
    → (A ⊎ RpcStatus) × World
unfolding recovery_interceptor auth_interceptor
new_grpc_server token full_method values handler w =
    if token == ""
    then recovery_interceptor (logging_interceptor handler) w
    else recovery_interceptor
        (auth_interceptor token full_method values (logging_interceptor handler)) w

-- The Authorization header that the client sets.
unfoldable pub client_header : String → String
client_header token = if token == "" then "" else append "Bearer " token
