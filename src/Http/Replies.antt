-- ===== src/Http/Replies.antt =====
-- The answers of the HTTP handlers: a status code with a body (writeJSON and writeError of
-- internal/server/http.go), and how a gRPC answer reads as one.
use kbeads.Prelude.{ℕ, String, Bool, true, false, List, inl, inr, Option, some}
use kbeads.Prelude.Dict.{Dict}
use kbeads.Model.Bead.{Bead, Dependency, Comment}
use kbeads.Server.Store.{Answer, ok, fail, Error, no_rows, input_error, fault, wrapped, EventRow}
use kbeads.Server.Actions.{World}
use kbeads.Server.Replies.{Code, invalid_argument, not_found, internal, Reply}

-- What is written: an error message, whose text is left out, nothing, or a value as JSON.
pub data Body : Type 0 where
  problem empty : Body
  bead : Bead → Body
  dependency : Dependency → Body
  comment : Comment → Body
  dependencies : List Dependency → Body
  labels : List String → Body
  comments : List Comment → Body
  events : List EventRow → Body
  config : String × String → Body
  configs : Dict String → Body
  page : List Bead → ℕ → Body

abbrev pub Response : Type 0
Response = ℕ × Body

abbrev pub bad_request : World → Response × World
bad_request w = ((400, problem), w)

abbrev pub refuse_if : Bool → World → Response × World → Response × World
refuse_if true w r = bad_request w
refuse_if false w r = r

-- What follows a call: its error as a status code, or the rest of the handler.
abbrev pub after :
    {A : Type 0}
    → (Error → ℕ)
    → (A → World → Response × World)
    → Answer A × World
    → Response × World
after code next (ok a, w) = next a w
after code next (fail e, w) = ((code e, problem), w)

abbrev pub server_error : Error → ℕ
server_error e = 500

-- errors.Is(err, sql.ErrNoRows)
unfoldable pub is_no_rows : Error → Bool
is_no_rows no_rows = true
is_no_rows (wrapped text e) = is_no_rows e
is_no_rows (input_error text es) = false
is_no_rows (fault why) = false

-- errors.As(err, &ie) for an inputError.
unfoldable pub is_input_error : Error → Bool
is_input_error no_rows = false
is_input_error (wrapped text e) = is_input_error e
is_input_error (input_error text es) = true
is_input_error (fault why) = false

-- The status code that says the same as a gRPC code.
abbrev pub http_code : Code → ℕ
http_code invalid_argument = 400
http_code not_found = 404
http_code internal = 500

-- A gRPC answer as a response with the given success code.
abbrev pub translated : {A : Type 0} → ℕ → (A → Body) → Reply A × World → Response × World
translated n body (inl a, w) = ((n, body a), w)
translated n body (inr c, w) = ((http_code c, problem), w)

-- A response that is sent, where a panic could have broken the connection off instead.
abbrev pub unbroken : Response × World → Option Response × World
unbroken (r, w) = (some r, w)
