-- ===== src/Server/Replies.antt =====
-- The answers of the gRPC handlers: a value or a status code.
use kbeads.Prelude.{Bool, true, false, ◌⊎◌, inr}
use kbeads.Server.Store.{Answer, ok, fail, Error, no_rows, input_error, fault, wrapped}
use kbeads.Server.Actions.{World}

pub data Code : Type 0 where
  invalid_argument not_found internal : Code

abbrev pub Reply : Type 0 → Type 0
Reply A = A ⊎ Code

-- storeError of convert.go. No store error has a method NotFound.
unfoldable pub store_error : Error → Code
store_error no_rows = not_found
store_error (wrapped text e) = store_error e
store_error (input_error text es) = internal
store_error (fault why) = internal

-- status.Errorf(codes.Internal, ...), whatever the error.
abbrev pub internal_error : Error → Code
internal_error e = internal

-- What follows a store call: its error as a code, or the rest of the handler.
abbrev pub answer :
    {A B : Type 0}
    → (Error → Code)
    → (A → World → Reply B × World)
    → Answer A × World
    → Reply B × World
answer code next (ok a, w) = next a w
answer code next (fail e, w) = (inr (code e), w)

abbrev pub refuse_bad : {B : Type 0} → Bool → World → Reply B × World → Reply B × World
refuse_bad true w r = (inr invalid_argument, w)
refuse_bad false w r = r
