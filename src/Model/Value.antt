-- ===== src/Model/Value.antt =====
-- The values that json.Unmarshal makes of a JSON text, for typed fields.
use kbeads.Prelude.{ℕ, String, Bool, Option}
use kbeads.Prelude.Dict.{Dict}

-- `num` holds the bits of a float64; what a nested object holds is not looked at.
mutual
  pub data Value : Type 0 where
    null : Value
    bool : Bool → Value
    num : ℕ → Value
    str : String → Value
    arr : Items → Value
    obj : String → Value

  pub data Items : Type 0 where
    nil : Items
    cons : Value → Items → Items

-- What the packages encoding/json, math and time decide: the object of a text, whether a float64
-- equals its truncation, and whether a text is an RFC 3339 time.
pub record Decoder : Type 0 where
  pub unmarshal : String → Option (Dict Value)
  pub is_whole : ℕ → Bool
  pub parses_time : String → Bool
