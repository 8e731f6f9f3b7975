-- ===== src/Logs/Values.antt =====
-- The JSON objects that the contract serialises: flat, by the derived `Serialize` of a struct. Their
-- text is made by serde_json.
use hos_tla.Base.{ℕ, List, [], ◌∷◌, Text}

pub data Value : Type 0 where
  word : Text → Value
  number : ℕ → Value
  null : Value

-- The fields in their order.
abbrev pub Object : Type 0
Object = List (Text × Value)

-- What a reader of the fields' values in their order gets.
abbrev pub values : Object → List Value
values [] = []
values ((_, v) ∷ rest) = v ∷ values rest
