-- ===== src/Json.antt =====
-- JSON values (`serde_json::Value`). An object keeps its fields in the order in which they were
-- written; a number is a natural number or one below zero.
use tasktips_cloud.Base.{ℕ, Bool, String, Option, none, some, List, [], ◌∷◌}

mutual
  pub data Json : Type 0 where
    null : Json
    bool : Bool → Json
    num : ℕ → Json
    str : String → Json
    arr : Items → Json
    obj : Fields → Json

  pub data Items : Type 0 where
    nil : Items
    cons : Json → Items → Items

  pub data Fields : Type 0 where
    end : Fields
    field : String → Json → Fields → Fields

-- `Vec<Value>`, as the array holds it.
abbrev pub items : List Json → Items
items [] = nil
items (v ∷ vs) = cons v (items vs)

abbrev pub fields : List (String × Json) → Fields
fields [] = end
fields ((k, v) ∷ r) = field k v (fields r)

abbrev pub object : List (String × Json) → Json
object r = obj (fields r)

-- `Option<i64>`
abbrev pub opt_num : Option ℕ → Json
opt_num none = null
opt_num (some n) = num n
