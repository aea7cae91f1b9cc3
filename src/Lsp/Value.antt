-- ===== src/Lsp/Value.antt =====
-- The values of serde_json, as the protocol code reads and builds them. A number is its literal.
use codequery.Prelude.{List, [], ◌∷◌, Option, none, some, Text, Bool, if◌then◌else◌, ◌==◌, text_eq}

-- `Vec<Value>` and `Map<String, Value>` are the list types of the block.
mutual
  pub data Value : Type 0 where
    null : Value
    boolean : Bool → Value
    number string : Text → Value
    array : Values → Value
    object : Fields → Value

  pub data Values : Type 0 where
    nil : Values
    cons : Value → Values → Values

  pub data Fields : Type 0 where
    no_fields : Fields
    field : Text → Value → Fields → Fields

abbrev pub fields_get : Text → Fields → Option Value
fields_get key no_fields = none
fields_get key (field k v rest) =
    let later = fields_get key rest in if k == key then some v else later

-- `Value::get` with a text
abbrev pub get : Text → Value → Option Value
get key (object fields) = fields_get key fields
get key _ = none

abbrev pub as_str : Value → Option Text
as_str (string s) = some s
as_str _ = none

abbrev pub elements : Values → List Value
elements nil = []
elements (cons v vs) = v ∷ elements vs

abbrev pub values : List Value → Values
values [] = nil
values (v ∷ vs) = cons v (values vs)
