-- ===== src/Json.antt =====
-- JSON values as Python loads them: an object is the list of its entries, each key once.
use customers_manager_hub.Prelude.{
  ℕ, String, Bool, Option, none, some, List, [], ◌∷◌, if◌then◌else◌,
}
use text.Mathlib.Text.{◌==◌ as str_eq}

mutual
  pub data Json : Type 0 where
    null : Json
    boolean : Bool → Json
    number : ℕ → Json
    string : String → Json
    array : Items → Json
    object : Fields → Json

  pub data Items : Type 0 where
    end_items : Items
    item : Json → Items → Items

  pub data Fields : Type 0 where
    end_fields : Fields
    field : String → Json → Fields → Fields

abbrev pub items : Items → List Json
items end_items = []
items (item x rest) = x ∷ items rest

abbrev pub keys : Fields → List String
keys end_fields = []
keys (field k v rest) = k ∷ keys rest

-- `value.get(key)`
abbrev pub get : Fields → String → Option Json
get end_fields key = none
get (field k v rest) key = if str_eq k key then some v else get rest key
