-- ===== src/Protocol/Json.antt =====
-- `serde_json::Value`, as its documentation gives it: a number is a `u64`, a negative `i64` or a float
-- (here its bits), and an object is a map from texts, so its entries are distinct by their keys.
use yeu_xharness.Base.{ℕ, Bool, Str, str_ord, Option, none, some, ◌==◌, if◌then◌else◌}

pub data Number : Type 0 where
  pos_int neg_int float : ℕ → Number

mutual
  pub data Value : Type 0 where
    null : Value
    bool : Bool → Value
    number : Number → Value
    string : Str → Value
    array : Values → Value
    object : Fields → Value

  pub data Values : Type 0 where
    nil : Values
    cons : Value → Values → Values

  pub data Fields : Type 0 where
    end : Fields
    field : Str → Value → Fields → Fields

-- `Value::get` at a key.
unfoldable pub field_of : Str → Fields → Option Value
field_of key end = none
field_of key (field k v fields) = if k == key then some v else field_of key fields

unfoldable pub member : Str → Value → Option Value
unfolding field_of
member key (object fields) = field_of key fields
member key _ = none

-- `Value::as_str`
abbrev pub as_str : Value → Option Str
as_str (string s) = some s
as_str _ = none
