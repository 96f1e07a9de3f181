-- ===== src/Core/Json.antt =====
-- A `serde_json::Value`, and what crates/core/src/kento.rs asks of one. What text a value is parsed
-- from is not part of the repository. The members of an object stand in the order in which it
-- gives its values, one for each key.
use seadog.Prelude.{ℕ, Bool, Option, none, some, List, [], ◌∷◌, if◌then◌else◌, Text, text_eq}

-- A number is an integer of 64 bits, of either sign, or a float.
pub data Number : Type 0 where
  pos_int : ℕ → Number
  neg_int : ℕ → Number
  float : Number

mutual
  pub data Json : Type 0 where
    null : Json
    boolean : Bool → Json
    number : Number → Json
    string : Text → Json
    array : Items → Json
    object : Members → Json

  pub data Items : Type 0 where
    no_items : Items
    item : Json → Items → Items

  pub data Members : Type 0 where
    no_members : Members
    member : Text → Json → Members → Members

abbrev pub as_str : Json → Option Text
as_str (string s) = some s
as_str _ = none

abbrev pub as_u64 : Json → Option ℕ
as_u64 (number (pos_int n)) = some n
as_u64 _ = none

abbrev pub as_array : Json → Option Items
as_array (array items) = some items
as_array _ = none

abbrev pub as_object : Json → Option Members
as_object (object members) = some members
as_object _ = none

abbrev pub get : Text → Members → Option Json
get key no_members = none
get key (member k v members) = if text_eq k key then some v else get key members

-- Items and members one after the other.
abbrev pub append_items : Items → Items → Items
append_items no_items more = more
append_items (item v items) more = item v (append_items items more)

abbrev pub string_items : List Text → Items
string_items [] = no_items
string_items (s ∷ rest) = item (string s) (string_items rest)
