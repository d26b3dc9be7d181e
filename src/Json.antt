-- ===== src/Json.antt =====
-- Values of the type `any` as `encoding/json` decodes them, and the numbers that the source tells
-- apart by their Go type.
pub mod Objects
use get_magnet.Common.{
  ℕ, ◌≡◌, refl, ap, Bool, true, false, Option, none, some, String, List, [], ◌∷◌,
}

pub data ℤ : Type 0 where
  pos negsuc : ℕ → ℤ

-- A float64 is one whose value is an integer in the range of int64, or any other, by its text.
pub data Number : Type 0 where
  json_number : String → Number
  whole_float : ℤ → Number
  other_float : String → Number
  int64 int int32 : ℤ → Number

mutual
  pub data Value : Type 0 where
    null : Value
    string : String → Value
    boolean : Bool → Value
    number : Number → Value
    -- A `[]string`, which is no `[]any`.
    text_list : List String → Value
    array : Items → Value
    object : Members → Value

  pub data Items : Type 0 where
    no_items : Items
    item : Value → Items → Items

  pub data Members : Type 0 where
    no_members : Members
    member : String → Value → Members → Members

abbrev pub items : Items → List Value
items no_items = []
items (item v vs) = v ∷ items vs

abbrev pub array_of : List Value → Items
array_of [] = no_items
array_of (v ∷ vs) = item v (array_of vs)

-- A Go map, in the order in which it is iterated.
abbrev pub Object : Type 0
Object = List (String × Value)

abbrev pub members : Members → Object
members no_members = []
members (member k v vs) = (k, v) ∷ members vs

abbrev pub members_of : Object → Members
members_of [] = no_members
members_of ((k, v) ∷ vs) = member k v (members_of vs)

pub items-array_of : (vs : List Value) → items (array_of vs) ≡ vs
items-array_of [] = refl
items-array_of (v ∷ vs) = ap (λ l. v ∷ l) (items-array_of vs)

pub array_of-items : (vs : Items) → array_of (items vs) ≡ vs
array_of-items no_items = refl
array_of-items (item v vs) = ap (item v) (array_of-items vs)
