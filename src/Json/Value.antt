-- ===== src/Json/Value.antt =====
-- JSON values and their tokens, for the bodies that src/backend_client.c writes.
use openwrt_edge_agent.Base.{ℕ, Bool, true, false, List, [], ◌∷◌, ◌++◌, if◌then◌else◌, Bytes, codes}
use openwrt_edge_agent.Decimal.{is_negative, magnitude}

-- A number is not negative, and an integer is given by its 32 bits. `Items` and `Members` are the lists inside an array and an object.
mutual
  pub data JsonValue : Type 0 where
    text : Bytes → JsonValue
    number : ℕ → JsonValue
    integer : ℕ → JsonValue
    truth : Bool → JsonValue
    array : Items → JsonValue
    object : Members → JsonValue

  pub data Items : Type 0 where
    no_items : Items
    item : JsonValue → Items → Items

  pub data Members : Type 0 where
    no_members : Members
    member : Bytes → JsonValue → Members → Members

abbrev pub members_of : List (Bytes × JsonValue) → Members
members_of [] = no_members
members_of ((k, v) ∷ members) = member k v (members_of members)

-- an object with these members
abbrev pub object_of : List (Bytes × JsonValue) → JsonValue
object_of members = object (members_of members)

abbrev pub items_of : List JsonValue → Items
items_of [] = no_items
items_of (v ∷ values) = item v (items_of values)

-- A mark is one of the six bytes that structure a text; digits are of a negative number or another.
pub data Token : Type 0 where
  mark : ℕ → Token
  quoted : Bytes → Token
  digits : Bool → ℕ → Token
  word : Bytes → Token

abbrev separator : Bool → List Token
separator first = if first then [] else mark b',' ∷ []

-- The tokens of a value, as the grammar of JSON has them.
unfoldable mutual
  pub tokens_of : JsonValue → List Token
  tokens_of (text t) = quoted t ∷ []
  tokens_of (number n) = digits false n ∷ []
  tokens_of (integer bits) = digits (is_negative bits) (magnitude bits) ∷ []
  tokens_of (truth b) = word (if b then codes "true" else codes "false") ∷ []
  tokens_of (array items) = mark b'[' ∷ (tokens_of_items true items ++ (mark b']' ∷ []))
  tokens_of (object members) = mark b'{' ∷ (tokens_of_members true members ++ (mark b'}' ∷ []))

  pub tokens_of_items : Bool → Items → List Token
  tokens_of_items first no_items = []
  tokens_of_items first (item v items) =
      separator first ++ (tokens_of v ++ tokens_of_items false items)

  pub tokens_of_members : Bool → Members → List Token
  tokens_of_members first no_members = []
  tokens_of_members first (member k v members) =
      separator first ++ (quoted k ∷ mark b':' ∷ (tokens_of v ++ tokens_of_members false members))
