-- ===== src/Json.antt =====
-- Json::Value of jsoncpp, as the program reads and builds it: the type tests go by the value of a
-- number, a missing member reads as null, and an object holds its members in the order of its keys.
pub mod Equality
pub mod Text
use democrit_marketplace.Prelude.{
  ℕ, ◌^◌, Bool, true, false, List, [], ◌∷◌, Bytes, bytes_eq, ltb, ◌==◌, if◌then◌else◌,
}
use democrit_marketplace.Prelude.Int.{ℤ, pos, negsuc}
use democrit_marketplace.Outcome.{Outcome, ok, abort}

-- `num` is a number whose value is integral, `real` any other number, by its text.
mutual
  pub data Json : Type 0 where
    null : Json
    bool : Bool → Json
    num : ℤ → Json
    real : Bytes → Json
    str : Bytes → Json
    arr : Items → Json
    obj : Members → Json

  pub data Items : Type 0 where
    nil : Items
    cons : Json → Items → Items

  pub data Members : Type 0 where
    end : Members
    member : Bytes → Json → Members → Members

abbrev pub elements : Items → List Json
elements nil = []
elements (cons j r) = j ∷ elements r

abbrev pub items : List Json → Items
items [] = nil
items (j ∷ r) = cons j (items r)

-- Json::arrayValue, with the values appended to it.
abbrev pub array : List Json → Json
array js = arr (items js)

unfoldable pub find_member : Bytes → Members → Json
find_member k end = null
find_member k (member i j r) = if bytes_eq i k then j else find_member k r

unfoldable pub has_member : Bytes → Members → Bool
has_member k end = false
has_member k (member i j r) = if bytes_eq i k then true else has_member k r

-- std::map keeps its keys in the order of std::string.
unfoldable pub bytes_lt : Bytes → Bytes → Bool
bytes_lt [] [] = false
bytes_lt [] (b ∷ t) = true
bytes_lt (a ∷ s) [] = false
bytes_lt (a ∷ s) (b ∷ t) = if ltb a b then true else if ltb b a then false else bytes_lt s t

unfoldable pub set_member : Bytes → Json → Members → Members
unfolding bytes_lt
set_member k v end = member k v end
set_member k v (member i j r) =
    if bytes_eq i k
    then member k v r
    else if bytes_lt k i
    then member k v (member i j r)
    else member i j (set_member k v r)

unfoldable pub remove_member : Bytes → Members → Members
remove_member k end = end
remove_member k (member i j r) = if bytes_eq i k then r else member i j (remove_member k r)

abbrev pub is_object : Json → Bool
is_object (obj m) = true
is_object _ = false

abbrev pub is_array : Json → Bool
is_array (arr xs) = true
is_array _ = false

abbrev pub is_string : Json → Bool
is_string (str s) = true
is_string _ = false

abbrev pub is_bool : Json → Bool
is_bool (bool b) = true
is_bool _ = false

abbrev pub is_null : Json → Bool
is_null null = true
is_null _ = false

-- isUInt: a value of uint32_t
abbrev pub is_uint : Json → Bool
is_uint (num (pos n)) = ltb n (2 ^ 32)
is_uint _ = false

abbrev pub is_uint64 : Json → Bool
is_uint64 (num (pos n)) = ltb n (2 ^ 64)
is_uint64 _ = false

abbrev pub is_int64 : Json → Bool
is_int64 (num (pos n)) = ltb n (2 ^ 63)
is_int64 (num (negsuc n)) = ltb n (2 ^ 63)
is_int64 _ = false

-- operator[] by a key, where the value has been found to be an object (or is null).
abbrev pub field : Json → Bytes → Json
field (obj m) k = find_member k m
field _ k = null

abbrev pub is_member : Json → Bytes → Bool
is_member (obj m) k = has_member k m
is_member _ k = false

abbrev pub elements_of : Json → List Json
elements_of (arr xs) = elements xs
elements_of _ = []

-- operator[] by a key, where the type has not been tested: null reads as an empty object.
abbrev pub get_member : Json → Bytes → Outcome Json
get_member (obj m) k = ok (find_member k m)
get_member null k = ok null
get_member _ k = abort

-- asString, asUInt and asBool where the type has been tested.
abbrev pub string_of : Json → Bytes
string_of (str s) = s
string_of _ = []

abbrev pub uint_of : Json → ℕ
uint_of (num (pos n)) = n
uint_of _ = 0

abbrev pub int_of : Json → ℤ
int_of (num z) = z
int_of _ = pos 0

abbrev pub bool_of : Json → Bool
bool_of (bool b) = b
bool_of _ = false

-- An object with one more member: `res[k] = v`.
abbrev pub with_member : Json → Bytes → Json → Json
with_member (obj m) k v = obj (set_member k v m)
with_member null k v = obj (member k v end)
with_member j k v = j

abbrev pub empty_object : Json
empty_object = obj end
