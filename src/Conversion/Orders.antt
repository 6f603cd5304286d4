-- ===== src/Conversion/Orders.antt =====
-- An order, written as JSON and read back.
use democrit_marketplace.Prelude.{
  ℕ, ◌^◌, ◌<◌, ◌≤◌, ◌≡◌, refl, ◌∙◌, true, false, Option, none, some, get_or, Bytes, bytes_eq, codes,
  leb, arith,
}
use democrit_marketplace.Prelude.Int.{to_int64}
use democrit_marketplace.Outcome.{ok}
use democrit_marketplace.Json.{Json, str, obj, Members, is_uint64, uint_of}
use democrit_marketplace.Proto.{OrderType, ask, bid, Order}
use democrit_marketplace.Conversion.{
  int_to_json, order_type_text, order_members, order_to_json, read_string, read_uint64, need_uint64,
  read_type, read_order, order_from_json, least_units,
}
use democrit_marketplace.Conversion.Fields.{
  lookup_member, has_member-lookup_member, find_member-lookup_member, lookup_member-set_member,
  lookup_member-set_some, lookup_member-set_locked_flag, or_else, map_some,
}

-- The members of an order, one by one.
record Holds (o : Order) (m : Members) : Type 0 where
  account : lookup_member (codes "account") m ≡ map_some str o.account
  id : lookup_member (codes "id") m ≡ map_some int_to_json o.id
  asset : lookup_member (codes "asset") m ≡ map_some str o.asset
  min_units : lookup_member (codes "min_units") m ≡ some (int_to_json (get_or o.min_units 1))
  max_units : lookup_member (codes "max_units") m ≡ some (int_to_json o.max_units)
  price_sat : lookup_member (codes "price_sat") m ≡ some (int_to_json (get_or o.price_sat 0))
  type : lookup_member (codes "type") m ≡ map_some (λ t. str (order_type_text t)) o.type

or_else-none : (o : Option Json) → or_else o none ≡ o
or_else-none none = refl
or_else-none (some j) = refl

ruleset lookups = (lookup_member-set_member, lookup_member-set_some, or_else-none)

order_members-Holds : (o : Order) → Holds o (order_members o)
unfolding order_members lookup_member bytes_eq
order_members-Holds o = record {
  account = lookup_member-set_locked_flag (codes "account") o.locked _ refl ∙ simp lookups;
  id = lookup_member-set_locked_flag (codes "id") o.locked _ refl ∙ simp lookups;
  asset = lookup_member-set_locked_flag (codes "asset") o.locked _ refl ∙ simp lookups;
  min_units = lookup_member-set_locked_flag (codes "min_units") o.locked _ refl ∙ simp lookups;
  max_units = lookup_member-set_locked_flag (codes "max_units") o.locked _ refl ∙ simp lookups;
  price_sat = lookup_member-set_locked_flag (codes "price_sat") o.locked _ refl ∙ simp lookups;
  type = lookup_member-set_locked_flag (codes "type") o.locked _ refl ∙ simp lookups;
}

-- A number that int64_t has is read back as it was written.
abbrev pub IsSmall : ℕ → Type 0
IsSmall n = n < 2 ^ 63

is_uint64-int_to_json : (n : ℕ) → IsSmall n → is_uint64 (int_to_json n) ≡ true
is_uint64-int_to_json n h = ground arith

pub uint_of-int_to_json : (n : ℕ) → IsSmall n → uint_of (int_to_json n) ≡ n
uint_of-int_to_json n h = ground arith

read_string-lookup :
    (m : Members) (k : Bytes) (o : Option Bytes)
    → lookup_member k m ≡ map_some str o
    → read_string (obj m) k ≡ some o
read_string-lookup m k none h = rw (has_member-lookup_member k m, h) refl
read_string-lookup m k (some s) h =
    rw (has_member-lookup_member k m, find_member-lookup_member k m, h) refl

read_uint64-lookup :
    (m : Members) (k : Bytes) (n : ℕ)
    → lookup_member k m ≡ some (int_to_json n)
    → IsSmall n
    → read_uint64 (obj m) k ≡ some (some n)
read_uint64-lookup m k n h small =
    rw
      (
        has_member-lookup_member k m,
        find_member-lookup_member k m,
        h,
        is_uint64-int_to_json n small,
        uint_of-int_to_json n small,
      )
      refl

read_uint64-missing :
    (m : Members) (k : Bytes) → lookup_member k m ≡ none → read_uint64 (obj m) k ≡ some none
read_uint64-missing m k h = rw (has_member-lookup_member k m, h) refl

need_uint64-lookup :
    (m : Members) (k : Bytes) (n : ℕ)
    → lookup_member k m ≡ some (int_to_json n)
    → IsSmall n
    → need_uint64 (obj m) k ≡ some n
need_uint64-lookup m k n h small =
    rw
      (find_member-lookup_member k m, h, is_uint64-int_to_json n small, uint_of-int_to_json n small)
      refl

read_type-lookup :
    (m : Members) (t : Option OrderType)
    → lookup_member (codes "type") m ≡ map_some (λ t. str (order_type_text t)) t
    → read_type (obj m) ≡ some t
unfolding bytes_eq
read_type-lookup m none h = rw (has_member-lookup_member (codes "type") m, h) refl
read_type-lookup m (some ask) h =
    rw (has_member-lookup_member (codes "type") m, find_member-lookup_member (codes "type") m, h)
      refl
read_type-lookup m (some bid) h =
    rw (has_member-lookup_member (codes "type") m, find_member-lookup_member (codes "type") m, h)
      refl

-- The numbers of an order that int64_t has.
pub record IsRepresentable (o : Order) : Type 0 where
  pub id : IsSmall (get_or o.id 0)
  pub min_units : IsSmall (get_or o.min_units 1)
  pub max_units : IsSmall o.max_units
  pub price_sat : IsSmall (get_or o.price_sat 0)

read_id :
    (m : Members) (id : Option ℕ)
    → lookup_member (codes "id") m ≡ map_some int_to_json id
    → IsSmall (get_or id 0)
    → read_uint64 (obj m) (codes "id") ≡ some id
read_id m none h small = read_uint64-missing m (codes "id") h
read_id m (some id) h small = read_uint64-lookup m (codes "id") id h small

-- What an order is after a round trip: a missing minimum is one, a missing price is zero, and the
-- lock is not read.
abbrev pub normalised : Order → Order
normalised o = record o {
  min_units = some (get_or o.min_units 1);
  price_sat = some (get_or o.price_sat 0);
  locked = false;
}

read_order-Holds :
    (o : Order) (m : Members)
    → Holds o m
    → IsRepresentable o
    → read_order (obj m) ≡ some (normalised o)
unfolding read_order
read_order-Holds o m h r =
    rw
      (
        read_string-lookup m (codes "account") o.account h.account,
        read_id m o.id h.id r.id,
        read_string-lookup m (codes "asset") o.asset h.asset,
        read_uint64-lookup m (codes "min_units") (get_or o.min_units 1) h.min_units r.min_units,
        need_uint64-lookup m (codes "max_units") o.max_units h.max_units r.max_units,
        need_uint64-lookup m (codes "price_sat") (get_or o.price_sat 0) h.price_sat r.price_sat,
        read_type-lookup m o.type h.type,
      )
      refl

-- Where the numbers of an order are below 2^63 and its maximum is at least one and at least its
-- minimum, it is written as JSON, and ProtoFromJson gives it back, with a minimum of one where
-- there was none, a price of zero where there was none, and not locked.
pub order_from_json-order_to_json :
    (o : Order)
    → IsRepresentable o
    → least_units (to_int64 (get_or o.min_units 0)) ≤ o.max_units
    → (j : Json) × (order_to_json o ≡ ok j) × (order_from_json j ≡ some (normalised o))
unfolding order_to_json order_from_json
order_from_json-order_to_json o r least = (
  obj (order_members o),
  rw (leb-true least) refl,
  read_order-Holds o (order_members o) (order_members-Holds o) r,
)
  where
    leb-true : {a b : ℕ} → a ≤ b → leb a b ≡ true
    leb-true h = ground arith
