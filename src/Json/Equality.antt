-- ===== src/Json/Equality.antt =====
-- operator== of Json::Value.
use democrit_marketplace.Prelude.{
  ◌≡◌, refl, Bool, true, false, ◌&&◌, bytes_eq, bytes_eq→eq, bytes_eq_refl, ◌≢◌, ap, arith, &&-true,
}
use democrit_marketplace.Prelude.Int.{ℤ, pos, negsuc, eqb_ℤ}
use democrit_marketplace.Json.{
  Json, null, bool, num, real, str, arr, obj, Items, nil, cons, Members, end, member,
}

abbrev bool_eq : Bool → Bool → Bool
bool_eq true true = true
bool_eq false false = true
bool_eq _ _ = false

unfoldable mutual
  pub json_eq : Json → Json → Bool
  json_eq null null = true
  json_eq (bool a) (bool b) = bool_eq a b
  json_eq (num a) (num b) = eqb_ℤ a b
  json_eq (real a) (real b) = bytes_eq a b
  json_eq (str a) (str b) = bytes_eq a b
  json_eq (arr a) (arr b) = items_eq a b
  json_eq (obj a) (obj b) = members_eq a b
  json_eq _ _ = false

  pub items_eq : Items → Items → Bool
  items_eq nil nil = true
  items_eq (cons a r) (cons b s) = json_eq a b && items_eq r s
  items_eq _ _ = false

  pub members_eq : Members → Members → Bool
  members_eq end end = true
  members_eq (member k a r) (member l b s) = bytes_eq k l && (json_eq a b && members_eq r s)
  members_eq _ _ = false

bool_eq→eq : (a b : Bool) → bool_eq a b ≡ true → a ≡ b
bool_eq→eq true true h = refl
bool_eq→eq false false h = refl
bool_eq→eq true false h = ground arith
bool_eq→eq false true h = ground arith

pub eqb_ℤ→eq : (a b : ℤ) → eqb_ℤ a b ≡ true → a ≡ b
eqb_ℤ→eq (pos m) (pos n) h = ground arith
eqb_ℤ→eq (negsuc m) (negsuc n) h = ground arith
eqb_ℤ→eq (pos m) (negsuc n) h = ground arith
eqb_ℤ→eq (negsuc m) (pos n) h = ground arith

-- Values that compare equal are equal.
mutual
  unfolding json_eq

  eq_sound : (a b : Json) → json_eq a b ≡ true → a ≡ b
  eq_sound null null h = refl
  eq_sound (bool a) (bool b) h = ap bool (bool_eq→eq a b h)
  eq_sound (num a) (num b) h = ap num (eqb_ℤ→eq a b h)
  eq_sound (real a) (real b) h = ap real (bytes_eq→eq a b h)
  eq_sound (str a) (str b) h = ap str (bytes_eq→eq a b h)
  eq_sound (arr a) (arr b) h = ap arr (items_sound a b h)
  eq_sound (obj a) (obj b) h = ap obj (members_sound a b h)
  eq_sound _ _ h = cc

  items_sound : (a b : Items) → items_eq a b ≡ true → a ≡ b
  items_sound nil nil h = refl
  items_sound (cons a r) (cons b s) h =
      let both = &&-true (json_eq a b) (items_eq r s) h in
      cc (eq_sound a b both.0, items_sound r s both.1)
  items_sound _ _ h = cc

  members_sound : (a b : Members) → members_eq a b ≡ true → a ≡ b
  members_sound end end h = refl
  members_sound (member k a r) (member l b s) h =
      let both = &&-true (bytes_eq k l) _ h in
      let rest = &&-true (json_eq a b) (members_eq r s) both.1 in
      cc (bytes_eq→eq k l both.0, eq_sound a b rest.0, members_sound r s rest.1)
  members_sound _ _ h = cc

pub json_eq→eq : (a b : Json) → json_eq a b ≡ true → a ≡ b
json_eq→eq = eq_sound

bool_eq_refl : (b : Bool) → bool_eq b b ≡ true
bool_eq_refl true = refl
bool_eq_refl false = refl

eqb_ℤ_refl : (z : ℤ) → eqb_ℤ z z ≡ true
eqb_ℤ_refl (pos n) = ground arith
eqb_ℤ_refl (negsuc n) = ground arith

mutual
  unfolding json_eq

  eq_complete : (a : Json) → json_eq a a ≡ true
  eq_complete null = refl
  eq_complete (bool b) = bool_eq_refl b
  eq_complete (num z) = eqb_ℤ_refl z
  eq_complete (real s) = bytes_eq_refl s
  eq_complete (str s) = bytes_eq_refl s
  eq_complete (arr r) = items_complete r
  eq_complete (obj m) = members_complete m

  items_complete : (r : Items) → items_eq r r ≡ true
  items_complete nil = refl
  items_complete (cons a r) = rw (eq_complete a, items_complete r) refl

  members_complete : (m : Members) → members_eq m m ≡ true
  members_complete end = refl
  members_complete (member k a r) = rw (bytes_eq_refl k, eq_complete a, members_complete r) refl

pub json_eq_refl : (a : Json) → json_eq a a ≡ true
json_eq_refl = eq_complete

-- Values that do not compare equal differ.
pub json_eq→ne : (a b : Json) → json_eq a b ≡ false → a ≢ b
json_eq→ne a b h e = cc (json_eq_refl b, ap (λ (j : Json). json_eq j b) e)
