-- ===== src/Conversion/Fields.antt =====
-- A member of an object that is built member by member.
use democrit_marketplace.Prelude.{
  ◌≡◌, refl, sym, ◌∙◌, subst, Bool, true, false, Option, none, some, is_some, get_or, Bytes, codes,
  bytes_eq, bytes_eq→eq, eq→bytes_eq, Bool-cases, inl, inr, if◌then◌else◌,
}
use democrit_marketplace.Conversion.{set_some, set_locked_flag}
use democrit_marketplace.Json.{
  Json, null, Members, end, member, find_member, has_member, set_member, bytes_lt, bool,
}

unfoldable pub lookup_member : Bytes → Members → Option Json
lookup_member k end = none
lookup_member k (member i j r) = if bytes_eq i k then some j else lookup_member k r

pub has_member-lookup_member :
    (k : Bytes) (m : Members) → has_member k m ≡ is_some (lookup_member k m)
unfolding has_member lookup_member
has_member-lookup_member k end = refl
has_member-lookup_member k (member i j r) = elim (Bool-cases (bytes_eq i k)) [
  | inl e ↦ rw e refl
  | inr e ↦ rw e (has_member-lookup_member k r)
]

pub find_member-lookup_member :
    (k : Bytes) (m : Members) → find_member k m ≡ get_or (lookup_member k m) null
unfolding find_member lookup_member
find_member-lookup_member k end = refl
find_member-lookup_member k (member i j r) = elim (Bool-cases (bytes_eq i k)) [
  | inl e ↦ rw e refl
  | inr e ↦ rw e (find_member-lookup_member k r)
]

ne : (k l i : Bytes) → bytes_eq i l ≡ false → bytes_eq i k ≡ true → bytes_eq l k ≡ false
ne k l i other here = elim (Bool-cases (bytes_eq l k)) [
  | inr e ↦ e
  | inl e ↦ cc (eq→bytes_eq i l (bytes_eq→eq i k here ∙ sym (bytes_eq→eq l k e)))
]

pub lookup_member-set_member :
    (k l : Bytes) (v : Json) (m : Members)
    → lookup_member k (set_member l v m) ≡ (if bytes_eq l k then some v else lookup_member k m)
unfolding lookup_member set_member
lookup_member-set_member k l v end = refl
lookup_member-set_member k l v (member i j r) = elim (Bool-cases (bytes_eq i l)) [
  | inl same ↦ rw same (elim (Bool-cases (bytes_eq l k)) [
    | inl e ↦ rw e refl
    | inr e ↦
        rw (e, subst (λ (x : Bytes). bytes_eq x k ≡ false) (sym (bytes_eq→eq i l same)) e) refl
  ])
  | inr other ↦ rw other (elim (Bool-cases (bytes_lt l i)) [
    | inl lt ↦ rw lt refl
    | inr ge ↦ rw ge (elim (Bool-cases (bytes_eq i k)) [
      | inl here ↦ rw (here, ne k l i other here) refl
      | inr e ↦ rw e (lookup_member-set_member k l v r)
    ])
  ])
]

-- What there was stays where nothing is set.
abbrev pub or_else : Option Json → Option Json → Option Json
or_else none o = o
or_else (some j) o = some j

abbrev pub map_some : {A : Type 0} → (A → Json) → Option A → Option Json
map_some f none = none
map_some f (some a) = some (f a)

pub lookup_member-set_some :
    {A : Type 0} (k l : Bytes) (f : A → Json) (o : Option A) (m : Members)
    → lookup_member k (set_some l f o m)
      ≡ (if bytes_eq l k then or_else (map_some f o) (lookup_member k m) else lookup_member k m)
lookup_member-set_some k l f none m = elim (Bool-cases (bytes_eq l k)) [
  | inl e ↦ rw e refl
  | inr e ↦ rw e refl
]
lookup_member-set_some k l f (some a) m = lookup_member-set_member k l (f a) m

pub lookup_member-set_locked_flag :
    (k : Bytes) (b : Bool) (m : Members)
    → bytes_eq (codes "locked") k ≡ false
    → lookup_member k (set_locked_flag b m) ≡ lookup_member k m
lookup_member-set_locked_flag k true m h =
    lookup_member-set_member k (codes "locked") (bool true) m ∙ rw h refl
lookup_member-set_locked_flag k false m h = refl
