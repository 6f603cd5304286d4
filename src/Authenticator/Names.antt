-- ===== src/Authenticator/Names.antt =====
-- authenticator.cpp: the names of accounts as XMPP names, and what DecodeName makes of any name.
pub mod Digits
use democrit_marketplace.Prelude.{
  ℕ, ◌+◌, ◌-◌, ◌*◌, ◌/◌, ◌%◌, ◌<◌, ◌≡◌, ◌≢◌, ◌⊎◌, inl, inr, refl, sym, ap, ◌∙◌, Bool, true, false,
  Option, none, some, not, [], ◌∷◌, ◌++◌, append-nil, append_assoc, Bytes, bytes_eq, bytes_eq→eq,
  ltb, ◌==◌, ◌&&◌, ◌||◌, length, take, drop, All, Bool-cases, Option-cases, some-inj, if◌then◌else◌,
  arith,
}
use democrit_marketplace.Outcome.{Outcome, ok, ok-inj}
use democrit_marketplace.Authenticator.{
  HexState, hex_step, hex_loop, finish_hex, hex_start, decode_hex, decode_name, is_simple_char,
  hex_char_value, all_simple, encoded_prefix,
}
use democrit_marketplace.Authenticator.Names.Digits.{
  IsByte, hex_digit, to_hex, between, hex_loop-to_hex, Decodes, hex_loop-Decodes, or_false, found,
}

-- A name that stands for itself on XMPP.
abbrev pub is_simple_name : Bytes → Bool
is_simple_name [] = false
is_simple_name (c ∷ rest) = all_simple (c ∷ rest)

-- The one XMPP name of an account.
unfoldable pub encode_name : Bytes → Bytes
encode_name a = if is_simple_name a then a else encoded_prefix ++ to_hex a

-- A simple character is a digit or a letter: a byte, and no '-'.
simple-IsByte : (a : Bytes) → all_simple a ≡ true → All IsByte a
unfolding all_simple is_simple_char
simple-IsByte [] h = tt
simple-IsByte (c ∷ a) h = elim (Bool-cases (is_simple_char c)) [
  | inl e ↦ (ground arith, simple-IsByte a (rw e at h))
  | inr e ↦ cc (rw e at h)
]

no_prefix : (a : Bytes) → all_simple a ≡ true → bytes_eq (take 2 a) encoded_prefix ≡ false
unfolding all_simple is_simple_char bytes_eq
no_prefix [] h = refl
no_prefix (c ∷ []) h = ground arith
no_prefix (c ∷ d ∷ a) h = ground arith

decode-simple : (a : Bytes) → is_simple_name a ≡ true → decode_name a ≡ ok (some a)
unfolding decode_name
decode-simple [] h = cc
decode-simple (c ∷ a) h = rw (decode_name, no_prefix (c ∷ a) h, h) refl

length-to_hex : (a : Bytes) → length (to_hex a) ≡ 2 * length a
unfolding to_hex
length-to_hex [] = refl
length-to_hex (c ∷ a) = omega (arith, length-to_hex a)

-- The loop's result where the digits have ended between two bytes.
finish-between :
    (f : Bool) (o : Bytes) → finish_hex (some (between f o)) ≡ ok (if f then some o else none)
unfolding finish_hex
finish-between f o = refl

to_hex-decode_hex :
    (a : Bytes) → All IsByte a → is_simple_name a ≡ false → decode_hex (to_hex a) ≡ ok (some a)
unfolding decode_hex to_hex
to_hex-decode_hex [] all h = refl
to_hex-decode_hex (c ∷ a) all h =
    let e : hex_loop (to_hex (c ∷ a)) hex_start ≡ some (between true (c ∷ a)) =
      hex_loop-to_hex (c ∷ a) false [] all ∙ (rw h refl) in
    ap finish_hex e ∙ finish-between true (c ∷ a)

decode-encoded :
    (d : Bytes)
    → decode_name (encoded_prefix ++ d)
      ≡ (if not (length d % 2 == 0) then ok none else decode_hex d)
unfolding decode_name bytes_eq
decode-encoded d = refl

prefix-drop :
    (n : Bytes) → bytes_eq (take 2 n) encoded_prefix ≡ true → n ≡ encoded_prefix ++ drop 2 n
unfolding bytes_eq
prefix-drop [] h = cc
prefix-drop (c ∷ []) h = ground arith
prefix-drop (c ∷ d ∷ n) h = ap (λ (x : Bytes). x ++ n) (bytes_eq→eq (c ∷ d ∷ []) encoded_prefix h)

-- DecodeName undoes the encoding: the XMPP name of an account is a name for which it returns true,
-- with that account, whatever the bytes of the account.
pub decode_name-encode_name : (a : Bytes) → All IsByte a → decode_name (encode_name a) ≡ ok (some a)
unfolding encode_name
decode_name-encode_name a all = elim (Bool-cases (is_simple_name a)) [
  | inl e ↦ rw e (decode-simple a e)
  | inr e ↦ rw e (
      decode-encoded (to_hex a)
      ∙ (rw (length-to_hex a, even (length a)) (to_hex-decode_hex a all e)))
]
  where
    even : (k : ℕ) → (((2 * k) % 2) == 0) ≡ true
    even k = ground arith

-- What DecodeName may return for the name.
abbrev pub DecodesTo : Bytes → Outcome (Option Bytes) → Type 0
DecodesTo n r =
    ((a : Bytes) × All IsByte a × (n ≡ encode_name a) × (r ≡ ok (some a))) ⊎ (r ≡ ok none)

of_bytes :
    (s bs : Bytes) (f : Bool)
    → All IsByte bs
    → s ≡ to_hex bs
    → f ≡ not (all_simple bs)
    → DecodesTo (encoded_prefix ++ s) (ok (if f then some bs else none))
unfolding encode_name all_simple
of_bytes s [] f all e ef = inr (rw ef refl)
of_bytes s (b ∷ bs) f all e ef = elim (Bool-cases (all_simple (b ∷ bs))) [
  | inl simple ↦ inr (rw (ef, simple) refl)
  | inr other ↦ inl (b ∷ bs, all, (rw (e, encode_name, other) refl), (rw (ef, other) refl))
]

decode_hex-DecodesTo :
    (s : Bytes) → length s % 2 ≡ 0 → DecodesTo (encoded_prefix ++ s) (decode_hex s)
unfolding decode_hex to_hex encode_name finish_hex
decode_hex-DecodesTo [] even = inl ([], tt, refl, refl)
decode_hex-DecodesTo (c ∷ s) even = elim (Option-cases (hex_loop (c ∷ s) hex_start)) [
  | inl e ↦ inr (ap finish_hex e)
  | inr (h, e) ↦
      let (bs, all, es, eh) = hex_loop-Decodes (c ∷ s) false [] h even e in
      rw (decode_hex, e, eh) (of_bytes (c ∷ s) bs (not (all_simple bs)) all es refl)
]

prefixed : (n d : Bytes) → n ≡ encoded_prefix ++ d → DecodesTo n (decode_name n)
prefixed n d e =
    rw (e, decode-encoded d)
      (elim (Bool-cases (length d % 2 == 0)) [
        | inl even ↦ rw even (decode_hex-DecodesTo d (ground arith))
        | inr odd ↦ rw odd (inr refl)
      ])

plain :
    (c : ℕ) (n : Bytes)
    → bytes_eq (take 2 (c ∷ n)) encoded_prefix ≡ false
    → DecodesTo (c ∷ n) (decode_name (c ∷ n))
unfolding decode_name encode_name
plain c n h = elim (Bool-cases (all_simple (c ∷ n))) [
  | inl e ↦
      inl (c ∷ n, simple-IsByte (c ∷ n) e, (rw (encode_name, e) refl), decode-simple (c ∷ n) e)
  | inr e ↦ inr (rw (decode_name, h, e) refl)
]

decode_name-DecodesTo : (n : Bytes) → DecodesTo n (decode_name n)
unfolding decode_name
decode_name-DecodesTo [] = inr refl
decode_name-DecodesTo (c ∷ n) = elim (Bool-cases (bytes_eq (take 2 (c ∷ n)) encoded_prefix)) [
  | inl e ↦ prefixed (c ∷ n) (drop 2 (c ∷ n)) (prefix-drop (c ∷ n) e)
  | inr e ↦ plain c n e
]

-- Whatever the XMPP name, DecodeName returns and no CHECK in it fails. Either the name is the
-- encoding of an account, and it returns true with that account; or it is the encoding of no
-- account, and it returns false. So no two XMPP names give the same account.
pub decode_name_exact :
    (n : Bytes)
    → ((a : Bytes) × All IsByte a × (n ≡ encode_name a) × (decode_name n ≡ ok (some a)))
      ⊎ ((decode_name n ≡ ok none) × ((a : Bytes) → All IsByte a → n ≢ encode_name a))
decode_name_exact n = elim (decode_name-DecodesTo n) [
  | inl (a, all, e, r) ↦ inl (a, all, e, r)
  | inr r ↦
      inr (r, λ a. λ all. λ e. none_ne_some (r, ap decode_name e ∙ decode_name-encode_name a all))
]
  where
    none_ne_some : {a : Bytes} → (decode_name n ≡ ok none) × (decode_name n ≡ ok (some a)) → ⊥
    none_ne_some (p, q) = cc (ok-inj (sym p ∙ q))
