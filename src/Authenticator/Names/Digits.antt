-- ===== src/Authenticator/Names/Digits.antt =====
-- authenticator.cpp: the loop of DecodeName over hex digits.
use democrit_marketplace.Prelude.{
  ℕ, ◌+◌, ◌-◌, ◌*◌, ◌/◌, ◌%◌, ◌<◌, ◌≡◌, inl, inr, refl, sym, ap, ◌∙◌, Bool, true, false, none, some,
  not, [], ◌∷◌, ◌++◌, append-nil, append_assoc, Bytes, ltb, ◌&&◌, ◌||◌, length, All, Option-cases,
  some-inj, if◌then◌else◌, arith,
}
use democrit_marketplace.Authenticator.{
  HexState, hex_step, hex_loop, is_simple_char, hex_char_value, all_simple,
}

abbrev pub IsByte : ℕ → Type 0
IsByte c = c < 256

-- The lower-case digit of a value below 16.
unfoldable pub hex_digit : ℕ → ℕ
hex_digit v = if ltb v 10 then 48 + v else 87 + v

unfoldable pub to_hex : Bytes → Bytes
to_hex [] = []
to_hex (c ∷ rest) = hex_digit (c / 16) ∷ hex_digit (c % 16) ∷ to_hex rest

hex_char_value-hex_digit : (v : ℕ) → v < 16 → hex_char_value (hex_digit v) ≡ some v
unfolding hex_char_value hex_digit
hex_char_value-hex_digit v h = ground arith

is_digit : (c v : ℕ) → hex_char_value c ≡ some v → (c ≡ hex_digit v) × (v < 16)
unfolding hex_char_value hex_digit
is_digit c v h = ground (
  arith,
  λ (e : some (c - 48) ≡ some v). some-inj e,
  λ (e : some (10 + (c - 97)) ≡ some v). some-inj e,
)

-- Between two bytes, after `o` with `f` for what has been found.
abbrev pub between : Bool → Bytes → HexState
between f o = record { cur = 0; in_byte = false; found_non_simple = f; out = o }

two_steps :
    (v w : ℕ) (f : Bool) (o : Bytes)
    → v < 16
    → hex_step w (hex_step v (between f o))
      ≡ between (f || not (is_simple_char (v * 16 + w))) (o ++ (v * 16 + w) ∷ [])
unfolding hex_step
two_steps v w f o h =
    let e : ((0 + v) * 16) % 256 + w ≡ v * 16 + w = omega arith in
    ap (λ (x : ℕ). between (f || not (is_simple_char x)) (o ++ x ∷ [])) e

pub or_false : (f : Bool) → (f || false) ≡ f
or_false true = refl
or_false false = refl

-- What has been found after more bytes.
pub found : (f x y : Bool) → ((f || not x) || not y) ≡ (f || not (x && y))
found true x y = refl
found false true y = refl
found false false y = refl

-- Two digits of the loop's input.
loop_digits :
    (c d v w : ℕ) (rest : Bytes) (f : Bool) (o : Bytes)
    → hex_char_value c ≡ some v
    → hex_char_value d ≡ some w
    → v < 16
    → hex_loop (c ∷ d ∷ rest) (between f o)
      ≡ hex_loop rest (between (f || not (is_simple_char (v * 16 + w))) (o ++ (v * 16 + w) ∷ []))
unfolding hex_loop
loop_digits c d v w rest f o hc hd v16 = rw (hex_loop, hc, hex_loop, hd, two_steps v w f o v16) refl

pub hex_loop-to_hex :
    (bs : Bytes) (f : Bool) (o : Bytes)
    → All IsByte bs
    → hex_loop (to_hex bs) (between f o) ≡ some (between (f || not (all_simple bs)) (o ++ bs))
unfolding to_hex hex_loop all_simple
hex_loop-to_hex [] f o h = rw (append-nil, or_false f) refl
hex_loop-to_hex (c ∷ bs) f o (hc, h) =
    let whole : (c / 16) * 16 + c % 16 ≡ c = omega arith in
    let here =
      loop_digits (hex_digit (c / 16)) (hex_digit (c % 16)) (c / 16) (c % 16) (to_hex bs) f o
        (hex_char_value-hex_digit (c / 16) (omega arith))
        (hex_char_value-hex_digit (c % 16) (omega arith)) (omega arith) in
    let later = hex_loop-to_hex bs (f || not (is_simple_char c)) (o ++ c ∷ []) h in
    let ends : some
          (between ((f || not (is_simple_char c)) || not (all_simple bs)) ((o ++ c ∷ []) ++ bs))
        ≡ some (between (f || not (is_simple_char c && all_simple bs)) (o ++ c ∷ bs)) =
      rw (found f (is_simple_char c) (all_simple bs), append_assoc o (c ∷ []) bs) refl in
    (rw whole at here) ∙ later ∙ ends

-- The loop over an even number of digits: `some` only between two bytes, after bytes that these are the digits of.
abbrev pub Decodes : Bytes → Bool → Bytes → HexState → Type 0
Decodes s f o h =
    (bs : Bytes) × All IsByte bs
    × (s ≡ to_hex bs)
    × (h ≡ between (f || not (all_simple bs)) (o ++ bs))

loop-none :
    (c : ℕ) (rest : Bytes) (h : HexState) → hex_char_value c ≡ none → hex_loop (c ∷ rest) h ≡ none
unfolding hex_loop
loop-none c rest h e = rw (hex_loop, e) refl

loop-none₂ :
    (c d v : ℕ) (rest : Bytes) (h : HexState)
    → hex_char_value c ≡ some v
    → hex_char_value d ≡ none
    → hex_loop (c ∷ d ∷ rest) h ≡ none
unfolding hex_loop
loop-none₂ c d v rest h hc hd = rw (hex_loop, hc, hex_loop, hd) refl

extend :
    (c d v w : ℕ) (rest : Bytes) (f : Bool) (o : Bytes) (h : HexState)
    → hex_char_value c ≡ some v
    → hex_char_value d ≡ some w
    → Decodes rest (f || not (is_simple_char (v * 16 + w))) (o ++ (v * 16 + w) ∷ []) h
    → Decodes (c ∷ d ∷ rest) f o h
unfolding to_hex all_simple
extend c d v w rest f o h hc hd (bs, all, e, s) =
    let (ec, v16) = is_digit c v hc in
    let (ed, w16) = is_digit d w hd in
    let high : (v * 16 + w) / 16 ≡ v = omega arith in
    let low : (v * 16 + w) % 16 ≡ w = omega arith in
    (
      (v * 16 + w) ∷ bs,
      (omega arith, all),
      rw (high, low, ec, ed, e) refl,
      s
          ∙ (rw
              (
                found f (is_simple_char (v * 16 + w)) (all_simple bs),
                append_assoc o ((v * 16 + w) ∷ []) bs,
              )
              refl),
    )

pub hex_loop-Decodes :
    (s : Bytes) (f : Bool) (o : Bytes) (h : HexState)
    → length s % 2 ≡ 0
    → hex_loop s (between f o) ≡ some h
    → Decodes s f o h
unfolding to_hex hex_loop all_simple
hex_loop-Decodes [] f o h even e =
    ([], tt, refl, sym (some-inj e) ∙ (rw (append-nil, or_false f) refl))
hex_loop-Decodes (c ∷ []) f o h even e = ground arith
hex_loop-Decodes (c ∷ d ∷ rest) f o h even e = elim (Option-cases (hex_char_value c)) [
  | inl bad ↦ cc (loop-none c (d ∷ rest) (between f o) bad)
  | inr (v, hc) ↦ elim (Option-cases (hex_char_value d)) [
    | inl bad ↦ cc (loop-none₂ c d v rest (between f o) hc bad)
    | inr (w, hd) ↦ extend c d v w rest f o h hc hd (
        hex_loop-Decodes rest (f || not (is_simple_char (v * 16 + w))) (o ++ (v * 16 + w) ∷ []) h
          (omega arith) (sym (loop_digits c d v w rest f o hc hd (is_digit c v hc).1) ∙ e))
  ]
]
