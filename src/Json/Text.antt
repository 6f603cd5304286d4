-- ===== src/Json/Text.antt =====
-- Decimal numerals, and `asString`, which converts scalars.
use democrit_marketplace.Prelude.{
  ℕ, zero, suc, ◌+◌, ◌/◌, ◌%◌, ◌≡◌, refl, true, false, [], ◌∷◌, Bytes, codes, ltb, if◌then◌else◌,
}
use democrit_marketplace.Prelude.Int.{pos, negsuc}
use democrit_marketplace.Outcome.{Outcome, ok, abort}
use democrit_marketplace.Json.{Json, null, bool, num, real, str, arr, obj}

-- One digit a round, the last digit first. A round divides by ten, so `suc n` rounds are enough.
digits : ℕ → ℕ → Bytes → Bytes
digits zero n out = out
digits (suc fuel) n out =
    let more = digits fuel (n / 10) ((b'0' + n % 10) ∷ out) in
    if ltb n 10 then (b'0' + n) ∷ out else more

-- `operator<<` of an unsigned number, and std::to_string.
unfoldable pub decimal : ℕ → Bytes
unfolding digits
decimal n = digits (suc n) n []

-- asString, where the type has not been tested: an array or object has no text.
unfoldable pub as_string : Json → Outcome Bytes
unfolding decimal
as_string null = ok []
as_string (bool true) = ok (codes "true")
as_string (bool false) = ok (codes "false")
as_string (num (pos n)) = ok (decimal n)
as_string (num (negsuc n)) = ok (b'-' ∷ decimal (suc n))
as_string (real s) = ok s
as_string (str s) = ok s
as_string (arr _) = abort
as_string (obj _) = abort

decimal_test : decimal 18446744073709551615 ≡ codes "18446744073709551615"
unfolding decimal
decimal_test = refl
