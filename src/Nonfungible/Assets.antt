-- ===== src/Nonfungible/Assets.antt =====
-- nonfungible/main.cpp, GetNfAsset: the minter and the name that an asset stands for.
use democrit_marketplace.Prelude.{
  ℕ, ◌≡◌, ◌≢◌, ◌⊎◌, inl, inr, refl, sym, ap, none, some, [], ◌∷◌, ◌++◌, append-nil, append_assoc,
  Bytes, bytes_eq, All, ◌==◌, Bool-cases, arith,
}
use democrit_marketplace.Json.{Json, null, field, string_of, set_member, find_member, bytes_lt}
use democrit_marketplace.Nonfungible.{split_line, asset_json, asset_of_parts, get_nf_asset}

abbrev pub IsInLine : ℕ → Type 0
IsInLine c = c ≢ b'\n'

-- The asset of a minter's name and an asset's name.
abbrev pub joined : Bytes → Bytes → Bytes
joined minter name = minter ++ b'\n' ∷ name

abbrev IsParted : Bytes → Bytes → Type 0
IsParted before s =
    ((m : Bytes) × (a : Bytes) × All IsInLine m
      × (s ≡ joined m a)
      × (split_line before s ≡ some (before ++ m, a)))
    ⊎ (All IsInLine s × (split_line before s ≡ none))

split_line-IsParted : (before s : Bytes) → IsParted before s
unfolding split_line
split_line-IsParted before [] = inr (tt, refl)
split_line-IsParted before (c ∷ s) = elim (Bool-cases (c == b'\n')) [
  | inl e ↦
      inl ([], s, tt, ap (λ (x : ℕ). x ∷ s) (ground arith), (rw (split_line, e, append-nil) refl))
  | inr e ↦
      let apart : IsInLine c = λ (h : c ≡ b'\n'). ground arith in
      elim (split_line-IsParted (before ++ c ∷ []) s) [
        | inl (m, a, line, es, r) ↦ inl (
          c ∷ m,
          a,
          (apart, line),
          ap (λ (x : Bytes). c ∷ x) es,
          (rw (split_line, e, r, append_assoc before (c ∷ []) m) refl),
        )
        | inr (line, r) ↦ inr ((apart, line), (rw (split_line, e, r) refl))
      ]
]

-- The asset that GetNfAsset's value stands for.
abbrev pub asset_of_json : Json → Bytes
asset_of_json j = joined (string_of (field j (b'm' ∷ []))) (string_of (field j (b'a' ∷ [])))

-- An asset with a line break is split at the first one: GetNfAsset returns an object of the part
-- before it, as the minter "m", and the rest, as the asset's name "a", which gives the asset back
-- when it is joined. For any other asset it returns null.
pub get_nf_asset_exact :
    (s : Bytes)
    → ((m : Bytes) × (a : Bytes) × All IsInLine m
        × (s ≡ joined m a)
        × (get_nf_asset s ≡ asset_json m a)
        × (asset_of_json (get_nf_asset s) ≡ s))
      ⊎ (All IsInLine s × (get_nf_asset s ≡ null))
unfolding get_nf_asset asset_of_parts set_member find_member bytes_eq bytes_lt
get_nf_asset_exact s = elim (split_line-IsParted [] s) [
  | inl (m, a, line, e, r) ↦
      let parsed : get_nf_asset s ≡ asset_json m a = ap asset_of_parts r in
      inl (m, a, line, e, parsed, (rw parsed (sym e)))
  | inr (line, r) ↦ inr (line, ap asset_of_parts r)
]
