-- ===== src/Authenticator/Known.antt =====
-- authenticator.cpp: the JIDs that Authenticate has noted, and what LookupJid answers from them.
use democrit_marketplace.Prelude.{
  ◌≡◌, ◌⊎◌, inl, inr, refl, sym, ap, ◌∙◌, subst, Bool, true, false, Option, none, some, List, [],
  ◌∷◌, Bytes, bytes_eq, bytes_eq_refl, bytes_eq→eq, eq→bytes_eq, ◌≢◌, ◌&&◌, some-inj, Bool-cases,
  All, if◌then◌else◌,
}
use democrit_marketplace.Outcome.{Outcome, ok, ok-inj}
use democrit_marketplace.Exec.{Exec, pure, lift, modify, continue, ◌>>=◌}
use democrit_marketplace.Authenticator.{
  JidAccess, KnownJids, has_server, put_jid, lookup_jid, authenticate, decode_name,
}
use democrit_marketplace.Authenticator.Names.{
  encode_name, decode_name_exact, decode_name-encode_name,
}
use democrit_marketplace.Authenticator.Names.Digits.{IsByte}

ne→bytes_eq : (a b : Bytes) → a ≢ b → bytes_eq a b ≡ false
ne→bytes_eq a b ne = elim (Bool-cases (bytes_eq a b)) [
  | inl e ↦ absurd (ne (bytes_eq→eq a b e))
  | inr e ↦ e
]

encode_name-inj :
    (a b : Bytes) → All IsByte a → All IsByte b → encode_name a ≡ encode_name b → a ≡ b
encode_name-inj a b ha hb e =
    some-inj (
      ok-inj (sym (decode_name-encode_name a ha) ∙ ap decode_name e ∙ decode_name-encode_name b hb))

bytes_eq-encode_name :
    (a b : Bytes)
    → All IsByte a
    → All IsByte b
    → bytes_eq (encode_name a) (encode_name b) ≡ bytes_eq a b
bytes_eq-encode_name a b ha hb = elim (Bool-cases (bytes_eq a b)) [
  | inl e ↦ rw (e, bytes_eq→eq a b e) (bytes_eq_refl (encode_name b))
  | inr e ↦ rw e (
      ne→bytes_eq (encode_name a) (encode_name b) (λ (p : encode_name a ≡ encode_name b).
        distinct (eq→bytes_eq a b (encode_name-inj a b ha hb p)) e))
]
  where
    distinct : {x : Bool} → x ≡ true → x ≡ false → ⊥
    distinct p q = cc

module _ {J : Type 0} where
  lookup_jid-put_jid : (a : Bytes) (j : J) (k : KnownJids J) → lookup_jid a (put_jid a j k) ≡ some j
  unfolding lookup_jid put_jid
  lookup_jid-put_jid a j [] = rw (bytes_eq_refl a) refl
  lookup_jid-put_jid a j ((b, i) ∷ k) = elim (Bool-cases (bytes_eq b a)) [
    | inl e ↦ rw (e, lookup_jid, e) refl
    | inr e ↦ rw (e, lookup_jid, e) (lookup_jid-put_jid a j k)
  ]

  lookup_jid-put_jid_other :
      (a b : Bytes) (j : J) (k : KnownJids J)
      → bytes_eq a b ≡ false
      → lookup_jid b (put_jid a j k) ≡ lookup_jid b k
  unfolding lookup_jid put_jid
  lookup_jid-put_jid_other a b j [] h = rw h refl
  lookup_jid-put_jid_other a b j ((c, i) ∷ k) h = elim (Bool-cases (bytes_eq c a)) [
    | inl e ↦
        let cb : bytes_eq c b ≡ false =
          subst (λ (x : Bytes). bytes_eq x b ≡ false) (sym (bytes_eq→eq c a e)) h in
        rw (e, lookup_jid, cb) refl
    | inr e ↦
        rw (e, lookup_jid)
          (ap (λ (x : Option J). if bytes_eq c b then some i else x)
            (lookup_jid-put_jid_other a b j k h))
  ]

  pub same_jid :
      (a b : Bytes) (j : J) (k : KnownJids J)
      → lookup_jid b (put_jid a j k) ≡ (if bytes_eq a b then some j else lookup_jid b k)
  same_jid a b j k = elim (Bool-cases (bytes_eq a b)) [
    | inl e ↦ rw (e, sym (bytes_eq→eq a b e)) (lookup_jid-put_jid a j k)
    | inr e ↦ rw e (lookup_jid-put_jid_other a b j k e)
  ]

module _ {J : Type 0} (access : JidAccess J) (xid_servers : List Bytes) where
  -- A JID of the account: on a trusted server, under the account's XMPP name.
  unfoldable pub is_jid_of : Bytes → J → Bool
  is_jid_of a jid =
      has_server (access.server jid) xid_servers && bytes_eq (access.username jid) (encode_name a)

  -- The last one of these JIDs that is the account's, or else `before`.
  unfoldable pub latest : Bytes → List J → Option J → Option J
  latest a [] before = before
  latest a (jid ∷ rest) before = latest a rest (if is_jid_of a jid then some jid else before)

  -- Authenticate, called with each of these JIDs.
  unfoldable pub authenticate_each : List J → Exec (KnownJids J) Unit
  authenticate_each [] = pure tt
  authenticate_each (jid ∷ rest) = do
    account ← authenticate access xid_servers jid
    authenticate_each rest

  -- What Authenticate returns, and what it leaves.
  abbrev Authenticated : J → KnownJids J → Outcome (Option Bytes) × KnownJids J → Type 0
  Authenticated jid known r =
      ((a : Bytes) × All IsByte a
        × (r ≡ (ok (some a), put_jid a jid known))
        × ((b : Bytes) → All IsByte b → is_jid_of b jid ≡ bytes_eq a b))
      ⊎ ((r ≡ (ok none, known)) × ((b : Bytes) → All IsByte b → is_jid_of b jid ≡ false))

  untrusted :
      (jid : J) (known : KnownJids J)
      → has_server (access.server jid) xid_servers ≡ false
      → Authenticated jid known (authenticate access xid_servers jid known)
  unfolding authenticate is_jid_of ◌>>=◌ pure lift modify
  untrusted jid known e =
      inr (
        (rw (authenticate, e) refl),
        λ (b : Bytes). λ (all : All IsByte b). (rw (is_jid_of, e) refl),
      )

  trusted :
      (jid : J) (known : KnownJids J)
      → has_server (access.server jid) xid_servers ≡ true
      → Authenticated jid known (authenticate access xid_servers jid known)
  unfolding authenticate is_jid_of ◌>>=◌ pure lift modify
  trusted jid known e = elim (decode_name_exact (access.username jid)) [
    | inl (a, all, en, r) ↦ inl (
      a,
      all,
      (rw (authenticate, e, r) refl),
      λ (b : Bytes).
          λ (all_b : All IsByte b). (rw (is_jid_of, e, en) (bytes_eq-encode_name a b all all_b)),
    )
    | inr (r, other) ↦ inr (
      (rw (authenticate, e, r) refl),
      λ (b : Bytes). λ (all_b : All IsByte b).
          (rw (is_jid_of, e) (ne→bytes_eq (access.username jid) (encode_name b) (other b all_b))),
    )
  ]

  authenticate-Authenticated :
      (jid : J) (known : KnownJids J)
      → Authenticated jid known (authenticate access xid_servers jid known)
  authenticate-Authenticated jid known =
      elim (Bool-cases (has_server (access.server jid) xid_servers)) [
        | inl e ↦ trusted jid known e
        | inr e ↦ untrusted jid known e
      ]

  Authenticated-lookup_jid :
      (b : Bytes) (jid : J) (known : KnownJids J) (r : Outcome (Option Bytes) × KnownJids J)
      → All IsByte b
      → Authenticated jid known r
      → lookup_jid b r.1 ≡ (if is_jid_of b jid then some jid else lookup_jid b known)
  Authenticated-lookup_jid b jid known r hb (inl (a, ha, e, same)) =
      rw (e, same b hb) (same_jid a b jid known)
  Authenticated-lookup_jid b jid known r hb (inr (e, other)) = rw (e, other b hb) refl

  -- The account that is returned is the one that the JID is of.
  pub authenticate-account :
      (jid : J) (known : KnownJids J) (x b : Bytes)
      → (authenticate access xid_servers jid known).0 ≡ ok (some x)
      → All IsByte b
      → is_jid_of b jid ≡ bytes_eq x b
  authenticate-account jid known x b e hb = elim (authenticate-Authenticated jid known) [
    | inl (a, ha, r, same) ↦
        let same_account : a ≡ x =
          some-inj (ok-inj (sym (ap (λ (p : Outcome (Option Bytes) × KnownJids J). p.0) r) ∙ e)) in
        rw (sym same_account) (same b hb)
    | inr (r, other) ↦
        absurd (
          none_ne_some
            (ok-inj (sym (ap (λ (p : Outcome (Option Bytes) × KnownJids J). p.0) r) ∙ e)))
  ]
    where
      none_ne_some : none ≡ some x → ⊥
      none_ne_some p = cc

  authenticate-lookup_jid :
      (b : Bytes) (jid : J) (known : KnownJids J)
      → All IsByte b
      → lookup_jid b (authenticate access xid_servers jid known).1
        ≡ (if is_jid_of b jid then some jid else lookup_jid b known)
  authenticate-lookup_jid b jid known hb =
      Authenticated-lookup_jid b jid known (authenticate access xid_servers jid known) hb
        (authenticate-Authenticated jid known)

  authenticate-returns :
      (jid : J) (known : KnownJids J)
      → (result : Option Bytes) × (authenticate access xid_servers jid known
          ≡ (ok result, (authenticate access xid_servers jid known).1))
  authenticate-returns jid known = elim (authenticate-Authenticated jid known) [
    | inl (a, ha, e, same) ↦ (some a, (rw e refl))
    | inr (e, other) ↦ (none, (rw e refl))
  ]

  -- However many JIDs Authenticate is called with, it returns each time, and afterwards LookupJid
  -- answers for an account with the last of the JIDs that is on a trusted server and whose username is
  -- the account's one XMPP name; where there was none, with what it answered before.
  pub authenticate_each-lookup_jid :
      (b : Bytes) (jids : List J) (known : KnownJids J)
      → All IsByte b
      → ((authenticate_each jids known).0 ≡ ok tt)
        × (lookup_jid b (authenticate_each jids known).1 ≡ latest b jids (lookup_jid b known))
  unfolding authenticate_each latest pure ◌>>=◌
  authenticate_each-lookup_jid b [] known hb = (refl, refl)
  authenticate_each-lookup_jid b (jid ∷ rest) known hb =
      let (result, e) = authenticate-returns jid known in
      let next = (authenticate access xid_servers jid known).1 in
      let step : authenticate_each (jid ∷ rest) known ≡ authenticate_each rest next =
        ap
          (λ (r : Outcome (Option Bytes) × KnownJids J).
            continue r (λ (x : Option Bytes). authenticate_each rest))
          e in
      let (returns, finds) = authenticate_each-lookup_jid b rest next hb in
      (
        ap (λ (r : Outcome Unit × KnownJids J). r.0) step ∙ returns,
        ap (λ (r : Outcome Unit × KnownJids J). lookup_jid b r.1) step
            ∙ finds
            ∙ ap (latest b rest) (authenticate-lookup_jid b jid known hb),
      )
