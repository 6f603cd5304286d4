-- ===== src/Muc/Nicks.antt =====
-- mucclient.cpp: whose messages are taken for whose, by the presences that have been seen.
use democrit_marketplace.Prelude.{
  ◌≡◌, refl, sym, subst, ◌∙◌, ap, inl, inr, Bool, true, false, Option, none, some, List, [], ◌∷◌,
  Bytes, bytes_eq, bytes_eq→eq, eq→bytes_eq, All, Bool-cases, if◌then◌else◌, ◌&&◌,
}
use democrit_marketplace.Exec.{Exec, pure, modify, check, ◌>>=◌}
use democrit_marketplace.Authenticator.{KnownJids, put_jid, lookup_jid}
use democrit_marketplace.Authenticator.Known.{same_jid}
use democrit_marketplace.Muc.{
  Room, Presence, erase_nick, resolve_nickname, set_nicks, is_leaving, current_nick, without_old,
  handle_left, handle_self, handle_leaving, handle_present, handle_presence,
}

module _ {J : Type 0} where
  -- One entry for each nick, as std::map has it.
  abbrev pub IsMap : KnownJids J → Type 0
  IsMap [] = Unit
  IsMap ((k, j) ∷ rest) = (lookup_jid k rest ≡ none) × IsMap rest

  lookup_jid-erase_nick :
      (n k : Bytes) (m : KnownJids J)
      → IsMap m
      → lookup_jid n (erase_nick k m) ≡ (if bytes_eq k n then none else lookup_jid n m)
  unfolding lookup_jid erase_nick
  lookup_jid-erase_nick n k [] h = elim (Bool-cases (bytes_eq k n)) [
    | inl e ↦ rw e refl
    | inr e ↦ rw e refl
  ]
  lookup_jid-erase_nick n k ((i, j) ∷ m) (own, h) = elim (Bool-cases (bytes_eq i k)) [
    | inl e ↦ rw (erase_nick, e) (first e)
    | inr e ↦ rw (erase_nick, e) (later e (lookup_jid-erase_nick n k m h))
  ]
    where
      first :
          bytes_eq i k ≡ true
          → lookup_jid n m
            ≡ (if bytes_eq k n then none else (if bytes_eq i n then some j else lookup_jid n m))
      first e = elim (Bool-cases (bytes_eq k n)) [
        | inl f ↦ rw f (
            subst (λ (x : Bytes). lookup_jid x m ≡ none) (bytes_eq→eq i k e ∙ bytes_eq→eq k n f)
              own)
        | inr f ↦
            rw (f, subst (λ (x : Bytes). bytes_eq x n ≡ false) (sym (bytes_eq→eq i k e)) f) refl
      ]

      apart : i ≡ n → bytes_eq i k ≡ false → bytes_eq k n ≡ false
      apart p e = elim (Bool-cases (bytes_eq k n)) [
        | inr f ↦ f
        | inl f ↦ cc (eq→bytes_eq i k (p ∙ sym (bytes_eq→eq k n f)))
      ]

      later :
          bytes_eq i k ≡ false
          → lookup_jid n (erase_nick k m) ≡ (if bytes_eq k n then none else lookup_jid n m)
          → (if bytes_eq i n then some j else lookup_jid n (erase_nick k m))
            ≡ (if bytes_eq k n then none else (if bytes_eq i n then some j else lookup_jid n m))
      later e ih = elim (Bool-cases (bytes_eq i n)) [
        | inl f ↦ rw (f, apart (bytes_eq→eq i n f) e) refl
        | inr f ↦ rw f ih
      ]

  IsMap-erase_nick : (k : Bytes) (m : KnownJids J) → IsMap m → IsMap (erase_nick k m)
  unfolding erase_nick
  IsMap-erase_nick k [] h = tt
  IsMap-erase_nick k ((i, j) ∷ m) (own, h) = elim (Bool-cases (bytes_eq i k)) [
    | inl e ↦ rw e h
    | inr e ↦
        rw e (lookup_jid-erase_nick i k m h ∙ none_there (bytes_eq k i) own, IsMap-erase_nick k m h)
  ]
    where
      none_there : (b : Bool) {o : Option J} → o ≡ none → (if b then none else o) ≡ none
      none_there true e = refl
      none_there false e = e

  IsMap-put_jid : (k : Bytes) (v : J) (m : KnownJids J) → IsMap m → IsMap (put_jid k v m)
  unfolding put_jid lookup_jid
  IsMap-put_jid k v [] h = (refl, tt)
  IsMap-put_jid k v ((i, j) ∷ m) (own, h) = elim (Bool-cases (bytes_eq i k)) [
    | inl e ↦ rw e (own, h)
    | inr e ↦ rw e (same_jid k i v m ∙ (rw (flip e) own), IsMap-put_jid k v m h)
  ]
    where
      flip : bytes_eq i k ≡ false → bytes_eq k i ≡ false
      flip e = elim (Bool-cases (bytes_eq k i)) [
        | inr f ↦ f
        | inl f ↦ cc (eq→bytes_eq i k (sym (bytes_eq→eq k i f)))
      ]

  -- The JID behind the nick after a presence of another participant, given the one before it.
  unfoldable pub holder : Bytes → Presence J → Option J → Option J
  holder n p before =
      if is_leaving p then (if bytes_eq p.nick n then none else before) else elim p.jid [
        | none ↦ before
        | some jid ↦
            if bytes_eq (current_nick p) n
            then some jid
            else if p.nick_changed && bytes_eq p.nick n
            then none
            else before
      ]

  -- After several presences.
  abbrev pub holder_after : Bytes → List (Presence J) → Option J → Option J
  holder_after n [] before = before
  holder_after n (p ∷ ps) before = holder_after n ps (holder n p before)

  -- Of another participant, with a nick.
  abbrev pub IsOther : Presence J → Type 0
  IsOther p = (p.is_self ≡ false) × (bytes_eq (current_nick p) [] ≡ false)

  -- The handler on the room alone, where nothing else is done about a participant that leaves.
  abbrev pub see : Presence J → Room J → Room J
  see p room = (handle_presence (λ f. f) (λ jid. pure tt) p room).1

  abbrev pub see_all : List (Presence J) → Room J → Room J
  see_all [] room = room
  see_all (p ∷ ps) room = see_all ps (see p room)

  without_old-lookup_jid :
      (n : Bytes) (p : Presence J) (m : KnownJids J)
      → IsMap m
      → lookup_jid n (without_old p m)
        ≡ (if p.nick_changed && bytes_eq p.nick n then none else lookup_jid n m)
  without_old-lookup_jid n p m h = elim (Bool-cases p.nick_changed) [
    | inl e ↦ rw e (lookup_jid-erase_nick n p.nick m h)
    | inr e ↦ rw e refl
  ]

  IsMap-without_old : (p : Presence J) (m : KnownJids J) → IsMap m → IsMap (without_old p m)
  IsMap-without_old p m h = elim (Bool-cases p.nick_changed) [
    | inl e ↦ rw e (IsMap-erase_nick p.nick m h)
    | inr e ↦ rw e h
  ]

  -- What one presence does to the map.
  record Seen (p : Presence J) (before after : Room J) : Type 0 where
    is_map : IsMap after.nick_to_jid
    finds : (n : Bytes) → resolve_nickname n after ≡ holder n p (resolve_nickname n before)

  present-Seen :
      (p : Presence J) (jid : Option J) (room : Room J)
      → is_leaving p ≡ false
      → p.jid ≡ jid
      → bytes_eq (current_nick p) [] ≡ false
      → IsMap room.nick_to_jid
      → Seen p room (handle_present (λ f. f) (λ j. pure tt) p jid room).1
  unfolding handle_present resolve_nickname holder modify check pure ◌>>=◌
  present-Seen p none room stays ej named h = record {
    is_map = h;
    finds = λ n. (rw (holder, stays, ej) refl);
  }
  present-Seen p (some jid) room stays ej named h =
      let m = without_old p room.nick_to_jid in
      rw (handle_present, named)
        (record {
          is_map = IsMap-put_jid (current_nick p) jid m (IsMap-without_old p room.nick_to_jid h);
          finds = λ n.
              same_jid (current_nick p) n jid m
              ∙ (rw (holder, stays, ej, without_old-lookup_jid n p room.nick_to_jid h) refl);
        })

  left :
      (o : Option J) (room : Room J) → (handle_left (λ f. f) (λ (j : J). pure tt) o room).1 ≡ room
  unfolding handle_left pure
  left none room = refl
  left (some jid) room = refl

  leaving-Seen :
      (p : Presence J) (room : Room J)
      → is_leaving p ≡ true
      → IsMap room.nick_to_jid
      → Seen p room (handle_leaving (λ f. f) (λ j. pure tt) p room).1
  unfolding handle_leaving resolve_nickname holder modify ◌>>=◌
  leaving-Seen p room goes h =
      let erased : Room J = set_nicks (erase_nick p.nick room.nick_to_jid) room in
      subst (λ (r : Room J). Seen p room r) (sym (left p.jid erased))
        (record {
          is_map = IsMap-erase_nick p.nick room.nick_to_jid h;
          finds = λ n. lookup_jid-erase_nick n p.nick room.nick_to_jid h ∙ (rw (holder, goes) refl);
        })

  -- The branch that is taken.
  second :
      (b c : Bool) (x y z : Exec (Room J) Unit)
      → b ≡ false
      → c ≡ true
      → (if b then x else if c then y else z) ≡ y
  second b c x y z e f = rw (e, f) refl

  third :
      (b c : Bool) (x y z : Exec (Room J) Unit)
      → b ≡ false
      → c ≡ false
      → (if b then x else if c then y else z) ≡ z
  third b c x y z e f = rw (e, f) refl

  see-Seen :
      (p : Presence J) (room : Room J)
      → IsOther p
      → IsMap room.nick_to_jid
      → Seen p room (see p room)
  unfolding handle_presence
  see-Seen p room (other, named) h =
      let goes = handle_leaving (λ f. f) (λ (j : J). pure tt) p in
      let stays = handle_present (λ f. f) (λ (j : J). pure tt) p p.jid in
      elim (Bool-cases (is_leaving p)) [
        | inl e ↦
            subst (λ (m : Exec (Room J) Unit). Seen p room (m room).1)
              (sym (
                second p.is_self (is_leaving p) (modify (handle_self (is_leaving p))) goes stays
                  other e))
              (leaving-Seen p room e h)
        | inr e ↦
            subst (λ (m : Exec (Room J) Unit). Seen p room (m room).1)
              (sym (
                third p.is_self (is_leaving p) (modify (handle_self (is_leaving p))) goes stays
                  other e))
              (present-Seen p p.jid room e refl named h)
      ]

  -- After any presences of other participants, each with a nick: a nick stands for the JID that the last
  -- presence with a JID that makes it the current nick has shown, and for nobody where since then a
  -- participant has left under it, with or without a JID, or has changed it for another nick with a
  -- presence that shows a JID; without any of these it stands for whom it stood for before. A presence
  -- that shows no JID and is none of a participant that leaves changes nothing, even if it changes the
  -- nick.
  pub see_all-holder_after :
      (ps : List (Presence J)) (room : Room J) (n : Bytes)
      → All IsOther ps
      → IsMap room.nick_to_jid
      → resolve_nickname n (see_all ps room) ≡ holder_after n ps (resolve_nickname n room)
  see_all-holder_after [] room n others h = refl
  see_all-holder_after (p ∷ ps) room n (other, others) h =
      let seen = see-Seen p room other h in
      see_all-holder_after ps (see p room) n others seen.is_map
      ∙ ap (holder_after n ps) (seen.finds n)
