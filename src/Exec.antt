-- ===== src/Exec.antt =====
-- The effects of the program's methods: a state that is read and written, beside an outcome. What
-- was written before a raise or an abort stays written.
pub mod Rules
use democrit_marketplace.Prelude.{Bool, Option, none, some, if◌then◌else◌}
use democrit_marketplace.Outcome.{Outcome, ok, raise, abort}

abbrev pub Exec : Type 0 → Type 0 → Type 0
Exec S A = S → Outcome A × S

module _ {S : Type 0} where
  unfoldable pub pure : {A : Type 0} → A → Exec S A
  pure a s = (ok a, s)

  unfoldable pub lift : {A : Type 0} → Outcome A → Exec S A
  lift r s = (r, s)

  unfoldable pub gets : {A : Type 0} → (S → A) → Exec S A
  gets f s = (ok (f s), s)

  unfoldable pub modify : (S → S) → Exec S Unit
  modify f s = (ok tt, f s)

  -- CHECK (b)
  unfoldable pub check : Bool → Exec S Unit
  check b s = (if b then ok tt else abort, s)

  -- CHECK of a call that sets an output argument.
  unfoldable pub check_some : {A : Type 0} → Option A → Exec S A
  check_some none s = (abort, s)
  check_some (some a) s = (ok a, s)

  -- LOG (FATAL)
  unfoldable pub fatal : {A : Type 0} → Exec S A
  fatal s = (abort, s)

  abbrev pub continue : {A B : Type 0} → Outcome A × S → (A → Exec S B) → Outcome B × S
  continue (ok a, s) f = f a s
  continue (raise, s) f = (raise, s)
  continue (abort, s) f = (abort, s)

-- A method of a part, run on the whole that holds the part.
unfoldable pub zoom : {S T A : Type 0} → (S → T) → (T → S → S) → Exec T A → Exec S A
zoom get put m s = let (r, t) = m (get s) in (r, put t s)

module _ {S : Type 0} where
  -- Opening this opens the methods above.
  infixl 5 ◌>>=◌ ◌>>◌
  unfoldable pub ◌>>=◌ : {A B : Type 0} → Exec S A → (A → Exec S B) → Exec S B
  unfolding pure lift gets modify check check_some fatal zoom
  ◌>>=◌ m f s = continue (m s) f

  abbrev pub ◌>>◌ : {B : Type 0} → Exec S Unit → Exec S B → Exec S B
  m >> k = m >>= λ _. k
