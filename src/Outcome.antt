-- ===== src/Outcome.antt =====
-- How a call ends. `raise` is a jsonrpc::JsonRpcException, which callers may catch; `abort` is a
-- failed CHECK or LOG (FATAL) of glog, or a Json::LogicError that nothing catches: each ends the
-- process.
use democrit_marketplace.Prelude.{◌≡◌, ap, Bool, Option, none, some, if◌then◌else◌}

pub data Outcome (A : Type 0) : Type 0 where
  ok : A → Outcome A
  raise : Outcome A
  abort : Outcome A

infixl 5 ◌>>=◌ ◌>>◌
abbrev pub ◌>>=◌ : {A B : Type 0} → Outcome A → (A → Outcome B) → Outcome B
ok a >>= f = f a
raise >>= f = raise
abort >>= f = abort

abbrev pub ◌>>◌ : {B : Type 0} → Outcome Unit → Outcome B → Outcome B
m >> k = m >>= λ _. k

-- CHECK (b)
abbrev pub check : Bool → Outcome Unit
check b = if b then ok tt else abort

-- CHECK of a call that sets an output argument.
abbrev pub check_some : {A : Type 0} → Option A → Outcome A
check_some none = abort
check_some (some a) = ok a

pub ok-inj : {A : Type 0} {a b : A} → ok a ≡ ok b → a ≡ b
ok-inj {A} {a} h = ap (value a) h
  where
    value : A → Outcome A → A
    value d (ok x) = x
    value d raise = d
    value d abort = d
