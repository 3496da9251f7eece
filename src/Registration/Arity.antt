-- ===== src/Registration/Arity.antt =====
-- main.cpp: the parameters that a method is registered with are those that it needs.
use azure_uamqp_php.Prelude.{ℕ, ◌≡◌, false, Option, List, ltb, ◌&&◌, length}
use azure_uamqp_php.Prelude.Options.{is_none}
use azure_uamqp_php.Runtime.State as Runtime
use azure_uamqp_php.Registration.{Method, is_accepted}

-- A call that PHP-CPP makes misses no argument.
abbrev pub FindsArguments : {V R : Type 0} → Method V R → Type 0
FindsArguments m = (params : List _) → (is_accepted m params && is_none (m.code params)) ≡ false

-- The code needs the first `n` arguments, and no others.
abbrev Needs : {V R : Type 0} → (List V → Option R) → ℕ → Type 0
Needs code n = (params : List _) → is_none (code params) ≡ ltb (length params) n
