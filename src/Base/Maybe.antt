-- ===== src/Base/Maybe.antt =====
-- Chains of steps that may fail, where the caller looks only at whether they did.
use mathlib.Core.Bool.{Bool, true, false}
use mathlib.Core.Option.{Option, none, some}

infixl 5 ◌>>=◌ ◌>>◌
abbrev pub ◌>>=◌ {ℓ κ} :
    {Part : Type ℓ} {Whole : Type κ} → Option Part → (Part → Option Whole) → Option Whole
none >>= next = none
some part >>= next = next part

abbrev pub ◌>>◌ {ℓ κ} : {Part : Type ℓ} {Whole : Type κ} → Option Part → Option Whole → Option Whole
step >> next = step >>= λ _. next

abbrev pub ensure : Bool → Option (Unit {0})
ensure false = none
ensure true = some tt
