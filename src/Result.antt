-- ===== src/Result.antt =====
-- include/rail/result.h: errors as values.
use Prim.Native.Nat.{ℕ}
use Prim.Native.String.{String}

-- std::error_code, as far as the modelled code makes one: the two std::errc values it names, and an
-- errno that the system reported.
pub data Code : Type 0 where
  protocol_error invalid_argument : Code
  system : ℕ → Code

pub record Error : Type 0 where
  pub code : Code
  pub context : String

pub data Result {ℓ} (A : Type ℓ) : Type ℓ where
  ok : A → Result A
  err : Error → Result A

abbrev pub fail {ℓ} : {A : Type ℓ} → Code → String → Result A
fail code context = err (record { code = code; context = context })

abbrev pub fail_message {ℓ} : {A : Type ℓ} → String → Result A
fail_message context = fail protocol_error context

infixl 5 ◌>>=◌
abbrev pub ◌>>=◌ {ℓ κ} : {A : Type ℓ} {B : Type κ} → Result A → (A → Result B) → Result B
ok a >>= f = f a
err e >>= f = err e
