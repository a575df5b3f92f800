-- ===== src/Process.antt =====
-- Code that may end the process with `exit`.
use Prim.Native.Nat.{ℕ}

pub data Exits {ℓ} (A : Type ℓ) : Type ℓ where
  exit : ℕ → Exits A
  returned : A → Exits A

infixl 5 ◌>>=◌
abbrev pub ◌>>=◌ {ℓ κ} : {A : Type ℓ} {B : Type κ} → Exits A → (A → Exits B) → Exits B
exit code >>= f = exit code
returned a >>= f = f a
