-- ===== src/Error.antt =====
-- src/error.rs, and the results of fallible calls. `panic` stands for a failed assertion, an
-- index out of bounds or an arithmetic underflow.
use peashape.Prelude.{ℕ, Bool, true, false}
use peashape.Config.{SocketAddr}

-- The kinds of `std::io::Error` that the crate builds, and those that come from below it.
pub data ErrorKind : Type 0 where
  invalid_data invalid_input : ErrorKind
  other : (code : ℕ) → ErrorKind

pub data Error : Type 0 where
  io : ErrorKind → Error
  payload_too_large : (size max : ℕ) → Error
  lane_full : Error
  not_connected : SocketAddr → Error
  frame_size_mismatch : (size expected : ℕ) → Error

pub data Result {ℓ} (E : Type 0) (A : Type ℓ) : Type ℓ where
  ok : A → Result E A
  err : E → Result E A
  panic : Result E A

infixl 5 ◌>>=◌ ◌>>◌
abbrev pub ◌>>=◌ {ℓ κ} :
    {E : Type 0} {A : Type ℓ} {B : Type κ} → Result E A → (A → Result E B) → Result E B
ok a >>= f = f a
err e >>= f = err e
panic >>= f = panic

abbrev pub ◌>>◌ {ℓ} : {E : Type 0} {B : Type ℓ} → Result E (Unit {0}) → Result E B → Result E B
m >> k = m >>= λ _. k

-- `assert!`.
abbrev pub assert : {E : Type 0} → Bool → Result E (Unit {0})
assert true = ok tt
assert false = panic
