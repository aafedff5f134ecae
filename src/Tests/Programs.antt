-- ===== src/Tests/Programs.antt =====
-- A source of random bytes for the programs under examples/, and their generators with it.
pub mod Rtp
pub mod Ts
pub mod Call
pub mod Demo
pub mod Hello
use peashape.Prelude.{ℕ, suc, ◌%◌, ◌^◌, ◌∷◌, []}
use peashape.Config.{Bytes}
use peashape.Tests.{whole_numbers}
use peashape.Externals.{IsSized}
use peashape.Examples.Source.{Source}
use peashape.Examples.Rtp.{rtp}
use peashape.Examples.Ts.{ts}
use peashape.Examples.Contract.{rtp_ts-IsSized}

abbrev pub counting : Source
counting = record {
  Rng = ℕ;
  random_u8 = λ r. (r % 256, suc r);
  random_u16 = λ r. (r % 2 ^ 16, suc r);
  random_u32 = λ r. (r % 2 ^ 32, suc r);
  Draws = ℕ;
  random_range = λ n d. (d % n, suc d);
  floats = whole_numbers;
}

-- "hi"
abbrev pub hi : Bytes
hi = 104 ∷ 105 ∷ []
