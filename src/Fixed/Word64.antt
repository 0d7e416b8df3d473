-- ===== src/Fixed/Word64.antt =====
-- A value of the parameter: 64-bit words with 31 fraction bits that wrap, ordered as signed numbers. It
-- shows that the laws can hold, and lets the tests run.
use mathlib.Core.HLevel.{Σ_prop_path}
use native.Mathlib.Bridge.{le_prop}
use market_sim_backend.Prelude.{ℕ, ◌+◌, ◌-◌, ◌*◌, ◌/◌, ◌%◌, ◌<◌, ◌≡◌, ltb, if◌then◌else◌, arith}
use market_sim_backend.Fixed.{Fixed, IsLawful}

-- 2 ^ 64, 2 ^ 63 and 2 ^ 31
abbrev pub word_mod : ℕ
word_mod = 18446744073709551616

abbrev pub sign_bit : ℕ
sign_bit = 9223372036854775808

abbrev pub one_bits : ℕ
one_bits = 2147483648

abbrev pub Word64 : Type 0
Word64 = (n : ℕ) × (n < word_mod)

pub mod-lt_word : (n : ℕ) → n % word_mod < word_mod
mod-lt_word n = omega arith

abbrev pub word : ℕ → Word64
word n = (n % word_mod, mod-lt_word n)

-- The sign extended to 128 bits.
abbrev pub extend : ℕ → ℕ
extend n = if ltb n sign_bit then n else n + word_mod * (word_mod - 1)

instance abbrev pub word_fixed : Fixed Word64
word_fixed = record {
  rank = λ p. (p.0 + sign_bit) % word_mod;
  zero_value = word 0;
  from_u32 = λ n. word (n * one_bits);
  add = λ p q. word (p.0 + q.0);
  sub = λ p q. word (p.0 + word_mod - q.0);
  mul = λ p q. word (extend p.0 * extend q.0 / one_bits);
}

Word64-ext : (p q : Word64) → p.0 ≡ q.0 → p ≡ q
Word64-ext p q h = Σ_prop_path (λ n. le_prop) h

pub word_fixed-IsLawful : IsLawful word_fixed
word_fixed-IsLawful = record {
  eq_of_rank = λ p q h. Word64-ext p q (omega (arith, p.1, q.1));
  add_zero = λ p. Word64-ext _ p (omega (arith, p.1));
  add_comm = λ p q. Word64-ext _ _ (omega arith);
  add_assoc = λ p q r. Word64-ext _ _ (omega arith);
  sub-add = λ p q. Word64-ext _ p (omega (arith, p.1, q.1));
  add-sub = λ p q. Word64-ext _ p (omega (arith, p.1, q.1));
}
