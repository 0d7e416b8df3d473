-- ===== src/Fixed.antt =====
-- The fixed-point numbers of src/util/types.rs, `Price = Balance = I33F31` of the crate `fixed`. The
-- crate is not part of the repository: the type and its operations are a parameter.
pub mod Word64
use market_sim_backend.Prelude.{ℕ, ◌≡◌, Bool, ltb, ◌==◌}

-- `rank` is the place of a value in the order that `Ord` gives the type: its bits as an i64, shifted
-- to start from 0.
pub record Fixed (P : Type 0) : Type 0 where
  pub rank : P → ℕ
  pub zero_value : P
  pub from_u32 : ℕ → P
  pub add : P → P → P
  pub sub : P → P → P
  pub mul : P → P → P

module _ {P : Type 0} ⦃fx : Fixed P⦄ where
  abbrev pub price_lt : P → P → Bool
  price_lt p q = ltb (fx.rank p) (fx.rank q)

  abbrev pub price_eq : P → P → Bool
  price_eq p q = fx.rank p == fx.rank q

-- What the code relies on: values of one rank are one value, and addition and subtraction, which
-- wrap in a release build, are those of a commutative group.
pub record IsLawful {P : Type 0} (fx : Fixed P) : Type 0 where
  pub eq_of_rank : (p q : P) → fx.rank p ≡ fx.rank q → p ≡ q
  pub add_zero : (p : P) → fx.add p fx.zero_value ≡ p
  pub add_comm : (p q : P) → fx.add p q ≡ fx.add q p
  pub add_assoc : (p q r : P) → fx.add (fx.add p q) r ≡ fx.add p (fx.add q r)
  pub sub-add : (p q : P) → fx.add (fx.sub p q) q ≡ p
  pub add-sub : (p q : P) → fx.sub (fx.add p q) q ≡ p
