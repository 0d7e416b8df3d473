-- ===== src/Asset.antt =====
-- src/asset.rs: the assets that are traded and the pairs that markets trade. Ids are u32.
use Prim.Native.String.{String}
use market_sim_backend.Prelude.{ℕ, ◌≡◌, Bool, true, ◌&&◌, ◌==◌, arith}

pub record NewAsset : Type 0 where
  pub name : String
  pub symbol : String

pub record Asset : Type 0 where
  pub id : ℕ
  pub name : String
  pub symbol : String

pub record AssetIdPair : Type 0 where
  pub primary : ℕ
  pub secondary : ℕ

pub record AssetPairSymbolic : Type 0 where
  pub primary : String
  pub secondary : String

-- The derived `PartialEq`.
abbrev pub pair_eq : AssetIdPair → AssetIdPair → Bool
pair_eq p q = (p.primary == q.primary) && (p.secondary == q.secondary)

pub pair_eq_refl : (p : AssetIdPair) → pair_eq p p ≡ true
pair_eq_refl p = ground arith

pub eq_of_pair_eq : (p q : AssetIdPair) → pair_eq p q ≡ true → p ≡ q
eq_of_pair_eq p q h = ground arith
