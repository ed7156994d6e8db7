-- ===== src/Setup.antt =====
-- src/setup.rs: the generators with their tables, and the keys of the server. Affine and prepared
-- forms are the points themselves.
pub mod Laws
use ebutv.Prelude.{
  ℕ, zero, suc, ◌%◌, ◌/◌, Option, none, some, List, [], ◌∷◌, ◌++◌, map, if◌then◌else◌,
}
use ebutv.Prelude.Text.{codes}
use ebutv.Bls.{Bls}
use ebutv.Hash.{hash_to_g1}
use ebutv.Msm.{new, mul}

-- `(i as u32).to_be_bytes()`
unfoldable pub to_be_bytes_u32 : ℕ → List ℕ
to_be_bytes_u32 i =
    ((i / 16777216) % 256) ∷ ((i / 65536) % 256) ∷ ((i / 256) % 256) ∷ (i % 256) ∷ []

module _ (bls : Bls) where
  open bls use {g1, Point, Scalar, ◌⊛◌, G2, generator, g2_multiple, is_zero, to_bytes_le}

  -- `h[i]`
  unfoldable pub h : ℕ → Point
  h i = hash_to_g1 bls (codes "ACT:BBS:") (to_be_bytes_u32 i)

  unfoldable pub generators_h : List Point
  generators_h = map h (0 ∷ 1 ∷ 2 ∷ 3 ∷ 4 ∷ 5 ∷ [])

  -- `h_tables[i].mul(s)` and `g1_table.mul(s)`
  unfoldable pub h_table_mul : ℕ → Scalar → Point
  h_table_mul i s = mul g1 (new g1 (h i)) (to_bytes_le s)

  unfoldable pub g1_table_mul : Scalar → Point
  g1_table_mul s = mul g1 (new g1 generator) (to_bytes_le s)

  -- `Scalar::rand_nonzero` of src/types.rs, on what it draws: `none` if no draw is left.
  unfoldable pub rand_nonzero : List Scalar → Option (Scalar × List Scalar)
  rand_nonzero [] = none
  rand_nonzero (s ∷ draws) =
      let rest = rand_nonzero draws in if is_zero s then rest else some (s, draws)

  pub record ServerKeys : Type 0 where
    pub sk_master : Scalar
    pub pk_master : G2
    pub sk_daily : Scalar
    pub pk_daily : G2

  -- `ServerKeys::generate`, on the two secret keys that it draws.
  unfoldable pub generate : Scalar → Scalar → ServerKeys
  generate sk_master sk_daily = record {
    sk_master = sk_master;
    pk_master = g2_multiple sk_master;
    sk_daily = sk_daily;
    pk_daily = g2_multiple sk_daily;
  }
