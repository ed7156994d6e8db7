-- ===== src/Bbs.antt =====
-- src/bbs_proof.rs: BBS+ signatures.
use ebutv.Prelude.{ℕ, ◌≡◌}
use ebutv.Bls.{Bls}
use ebutv.Setup.{h}

module _ (bls : Bls) where
  open bls use {Point, Scalar, ◌⊕◌, ◌⊛◌, ◌⊞◌, generator, from_number}

  pub record BbsSignature : Type 0 where
    pub a : Point
    pub e : Scalar
    pub s : Scalar

  -- The message under a daily token: the balance, the epoch and the expiry in h3, h4 and h5.
  unfoldable pub daily_message : Scalar → Scalar → Scalar → ℕ → ℕ → ℕ → Point
  daily_message s k_sub k balance t_issue e_max =
      generator
      ⊕ s
      ⊛ h bls 0
      ⊕ k_sub
      ⊛ h bls 1
      ⊕ k
      ⊛ h bls 2
      ⊕ from_number balance
      ⊛ h bls 3
      ⊕ from_number t_issue
      ⊛ h bls 4
      ⊕ from_number e_max
      ⊛ h bls 5

  -- A signature under the key `sk` on a client's secret and the rest of a token.
  abbrev pub IsToken : Scalar → Scalar → BbsSignature × Scalar × ℕ × ℕ × ℕ → Type 0
  IsToken sk k_sub (signature, k, balance, t_issue, e_max) =
      (signature.e ⊞ sk) ⊛ signature.a ≡ daily_message signature.s k_sub k balance t_issue e_max

  -- The message under a master token: the capacity and the expiry in h3 and h5.
  unfoldable pub master_message : Scalar → Scalar → ℕ → ℕ → Point
  master_message s k_sub c_max e_max =
      generator
      ⊕ s
      ⊛ h bls 0
      ⊕ k_sub
      ⊛ h bls 1
      ⊕ from_number c_max
      ⊛ h bls 3
      ⊕ from_number e_max
      ⊛ h bls 5

  abbrev pub IsMaster : Scalar → Scalar → BbsSignature → ℕ → ℕ → Type 0
  IsMaster sk k_sub signature c_max e_max =
      (signature.e ⊞ sk) ⊛ signature.a ≡ master_message signature.s k_sub c_max e_max
