-- ===== src/Samples/Residues.antt =====
-- A group with its scalars for the witnesses: the residues modulo the order of the BLS scalars.
pub mod Modulo
use ebutv.Prelude.{ℕ, ◌<◌, ◌≡◌, ◌↔◌, arith, Bool, true}
use ebutv.Curve.{Curve}
use ebutv.Bls.{order}
pub use ebutv.Samples.Residues.Modulo.{product-mod_left, product-mod_right}

pub above_one : 1 < order
above_one = omega arith

abbrev pub Residue : Type 0
Residue = Modulo.Residue order above_one

abbrev pub residues : Curve
residues = Modulo.curve order above_one

abbrev pub residue : ℕ → Residue
residue = Modulo.residue order above_one

abbrev pub plus : Residue → Residue → Residue
plus = Modulo.plus order above_one

abbrev pub times : Residue → Residue → Residue
times = Modulo.times order above_one

abbrev pub minus : Residue → Residue
minus = Modulo.minus order above_one

abbrev pub same : Residue → Residue → Bool
same = Modulo.same order above_one

pub residue_ext : (a b : Residue) → a.0 ≡ b.0 → a ≡ b
residue_ext = Modulo.residue_ext order above_one

pub same_iff : (a b : Residue) → (same a b ≡ true) ↔ (a ≡ b)
same_iff = Modulo.same_iff order above_one

pub times_assoc : (a b c : Residue) → times (times a b) c ≡ times a (times b c)
times_assoc = Modulo.times_assoc order above_one

pub one-times : (a : Residue) → times (residue 1) a ≡ a
one-times = Modulo.one-times order above_one
