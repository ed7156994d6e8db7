-- ===== src/Spend/Terms.antt =====
-- The points of an honest spend, written out as combinations: what each commitment, response and
-- equation of src/spend.rs is in the generators and the scalars of the prover.
use ebutv.Curve.Combination.{
  Coefficient, Combination, scalar, one, negate, ◌⊞◌, ◌⊟◌, ◌⊠◌, point, identity, ◌⊕◌, ◌⊛◌,
}

-- The points: the signature's, the generator, and h0 to h5.
abbrev a : Combination
a = point 0

abbrev g : Combination
g = point 1

abbrev h0 : Combination
h0 = point 2

abbrev h1 : Combination
h1 = point 3

abbrev h2 : Combination
h2 = point 4

abbrev h3 : Combination
h3 = point 5

abbrev h4 : Combination
h4 = point 6

abbrev h5 : Combination
h5 = point 7

-- The scalars: the challenge, the token's, the amounts, and what is drawn.
abbrev c : Coefficient
c = scalar 0

abbrev e : Coefficient
e = scalar 1

abbrev s : Coefficient
s = scalar 2

abbrev x : Coefficient
x = scalar 3

abbrev k_cur : Coefficient
k_cur = scalar 4

abbrev m : Coefficient
m = scalar 5

abbrev spent : Coefficient
spent = scalar 6

abbrev t_issue : Coefficient
t_issue = scalar 7

abbrev e_max : Coefficient
e_max = scalar 8

abbrev k_star : Coefficient
k_star = scalar 9

abbrev r_star : Coefficient
r_star = scalar 10

abbrev r_bp : Coefficient
r_bp = scalar 11

abbrev r1 : Coefficient
r1 = scalar 12

abbrev rho_e : Coefficient
rho_e = scalar 13

abbrev rho_r1 : Coefficient
rho_r1 = scalar 14

abbrev rho_s : Coefficient
rho_s = scalar 15

abbrev rho_x : Coefficient
rho_x = scalar 16

abbrev rho_c : Coefficient
rho_c = scalar 17

abbrev rho_emax : Coefficient
rho_emax = scalar 18

abbrev rho_u : Coefficient
rho_u = scalar 19

abbrev rho_v : Coefficient
rho_v = scalar 20

abbrev rho_w : Coefficient
rho_w = scalar 21

abbrev balance : Coefficient
balance = m ⊞ spent

abbrev a_prime : Combination
a_prime = r1 ⊛ a

abbrev msg_part : Combination
msg_part =
    identity ⊕ one ⊛ g ⊕ s ⊛ h0 ⊕ x ⊛ h1 ⊕ k_cur ⊛ h2 ⊕ balance ⊛ h3 ⊕ t_issue ⊛ h4 ⊕ e_max ⊛ h5

abbrev a_bar : Combination
a_bar = negate e ⊛ a_prime ⊕ r1 ⊛ msg_part

abbrev t_bbs : Combination
t_bbs =
    identity
    ⊕ negate rho_e ⊛ a_prime
    ⊕ rho_r1 ⊛ g
    ⊕ rho_s ⊛ h0
    ⊕ rho_x ⊛ h1
    ⊕ k_cur ⊠ rho_r1 ⊛ h2
    ⊕ rho_c ⊛ h3
    ⊕ t_issue ⊠ rho_r1 ⊛ h4
    ⊕ rho_emax ⊛ h5

abbrev k_prime : Combination
k_prime = x ⊛ h1 ⊕ k_star ⊛ h2 ⊕ m ⊛ h3 ⊕ t_issue ⊛ h4 ⊕ (e_max ⊛ h5 ⊕ r_star ⊛ h0)

abbrev c_total : Combination
c_total = k_prime ⊕ spent ⊛ h3

abbrev c_bp : Combination
c_bp = m ⊛ h3 ⊕ r_bp ⊛ h0

abbrev rho_m : Coefficient
rho_m = rho_c ⊟ spent ⊠ rho_r1

abbrev bridge : Coefficient → Combination
bridge rho =
    identity
    ⊕ rho_x ⊛ h1
    ⊕ rho_u ⊛ h2
    ⊕ rho ⊛ h3
    ⊕ rho_r1 ⊠ t_issue ⊛ h4
    ⊕ rho_emax ⊛ h5
    ⊕ rho_v ⊛ h0

abbrev t_bp : Combination
t_bp = identity ⊕ rho_m ⊛ h3 ⊕ rho_w ⊛ h0

abbrev z_e : Coefficient
z_e = rho_e ⊞ c ⊠ e

abbrev z_r1 : Coefficient
z_r1 = rho_r1 ⊞ c ⊠ r1

abbrev z_s_tilde : Coefficient
z_s_tilde = rho_s ⊞ c ⊠ (s ⊠ r1)

abbrev z_x_tilde : Coefficient
z_x_tilde = rho_x ⊞ c ⊠ (x ⊠ r1)

abbrev z_c_tilde : Coefficient
z_c_tilde = rho_c ⊞ c ⊠ (balance ⊠ r1)

abbrev z_e_tilde : Coefficient
z_e_tilde = rho_emax ⊞ c ⊠ (e_max ⊠ r1)

abbrev z_u : Coefficient
z_u = rho_u ⊞ c ⊠ (k_star ⊠ r1)

abbrev z_v : Coefficient
z_v = rho_v ⊞ c ⊠ (r_star ⊠ r1)

abbrev z_w : Coefficient
z_w = rho_w ⊞ c ⊠ (r_bp ⊠ r1)

abbrev c2 : Coefficient
c2 = c ⊠ c

abbrev c3 : Coefficient
c3 = c2 ⊠ c

abbrev fixed_sum : Combination
fixed_sum =
    ((c ⊞ c2) ⊠ z_v ⊞ (c3 ⊠ z_w ⊞ z_s_tilde)) ⊛ h0
    ⊕ (one ⊞ (c ⊞ c2)) ⊠ z_x_tilde ⊛ h1
    ⊕ ((c ⊞ c2) ⊠ z_u ⊞ k_cur ⊠ z_r1) ⊛ h2
    ⊕ ((one ⊞ (c ⊞ (c2 ⊞ c3))) ⊠ z_c_tilde ⊟ (c2 ⊞ c3) ⊠ (spent ⊠ z_r1)) ⊛ h3
    ⊕ (one ⊞ (c ⊞ c2)) ⊠ (t_issue ⊠ z_r1) ⊛ h4
    ⊕ (one ⊞ (c ⊞ c2)) ⊠ z_e_tilde ⊛ h5
    ⊕ z_r1 ⊛ g

abbrev variable_sum : Combination
variable_sum =
    identity
    ⊕ negate z_e ⊛ a_prime
    ⊕ negate (c ⊠ z_r1) ⊛ c_total
    ⊕ negate (c2 ⊠ z_r1) ⊛ k_prime
    ⊕ negate (c3 ⊠ z_r1) ⊛ c_bp
    ⊕ negate c ⊛ a_bar
    ⊕ negate c ⊛ bridge rho_c
    ⊕ c ⊛ (rho_r1 ⊛ c_total)
    ⊕ negate c2 ⊛ bridge rho_m
    ⊕ c2 ⊛ (rho_r1 ⊛ k_prime)
    ⊕ negate c3 ⊛ t_bp
    ⊕ c3 ⊛ (rho_r1 ⊛ c_bp)
    ⊕ negate one ⊛ t_bbs

unfoldable pub sum : Combination
sum = fixed_sum ⊕ variable_sum
