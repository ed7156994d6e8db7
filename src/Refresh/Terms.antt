-- ===== src/Refresh/Terms.antt =====
-- The points of an honest refresh, written out as combinations: what each commitment, response and
-- equation of src/epoch_refresh.rs is in the generators and the scalars of the prover.
use ebutv.Curve.Combination.{
  Coefficient, Combination, scalar, one, negate, ◌⊞◌, ◌⊠◌, point, identity, ◌⊕◌, ◌⊛◌,
}

-- The points: the signature's, the generator, h0 to h5, and the base of the epoch.
abbrev a : Combination
a = point 0

abbrev g : Combination
g = point 1

abbrev h0 : Combination
h0 = point 2

abbrev h1 : Combination
h1 = point 3

abbrev h2 : Combination
h2 = point 4

abbrev h3 : Combination
h3 = point 5

abbrev h4 : Combination
h4 = point 6

abbrev h5 : Combination
h5 = point 7

abbrev h_t : Combination
h_t = point 8

-- The scalars: the challenge, the token's, the public numbers, and what is drawn.
abbrev c : Coefficient
c = scalar 0

abbrev e : Coefficient
e = scalar 1

abbrev s : Coefficient
s = scalar 2

abbrev k : Coefficient
k = scalar 3

abbrev c_max : Coefficient
c_max = scalar 4

abbrev t : Coefficient
t = scalar 5

abbrev e_max : Coefficient
e_max = scalar 6

abbrev delta : Coefficient
delta = scalar 7

abbrev now : Coefficient
now = scalar 8

abbrev k_daily : Coefficient
k_daily = scalar 9

abbrev r_daily : Coefficient
r_daily = scalar 10

abbrev r_delta : Coefficient
r_delta = scalar 11

abbrev r1 : Coefficient
r1 = scalar 12

abbrev rho_e : Coefficient
rho_e = scalar 13

abbrev rho_r1 : Coefficient
rho_r1 = scalar 14

abbrev rho_s : Coefficient
rho_s = scalar 15

abbrev rho_k : Coefficient
rho_k = scalar 16

abbrev rho_c : Coefficient
rho_c = scalar 17

abbrev rho_e_msg : Coefficient
rho_e_msg = scalar 18

abbrev rho_u : Coefficient
rho_u = scalar 19

abbrev rho_v : Coefficient
rho_v = scalar 20

abbrev rho_w : Coefficient
rho_w = scalar 21

abbrev expiry : Coefficient
expiry = delta ⊞ now

abbrev a_prime : Combination
a_prime = r1 ⊛ a

abbrev msg_part : Combination
msg_part = identity ⊕ one ⊛ g ⊕ s ⊛ h0 ⊕ k ⊛ h1 ⊕ c_max ⊛ h3 ⊕ expiry ⊛ h5

abbrev a_bar : Combination
a_bar = negate e ⊛ a_prime ⊕ r1 ⊛ msg_part

abbrev t_bbs : Combination
t_bbs =
    identity
    ⊕ negate rho_e ⊛ a_prime
    ⊕ rho_r1 ⊛ g
    ⊕ rho_s ⊛ h0
    ⊕ rho_k ⊛ h1
    ⊕ rho_c ⊛ h3
    ⊕ rho_e_msg ⊛ h5

abbrev n_t : Combination
n_t = k ⊛ h_t

abbrev k_daily_commit : Combination
k_daily_commit = k ⊛ h1 ⊕ k_daily ⊛ h2 ⊕ c_max ⊛ h3 ⊕ t ⊛ h4 ⊕ (expiry ⊛ h5 ⊕ r_daily ⊛ h0)

abbrev c_bridge : Combination
c_bridge = delta ⊛ h5 ⊕ r_delta ⊛ h0 ⊕ now ⊛ h5

abbrev t_d : Combination
t_d =
    identity ⊕ rho_k ⊛ h1 ⊕ rho_u ⊛ h2 ⊕ rho_c ⊛ h3 ⊕ rho_r1 ⊠ t ⊛ h4 ⊕ rho_e_msg ⊛ h5 ⊕ rho_v ⊛ h0

abbrev t_b : Combination
t_b = identity ⊕ rho_e_msg ⊛ h5 ⊕ rho_w ⊛ h0

abbrev z_e : Coefficient
z_e = rho_e ⊞ c ⊠ e

abbrev z_r1 : Coefficient
z_r1 = rho_r1 ⊞ c ⊠ r1

abbrev z_s_tilde : Coefficient
z_s_tilde = rho_s ⊞ c ⊠ (s ⊠ r1)

abbrev z_k_tilde : Coefficient
z_k_tilde = rho_k ⊞ c ⊠ (k ⊠ r1)

abbrev z_c_tilde : Coefficient
z_c_tilde = rho_c ⊞ c ⊠ (c_max ⊠ r1)

abbrev z_e_tilde : Coefficient
z_e_tilde = rho_e_msg ⊞ c ⊠ (expiry ⊠ r1)

abbrev z_u : Coefficient
z_u = rho_u ⊞ c ⊠ (k_daily ⊠ r1)

abbrev z_v : Coefficient
z_v = rho_v ⊞ c ⊠ (r_daily ⊠ r1)

abbrev z_w : Coefficient
z_w = rho_w ⊞ c ⊠ (r_delta ⊠ r1)

abbrev c2 : Coefficient
c2 = c ⊠ c

abbrev c3 : Coefficient
c3 = c2 ⊠ c

abbrev fixed_sum : Combination
fixed_sum =
    (c2 ⊠ z_v ⊞ (c3 ⊠ z_w ⊞ z_s_tilde)) ⊛ h0
    ⊕ (c2 ⊞ one) ⊠ z_k_tilde ⊛ h1
    ⊕ c2 ⊠ z_u ⊛ h2
    ⊕ (c2 ⊞ one) ⊠ z_c_tilde ⊛ h3
    ⊕ c2 ⊠ (z_r1 ⊠ t) ⊛ h4
    ⊕ (one ⊞ (c2 ⊞ c3)) ⊠ z_e_tilde ⊛ h5
    ⊕ z_r1 ⊛ g

abbrev variable_sum : Combination
variable_sum =
    identity
    ⊕ c ⊠ z_k_tilde ⊛ h_t
    ⊕ negate (c ⊠ z_r1) ⊛ n_t
    ⊕ c ⊛ (rho_r1 ⊛ n_t)
    ⊕ negate c ⊛ (rho_k ⊛ h_t)
    ⊕ negate z_e ⊛ a_prime
    ⊕ negate (c2 ⊠ z_r1) ⊛ k_daily_commit
    ⊕ negate (c3 ⊠ z_r1) ⊛ c_bridge
    ⊕ negate c ⊛ a_bar
    ⊕ negate c2 ⊛ t_d
    ⊕ c2 ⊛ (rho_r1 ⊛ k_daily_commit)
    ⊕ negate c3 ⊛ t_b
    ⊕ c3 ⊛ (rho_r1 ⊛ c_bridge)
    ⊕ negate one ⊛ t_bbs

unfoldable pub sum : Combination
sum = fixed_sum ⊕ variable_sum
