-- ===== src/Base/Div.antt =====
-- Divisibility, written `a % q ≡ 0`, and remainders of sums.
use Prim.Native.Nat.{ℕ, ◌+◌, ◌-◌, ◌*◌, ◌/◌, ◌%◌, ◌≤◌, ◌<◌}
use mathlib.Core.Path.{◌≡◌, ap, ◌∙◌}
use native.Mathlib.Omega.{arith}
use native.Mathlib.Nat.{
  add-mod, mod-mod_of_dvd, dvd_of_mod-eq-zero, mod-eq-zero_of_dvd, dvd-sub, mul-mod_left, zero-mod,
}

pub div-mul_of_mod : (a q : ℕ) → a % q ≡ 0 → a / q * q ≡ a
div-mul_of_mod a q h = omega arith

pub mul-mod : (n q : ℕ) → n * q % q ≡ 0
mul-mod n q = mul-mod_left n q

pub mul-div : (n q : ℕ) → 0 < q → n * q / q ≡ n
mul-div n q h = grind arith

pub add-mod-eq-zero : (a b q : ℕ) → a % q ≡ 0 → b % q ≡ 0 → (a + b) % q ≡ 0
add-mod-eq-zero a b q ha hb = rw (add-mod a b q, ha, hb, zero-mod q)

pub sub-mod-eq-zero : (a b q : ℕ) → a % q ≡ 0 → b % q ≡ 0 → (a - b) % q ≡ 0
sub-mod-eq-zero a b q ha hb =
    mod-eq-zero_of_dvd q (dvd-sub q (dvd_of_mod-eq-zero q ha) (dvd_of_mod-eq-zero q hb))

pub mod-mod-eq-zero : (a b q : ℕ) → a % q ≡ 0 → b % q ≡ 0 → a % b % q ≡ 0
mod-mod-eq-zero a b q ha hb = mod-mod_of_dvd q a (dvd_of_mod-eq-zero q hb) ∙ ha

pub le-div_of_mul-le : (n a q : ℕ) → 0 < q → n * q ≤ a → n ≤ a / q
le-div_of_mul-le n a q h p = grind arith

pub mul-le_of_le-div : (n a q : ℕ) → n ≤ a / q → n * q ≤ a
mul-le_of_le-div n a q p = grind arith

-- A reduction modulo a multiple of `m` on the way does not change a remainder by `m`.
pub mod-mod_of_mod : (a b m : ℕ) → b % m ≡ 0 → a % b % m ≡ a % m
mod-mod_of_mod a b m h = mod-mod_of_dvd m a (dvd_of_mod-eq-zero m h)

pub mul-split : (c n q : ℕ) → c ≤ n → c * q + (n - c) * q ≡ n * q
mul-split c n q h = let e : c + (n - c) ≡ n = omega arith in omega (arith, ap (λ (t : ℕ). t * q) e)

pub mul-le-mul : {a b : ℕ} (q : ℕ) → a ≤ b → a * q ≤ b * q
mul-le-mul q h = grind arith
