-- ===== src/ScanProof/Verifier/Padded.antt =====
-- The length of a padded group (scanproof/verifier/src/lib.rs, `one_of_many::pad_group`).
use native.Mathlib.Nat.{pow-succ'}
use nulla_relay.Prelude.{
  ℕ, zero, suc, ◌+◌, ◌-◌, ◌*◌, ◌/◌, ◌%◌, ◌^◌, ◌≤◌, ◌<◌, true, false, List, [], ◌∷◌, ◌++◌, ◌≡◌, refl,
  sym, ap, arith, ◌==◌, leb, length, length-append, take, by_true, ==_iff,
}
use nulla_relay.ProofHub.Notes.Root.{bit_and_power}
use nulla_relay.ScanProof.Verifier.Ristretto.{Curve}
use nulla_relay.ScanProof.Verifier.OneOfMany.{is_group, trailing_zeros}
use nulla_relay.ScanProof.Verifier.Groups.{
  next_power_of_two, at_least_two, padded_length, pad_coins, pad_group,
}

two_power_pos : (k : ℕ) → 1 ≤ 2 ^ k
two_power_pos zero = omega arith
two_power_pos (suc k) = let double = pow-succ' 2 k in let before = two_power_pos k in omega arith

-- The loop ends at a power from `n` on, below its double.
power_from :
    (fuel n k : ℕ)
    → n ≤ fuel + 2 ^ k
    → 2 ^ k < 2 * n
    → (j : ℕ) × (next_power_of_two fuel n (2 ^ k) ≡ 2 ^ j) × (n ≤ 2 ^ j) × (2 ^ j < 2 * n)
unfolding next_power_of_two
power_from zero n k enough below = (k, refl, omega arith, below)
power_from (suc fuel) n k enough below =
    by_true (leb n (2 ^ k))
      (λ short.
        let double = pow-succ' 2 k in
        let some = two_power_pos k in
        let less : 2 ^ k < n = ground arith in
        let (j, same, above, bound) = power_from fuel n (suc k) (omega arith) (omega arith) in
        (j, rw (short, sym double) same, above, bound))
      λ reached. (k, rw reached refl, ground arith, below)

pub lt_two_power : (k : ℕ) → k < 2 ^ k
lt_two_power zero = omega arith
lt_two_power (suc k) = let double = pow-succ' 2 k in let before = lt_two_power k in omega arith

pub trailing_zeros_power : (fuel k : ℕ) → k < fuel → trailing_zeros fuel (2 ^ k) ≡ k
unfolding trailing_zeros
trailing_zeros_power zero k more = absurd (omega arith)
trailing_zeros_power (suc fuel) zero more = refl
trailing_zeros_power (suc fuel) (suc k) more =
    let double = pow-succ' 2 k in
    let half : 2 ^ suc k / 2 ≡ 2 ^ k = omega arith in
    let even : (2 ^ suc k % 2 == 0) ≡ true = (==_iff (2 ^ suc k % 2) 0).1 (omega arith) in
    rw (even, half) (ap suc (trailing_zeros_power fuel k (omega arith)))

pub is_group_power : (k : ℕ) → 2 ≤ 2 ^ k → is_group (2 ^ k) ≡ true
is_group_power k two =
    let positive : (2 ^ k == 0) ≡ false = ground arith in
    let large : leb 2 (2 ^ k) ≡ true = ground arith in rw (large, positive, bit_and_power k) refl

length-pad_coins :
    (v : Curve) (missing group_id i : ℕ) → length (pad_coins v missing group_id i) ≡ missing
length-pad_coins v zero group_id i = refl
length-pad_coins v (suc missing) group_id i =
    ap suc (length-pad_coins v missing group_id ((i + 1) % 2 ^ 32))

take-append : (xs ys : List ℕ) → take (length xs) (xs ++ ys) ≡ xs
take-append [] ys = refl
take-append (x ∷ xs) ys = ap (λ t. x ∷ t) (take-append xs ys)

-- A power of two for the coins of a group and for two coins, below the double of what is needed.
padded_length_power :
    (n : ℕ)
    → (k : ℕ) × (padded_length n ≡ 2 ^ k) × (at_least_two n ≤ 2 ^ k) × (2 ^ k < 2 * at_least_two n)
padded_length_power n =
    let two : 2 ≤ at_least_two n = ground arith in
    power_from (at_least_two n) (at_least_two n) 0 (omega arith) (omega arith)

-- A padded group starts with the coins of the group, in their order; its length is a power of two
-- from two on, below the double of the group's length or four; so the verifier takes it, and the
-- proofs for it have as many bits as the exponent.
pub padded_group_proves :
    (v : Curve) (coins : List ℕ) (group_id : ℕ)
    → let out = pad_group v coins group_id in
      (k : ℕ) × (length out ≡ 2 ^ k)
      × (take (length coins) out ≡ coins)
      × (length out < 2 * at_least_two (length coins))
      × (is_group (length out) ≡ true)
      × (trailing_zeros (length out) (length out) ≡ k)
unfolding pad_group
padded_group_proves v coins group_id =
    let n = length coins in
    let missing = padded_length n - n in
    let pads = pad_coins v missing group_id (n % 2 ^ 32) in
    let (k, same, above, bound) = padded_length_power n in
    let covers : n ≤ at_least_two n = ground arith in
    let two : 2 ≤ at_least_two n = ground arith in
    let whole = length-append coins pads in
    let rest = length-pad_coins v missing group_id (n % 2 ^ 32) in
    let size : length (coins ++ pads) ≡ 2 ^ k = omega arith in
    (
      k,
      size,
      take-append coins pads,
      rw size bound,
      rw size (is_group_power k (omega arith)),
      rw size (trailing_zeros_power (2 ^ k) k (lt_two_power k)),
    )
