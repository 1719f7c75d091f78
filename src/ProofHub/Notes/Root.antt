-- ===== src/ProofHub/Notes/Root.antt =====
-- The two loops of `compute_merkle_root` of the ProofHub pallet
-- (proofhub/pallets/proofs/src/lib.rs): padding to a power of two, and folding to one node.
use Prim.Native.Nat.{bit_and, bit_and-bitwise, digits}
use native.Mathlib.Nat.{pow-succ'}
use nulla_relay.Prelude.{
  ℕ, zero, suc, ◌+◌, ◌-◌, ◌*◌, ◌/◌, ◌%◌, ◌^◌, ◌≤◌, ◌<◌, min, true, false, List, [], ◌∷◌, ◌++◌, ◌≡◌,
  refl, ◌∙◌, sym, arith, ◌==◌, ltb, length, length-append, by_true, ==_iff, ltb→lt,
}
use nulla_relay.ProofHub.Types.{Config}
use nulla_relay.ProofHub.Notes.{pad_level, fold_levels, next_level}

abbrev common : ℕ → ℕ → ℕ → ℕ
common n a b = digits (λ x. 0) min n a b

common_zero : (n b : ℕ) → common n 0 b ≡ 0
common_zero zero b = refl
common_zero (suc n) b = refl

common_half : (n a b : ℕ) → a % 2 ≡ 0 → common n (a / 2) (b / 2) ≡ 0 → common (suc n) a b ≡ 0
common_half n zero b even none = refl
common_half n (suc a) b even none = rw (none, even) (omega arith)

common_power : (k n : ℕ) → common n (2 ^ k) (2 ^ k - 1) ≡ 0
common_power k zero = refl
common_power zero (suc n) = rw (common_zero n 0) refl
common_power (suc k) (suc n) =
    let double = pow-succ' 2 k in
    let half : 2 ^ suc k / 2 ≡ 2 ^ k = omega arith in
    let less : (2 ^ suc k - 1) / 2 ≡ 2 ^ k - 1 = omega arith in
    common_half n (2 ^ suc k) (2 ^ suc k - 1) (omega arith) (rw (half, less) (common_power k n))

pub bit_and_power : (k : ℕ) → bit_and (2 ^ k) (2 ^ k - 1) ≡ 0
bit_and_power k = (λ i. bit_and-bitwise (2 ^ k) (2 ^ k - 1) i) ∙ common_power k (2 ^ k)

-- A power of two that is not below `n` and below its double.
next_power : (n : ℕ) → (k : ℕ) × (suc n ≤ 2 ^ k) × (2 ^ k < 2 * suc n)
next_power zero = (0, omega arith, omega arith)
next_power (suc n) =
    let (k, above, below) = next_power n in
    by_true (ltb (suc n) (2 ^ k))
      (λ equal.
        let double = pow-succ' 2 k in
        let same : 2 ^ k ≤ suc n = ground arith in (suc k, omega arith, omega arith))
      λ room. let more = ltb→lt (suc n) (2 ^ k) room in (k, omega arith, omega arith)

-- The loop's condition no longer holds: the length is a power of two.
abbrev pub IsPadded : List ℕ → Type 0
IsPadded level = bit_and (length level) (length level - 1) ≡ 0

padded_at :
    (k : ℕ) (level : List ℕ)
    → length level ≡ 2 ^ k
    → (bit_and (length level) (length level - 1) == 0) ≡ true
padded_at k level same =
    (==_iff (bit_and (length level) (length level - 1)) 0).1 (rw same (bit_and_power k))

not_yet :
    (k : ℕ) (level : List ℕ)
    → length level ≤ 2 ^ k
    → (bit_and (length level) (length level - 1) == 0) ≡ false
    → length level < 2 ^ k
not_yet k level above goes =
    by_true (ltb (length level) (2 ^ k))
      (λ equal.
        let same : length level ≡ 2 ^ k = ground arith in
        let stops = padded_at k level same in
        let impossible : true ≡ false = sym stops ∙ goes in ground arith)
      (λ room. ltb→lt (length level) (2 ^ k) room)

pad_level_steps :
    (k fuel : ℕ) (level : List ℕ)
    → length level ≤ 2 ^ k
    → 2 ^ k ≤ length level + fuel
    → IsPadded (pad_level fuel level) × (length (pad_level fuel level) ≤ 2 ^ k)
unfolding pad_level
pad_level_steps k zero level above fuel =
    let same : length level ≡ 2 ^ k = omega arith in (rw same (bit_and_power k), above)
pad_level_steps k (suc fuel) level above enough =
    by_true (bit_and (length level) (length level - 1) == 0)
      (λ goes.
        let longer = length-append level (0 ∷ []) in
        let room = not_yet k level above goes in
        rw goes (pad_level_steps k fuel (level ++ 0 ∷ []) (omega arith) (omega arith)))
      λ stops. rw stops ((==_iff (bit_and (length level) (length level - 1)) 0).0 stops, above)

length-pad_level : (fuel : ℕ) (level : List ℕ) → length level ≤ length (pad_level fuel level)
unfolding pad_level
length-pad_level zero level = omega arith
length-pad_level (suc fuel) level =
    by_true (bit_and (length level) (length level - 1) == 0)
      (λ goes.
        let longer = length-append level (0 ∷ []) in
        let rest = length-pad_level fuel (level ++ 0 ∷ []) in rw goes (omega arith))
      (λ stops. rw stops (omega arith))

module _ (c : Config) where
  length-next_level : (cur : List ℕ) → length (next_level c cur) ≡ (length cur + 1) / 2
  unfolding next_level
  length-next_level [] = omega arith
  length-next_level (a ∷ []) = omega arith
  length-next_level (a ∷ b ∷ rest) = omega (arith, length-next_level rest)

  fold_levels_steps :
      (fuel : ℕ) (cur : List ℕ)
      → 0 < length cur
      → length cur ≤ fuel
      → length (fold_levels c fuel cur) ≡ 1
  unfolding fold_levels
  fold_levels_steps zero cur some_leaf enough = omega arith
  fold_levels_steps (suc fuel) cur some_leaf enough =
      let half = length-next_level cur in
      by_true (ltb 1 (length cur)) (λ stops. rw stops (ground arith))
        λ goes.
          let more = ltb→lt 1 (length cur) goes in
          rw goes (fold_levels_steps fuel (next_level c cur) (omega arith) (omega arith))

  -- For a tree with any leaf, both loops of `compute_merkle_root` end within the fuel: the padded
  -- level has a power of two of nodes and less than twice as many as there are leaves, and the
  -- folding ends with a single node.
  pub compute_merkle_root_stops :
      (leaf : ℕ) (leaves : List ℕ)
      → let level = pad_level (length (leaf ∷ leaves)) (leaf ∷ leaves) in
        IsPadded level
        × (length level < 2 * length (leaf ∷ leaves))
        × (length (fold_levels c (length level) level) ≡ 1)
  compute_merkle_root_stops leaf leaves =
      let (k, above, below) = next_power (length leaves) in
      let level = pad_level (length (leaf ∷ leaves)) (leaf ∷ leaves) in
      let (padded, most) =
        pad_level_steps k (length (leaf ∷ leaves)) (leaf ∷ leaves) above (omega arith) in
      (
        padded,
        omega arith,
        fold_levels_steps (length level) level
            (omega (arith, length-pad_level (length (leaf ∷ leaves)) (leaf ∷ leaves)))
            (omega arith),
      )
