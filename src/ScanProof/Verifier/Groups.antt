-- ===== src/ScanProof/Verifier/Groups.antt =====
-- The padding of a group of coins in ScanProof's verifier (scanproof/verifier/src/lib.rs,
-- `one_of_many::pad_group`), with coins derived from the number of the group.
use nulla_relay.Prelude.{
  ℕ, zero, suc, ◌+◌, ◌-◌, ◌*◌, ◌%◌, ◌^◌, List, [], ◌∷◌, ◌++◌, leb, if◌then◌else◌, length,
  to_le_bytes, ascii,
}
use nulla_relay.ScanProof.Verifier.Ristretto.{Curve}
use nulla_relay.ScanProof.Verifier.{hash_to_point}

-- `next_power_of_two` from a power on, on fuel.
unfoldable pub next_power_of_two : (fuel n p : ℕ) → ℕ
next_power_of_two zero n p = p
next_power_of_two (suc fuel) n p =
    let rest = next_power_of_two fuel n (2 * p) in if leb n p then p else rest

abbrev pub at_least_two : ℕ → ℕ
at_least_two n = if leb 2 n then n else 2

-- `max(coins.len(), 2).next_power_of_two()`
abbrev pub padded_length : ℕ → ℕ
padded_length n = next_power_of_two (at_least_two n) (at_least_two n) 1

module _ (v : Curve) where
  unfoldable pub pad_coin : (group_id i : ℕ) → ℕ
  pad_coin group_id i =
      v.compress
        (hash_to_point v (ascii "NULLA_GROUP_PAD" ++ (to_le_bytes 4 group_id ++ to_le_bytes 4 i)))

  -- The loop of `pad_group`, for the coins that are missing.
  abbrev pub pad_coins : (missing group_id i : ℕ) → List ℕ
  pad_coins zero group_id i = []
  pad_coins (suc missing) group_id i =
      pad_coin group_id i ∷ pad_coins missing group_id ((i + 1) % 2 ^ 32)

  unfoldable pub pad_group : (coins : List ℕ) (group_id : ℕ) → List ℕ
  pad_group coins group_id =
      coins
      ++ pad_coins (padded_length (length coins) - length coins) group_id (length coins % 2 ^ 32)
