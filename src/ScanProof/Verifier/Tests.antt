-- ===== src/ScanProof/Verifier/Tests.antt =====
-- A run of ScanProof's verifier (scanproof/verifier/src/lib.rs) over a group of two points.
pub mod TwoPoints
use nulla_relay.Prelude.{
  ℕ, zero, suc, ◌+◌, ◌*◌, ◌<◌, ◌^◌, Bool, true, false, not, ◌&&◌, Option, none, some, List, [], ◌∷◌,
  ◌≡◌, refl, ap, ◌∙◌, arith, replicate, map, get_or, length, take,
}
use nulla_relay.ScanProof.Verifier.Ristretto.{Curve, IsCurve, IsRing}
use nulla_relay.ScanProof.Verifier.Tests.TwoPoints.{curve, curve-IsCurve, curve-IsRing, to_number}
use nulla_relay.ScanProof.Verifier.{
  coin_commit, pedersen_commit, blinding_sub, generator_h, generator_g1,
}
use nulla_relay.ScanProof.Verifier.Openings.{
  prove_deposit_open, verify_deposit_open, prove_g1_pok, verify_g1_pok,
}
use nulla_relay.ScanProof.Verifier.OneOfMany.{is_group, trailing_zeros}
use nulla_relay.ScanProof.Verifier.Groups.{at_least_two, pad_group}
use nulla_relay.ScanProof.Verifier.Complete.{deposit_opening_verifies, change_conversion_verifies}
use nulla_relay.ScanProof.Verifier.OneOfMany.Prove.{prove}
use nulla_relay.ScanProof.Verifier.OneOfMany.Verify.{verify}
use nulla_relay.ScanProof.Verifier.OneOfMany.Coin.{coin_spend_verifies}
use nulla_relay.ScanProof.Verifier.Padded.{padded_group_proves}

-- A group of four coins; the third has the serial 1, holds 100 and is blinded by 9.
abbrev group : List Bool
group = true ∷ true ∷ false ∷ true ∷ []

third_coin : get_or (map to_number group) 2 0 ≡ coin_commit curve 1 (70 + 30) 9
unfolding coin_commit generator_h generator_g1
third_coin = refl

coin_spend_verifies_example :
    (proof : List ℕ) × (prove curve
        (map to_number group)
        2
        1
        70
        (pedersen_commit curve 30 4)
        (blinding_sub curve 9 4)
        (1 ∷ 2 ∷ [])
        5
      ≡ some proof)
    × (verify curve proof (map to_number group) 1 70 (pedersen_commit curve 30 4) (1 ∷ 2 ∷ [])
        ≡ true)
coin_spend_verifies_example =
    coin_spend_verifies curve curve-IsCurve curve-IsRing 2 group 2 1 70 30 9 4 (1 ∷ 2 ∷ []) 5 refl
      (omega arith) (omega arith) (omega arith) third_coin

deposit_opening_verifies_example :
    (proof : List ℕ) × (prove_deposit_open curve (coin_commit curve 7 100 9) 100 7 9 (1 ∷ 2 ∷ []) 5
      ≡ some proof)
    × (verify_deposit_open curve (coin_commit curve 7 100 9) 100 proof (1 ∷ 2 ∷ []) ≡ true)
deposit_opening_verifies_example =
    deposit_opening_verifies curve curve-IsCurve 7 100 9 (1 ∷ 2 ∷ []) 5

change_conversion_verifies_example :
    (proof : List ℕ) × (prove_g1_pok curve
        (coin_commit curve 7 30 9)
        (pedersen_commit curve 30 9)
        7
        (1 ∷ 2 ∷ [])
        5
      ≡ some proof)
    × (verify_g1_pok curve
          (coin_commit curve 7 30 9)
          (pedersen_commit curve 30 9)
          proof
          (1 ∷ 2 ∷ [])
        ≡ true)
change_conversion_verifies_example =
    change_conversion_verifies curve curve-IsCurve 7 30 9 (1 ∷ 2 ∷ []) 5

padded_group_proves_example :
    (k : ℕ) × (length (pad_group curve (1 ∷ 0 ∷ 1 ∷ []) 6) ≡ 2 ^ k)
    × (take 3 (pad_group curve (1 ∷ 0 ∷ 1 ∷ []) 6) ≡ 1 ∷ 0 ∷ 1 ∷ [])
    × (length (pad_group curve (1 ∷ 0 ∷ 1 ∷ []) 6) < 2 * at_least_two 3)
    × (is_group (length (pad_group curve (1 ∷ 0 ∷ 1 ∷ []) 6)) ≡ true)
    × (trailing_zeros
          (length (pad_group curve (1 ∷ 0 ∷ 1 ∷ []) 6))
          (length (pad_group curve (1 ∷ 0 ∷ 1 ∷ []) 6))
        ≡ k)
padded_group_proves_example = padded_group_proves curve (1 ∷ 0 ∷ 1 ∷ []) 6
