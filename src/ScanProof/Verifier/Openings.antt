-- ===== src/ScanProof/Verifier/Openings.antt =====
-- The proofs of ScanProof's verifier (scanproof/verifier/src/lib.rs) that a deposited coin holds its
-- amount, and that a change coin holds its change: the wallet's side and the chain's side.
use nulla_relay.Prelude.{
  ℕ, Bool, false, not, Option, none, some, List, [], ◌∷◌, ◌++◌, ◌==◌, if◌then◌else◌, length,
  to_le_bytes, ascii,
}
use nulla_relay.ScanProof.Verifier.Ristretto.{Curve}
use nulla_relay.ScanProof.Verifier.Rng.{new_rng, scalar_from_rng}
use nulla_relay.ScanProof.Verifier.{bytes_at, generator_h, generator_g1, point_bytes, scalar_bytes}

module _ (v : Curve) where
  abbrev pub deposit_challenge : (coin amount : ℕ) (ctx : List ℕ) (r_pt a_pt : v.Point) → v.Scalar
  deposit_challenge coin amount ctx r_pt a_pt = v.challenge (ascii "NULLA_COIN_DEPOSIT_OPEN") (
      (ascii "coin", to_le_bytes 32 coin)
      ∷ (ascii "amount", to_le_bytes 8 amount)
      ∷ (ascii "ctx", ctx)
      ∷ (ascii "R", point_bytes v r_pt)
      ∷ (ascii "A", point_bytes v a_pt)
      ∷ [])

  unfoldable pub verify_deposit_open : (coin amount : ℕ) (proof ctx : List ℕ) → Bool
  verify_deposit_open coin amount proof ctx =
      if not (length proof == 96) then false else (elim (v.decompress coin) [
        | none ↦ false
        | some c_pt ↦
            let a_pt = v.minus c_pt (v.times (v.of_u64 amount) v.basepoint) in
            elim (v.decompress (bytes_at 0 proof)) [
              | none ↦ false
              | some r_pt ↦ elim (v.from_canonical_bytes (bytes_at 32 proof)) [
                | none ↦ false
                | some zs ↦ elim (v.from_canonical_bytes (bytes_at 64 proof)) [
                  | none ↦ false
                  | some zr ↦
                      v.same (v.plus (v.times zs (generator_g1 v)) (v.times zr (generator_h v)))
                        (v.plus r_pt (v.times (deposit_challenge coin amount ctx r_pt a_pt) a_pt))
                ]
              ]
            ]
      ])

  -- The wallet's proof; `none` where it panics at a coin that is no point.
  unfoldable pub prove_deposit_open :
      (coin amount serial blinding : ℕ) (ctx : List ℕ) (seed : ℕ) → Option (List ℕ)
  prove_deposit_open coin amount serial blinding ctx seed =
      let s = v.from_bytes_mod_order serial in
      let r = v.from_bytes_mod_order blinding in
      let (ks, rng) = scalar_from_rng v (new_rng seed) in
      let kr = (scalar_from_rng v rng).0 in
      let r_pt = v.plus (v.times ks (generator_g1 v)) (v.times kr (generator_h v)) in
      elim (v.decompress coin) [
        | none ↦ none
        | some c_pt ↦
            let a_pt = v.minus c_pt (v.times (v.of_u64 amount) v.basepoint) in
            let c = deposit_challenge coin amount ctx r_pt a_pt in
            some (
              point_bytes v r_pt
              ++ (scalar_bytes v (v.add ks (v.mul c s)) ++ scalar_bytes v (v.add kr (v.mul c r))))
      ]

  abbrev pub conversion_challenge :
      (new_coin change : ℕ) (ctx : List ℕ) (r_pt a_pt : v.Point) → v.Scalar
  conversion_challenge new_coin change ctx r_pt a_pt = v.challenge (ascii "NULLA_COIN_G1_POK") (
      (ascii "new_coin", to_le_bytes 32 new_coin)
      ∷ (ascii "change", to_le_bytes 32 change)
      ∷ (ascii "ctx", ctx)
      ∷ (ascii "R", point_bytes v r_pt)
      ∷ (ascii "A", point_bytes v a_pt)
      ∷ [])

  unfoldable pub verify_g1_pok : (new_coin change : ℕ) (proof ctx : List ℕ) → Bool
  verify_g1_pok new_coin change proof ctx =
      if not (length proof == 64) then false else (elim (v.decompress new_coin) [
        | none ↦ false
        | some nc ↦ elim (v.decompress change) [
          | none ↦ false
          | some ch ↦
              let a_pt = v.minus nc ch in
              elim (v.decompress (bytes_at 0 proof)) [
                | none ↦ false
                | some r_pt ↦ elim (v.from_canonical_bytes (bytes_at 32 proof)) [
                  | none ↦ false
                  | some z ↦ v.same (v.times z (generator_g1 v)) (
                      v.plus r_pt
                        (v.times (conversion_challenge new_coin change ctx r_pt a_pt) a_pt))
                ]
              ]
        ]
      ])

  unfoldable pub prove_g1_pok :
      (new_coin change new_serial : ℕ) (ctx : List ℕ) (seed : ℕ) → Option (List ℕ)
  prove_g1_pok new_coin change new_serial ctx seed =
      let s = v.from_bytes_mod_order new_serial in
      let k = (scalar_from_rng v (new_rng seed)).0 in
      let r_pt = v.times k (generator_g1 v) in
      elim (v.decompress new_coin) [
        | none ↦ none
        | some nc ↦ elim (v.decompress change) [
          | none ↦ none
          | some ch ↦
              let c = conversion_challenge new_coin change ctx r_pt (v.minus nc ch) in
              some (point_bytes v r_pt ++ scalar_bytes v (v.add k (v.mul c s)))
        ]
      ]
