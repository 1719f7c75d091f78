-- ===== src/ScanProof/Verifier.antt =====
-- The verifier of ScanProof (scanproof/verifier/src/lib.rs) over a curve: commitments, the proofs
-- of openings, the balance proof of private transfers, and the groups of coins.
pub mod Ristretto
pub mod Rng
pub mod Openings
pub mod Fields
pub mod Complete
pub mod OneOfMany
pub mod Groups
pub mod Padded
pub mod Tests
use Prim.Native.Nat.{bit_and}
use nulla_relay.Prelude.{
  ℕ, zero, suc, ◌+◌, ◌-◌, ◌*◌, ◌%◌, ◌^◌, Bool, true, false, not, ◌&&◌, Option, none, some, List, [],
  ◌∷◌, ◌++◌, ◌==◌, leb, ltb, if◌then◌else◌, length, take, drop, to_le_bytes, from_le_bytes, ascii,
}
use nulla_relay.ScanProof.Types.{ProofPublicInputs}
use nulla_relay.ScanProof.Verifier.Ristretto.{Curve}

-- `read_pt` and `read_sc`: 32 bytes of a proof from an offset on.
abbrev pub bytes_at : ℕ → List ℕ → ℕ
bytes_at off proof = from_le_bytes (take 32 (drop off proof))

module _ (v : Curve) where
  abbrev pub hash_to_point : List ℕ → v.Point
  hash_to_point message = v.from_uniform_bytes (v.sha512 message)

  unfoldable pub generator_h : v.Point
  generator_h = hash_to_point (ascii "VERIFIER_H_GENERATOR")

  unfoldable pub generator_g1 : v.Point
  generator_g1 = hash_to_point (ascii "NULLA_SERIAL_GENERATOR")

  abbrev pub blake2_256 : List ℕ → List ℕ
  blake2_256 message = take 32 (v.blake2b512 message)

  -- The bytes of a point, as transcripts take them.
  abbrev pub point_bytes : v.Point → List ℕ
  point_bytes p = to_le_bytes 32 (v.compress p)

  abbrev pub scalar_bytes : v.Scalar → List ℕ
  scalar_bytes a = to_le_bytes 32 (v.to_bytes a)

  -- Coin v2: `C = s·G1 + v·G + r·H`.
  unfoldable pub coin_commit : (serial value blinding : ℕ) → ℕ
  coin_commit serial value blinding = v.compress (
      v.plus
        (v.plus (v.times (v.from_bytes_mod_order serial) generator_g1)
          (v.times (v.of_u64 value) v.basepoint))
        (v.times (v.from_bytes_mod_order blinding) generator_h))

  -- `v·G + r·H`
  unfoldable pub pedersen_commit : (value blinding : ℕ) → ℕ
  pedersen_commit value blinding = v.compress (
      v.plus (v.times (v.of_u64 value) v.basepoint)
        (v.times (v.from_bytes_mod_order blinding) generator_h))

  unfoldable pub blinding_sub : (r r_prime : ℕ) → ℕ
  blinding_sub r r_prime =
      v.to_bytes (v.sub (v.from_bytes_mod_order r) (v.from_bytes_mod_order r_prime))

  unfoldable pub verify_commitment : (value blinding commitment : ℕ) → Bool
  verify_commitment value blinding commitment = elim (v.decompress commitment) [
    | none ↦ false
    | some c_pt ↦
        v.same
          (v.plus (v.times (v.of_u64 value) v.basepoint)
            (v.times (v.from_bytes_mod_order blinding) generator_h))
          c_pt
  ]

  unfoldable pub pedersen_subtract : (c_a c_b : ℕ) → Option ℕ
  pedersen_subtract c_a c_b = elim (v.decompress c_a) [
    | none ↦ none
    | some pa ↦ elim (v.decompress c_b) [
      | none ↦ none
      | some pb ↦ some (v.compress (v.minus pa pb))
    ]
  ]

  -- The equation `s·H = R + c·A` of a Schnorr proof.
  unfoldable pub verify_opening_knowledge : (value commitment : ℕ) (proof binding : List ℕ) → Bool
  verify_opening_knowledge value commitment proof binding =
      if not (length proof == 64) then false else (elim (v.decompress commitment) [
        | none ↦ false
        | some c_pt ↦
            let a_pt = v.minus c_pt (v.times (v.of_u64 value) v.basepoint) in
            elim (v.decompress (bytes_at 0 proof)) [
              | none ↦ false
              | some r_pt ↦
                  let s = v.from_bytes_mod_order (bytes_at 32 proof) in
                  let c = v.challenge (ascii "NULLA_PEDERSEN_OPENING") (
                    (ascii "bind", binding)
                    ∷ (ascii "R", point_bytes r_pt)
                    ∷ (ascii "A", point_bytes a_pt)
                    ∷ []) in
                  v.same (v.times s generator_h) (v.plus r_pt (v.times c a_pt))
            ]
      ])

  -- `agg += p` for the points of the inputs, `agg -= p` for those of the outputs.
  abbrev pub fold_points : (v.Point → v.Point → v.Point) → List ℕ → v.Point → Option v.Point
  fold_points f [] agg = some agg
  fold_points f (k ∷ ks) agg = elim (v.decompress k) [
    | none ↦ none
    | some p ↦ fold_points f ks (f agg p)
  ]

  unfoldable pub challenge : (r agg : v.Point) (pi_hash : List ℕ) → v.Scalar
  challenge r agg pi_hash = v.challenge (ascii "NULLA_SCHNORR_BALANCE") (
      (ascii "pi_hash", pi_hash) ∷ (ascii "R", point_bytes r) ∷ (ascii "AGG", point_bytes agg) ∷ [])

  unfoldable pub check_balance : (proof pi_hash : List ℕ) (r agg : v.Point) → Bool
  check_balance proof pi_hash r agg =
      v.same (v.times (v.from_bytes_mod_order (bytes_at 32 proof)) generator_h)
        (v.plus r (v.times (challenge r agg pi_hash) agg))

  -- The difference of the commitments that are spent and of those that are made.
  unfoldable pub aggregate : ProofPublicInputs → Option v.Point
  aggregate inputs = elim (fold_points v.plus inputs.input_commitments v.identity) [
    | none ↦ none
    | some spent ↦ fold_points v.minus inputs.new_commitments spent
  ]

  -- The balance of a private transfer: what is spent less what is made is a multiple of H.
  unfoldable pub verify_bytes :
      (decode : List ℕ → Option ProofPublicInputs) (proof public_inputs : List ℕ) → Bool
  verify_bytes decode proof public_inputs = elim (decode public_inputs) [
    | none ↦ false
    | some inputs ↦
        if not (length proof == 64) then false else (elim (v.decompress (bytes_at 0 proof)) [
          | none ↦ false
          | some r_pt ↦ elim (aggregate inputs) [
            | none ↦ false
            | some agg ↦ check_balance proof (blake2_256 public_inputs) r_pt agg
          ]
        ])
  ]
