-- ===== src/ScanProof/Verifier/OneOfMany.antt =====
-- The one-of-many proofs of ScanProof's verifier (scanproof/verifier/src/lib.rs, `one_of_many`): the
-- wallet proves that some coin of a group, less the serial, the price and the change, is a multiple
-- of H, and the chain checks it.
pub mod Prove
pub mod Verify
pub mod Bits
pub mod Doubling
pub mod Polynomials
pub mod Selection
pub mod Masks
pub mod Accepted
pub mod Bytes
pub mod Spend
pub mod Coin
use Prim.Native.Nat.{bit_and}
use nulla_relay.Prelude.{
  ℕ, zero, suc, ◌+◌, ◌-◌, ◌*◌, ◌/◌, ◌%◌, ◌^◌, Bool, true, false, not, ◌&&◌, ◌||◌, Option, none,
  some, List, [], ◌∷◌, ◌++◌, map, ◌==◌, leb, ltb, if◌then◌else◌, length, drop, get_or, to_le_bytes,
  ascii,
}
use nulla_relay.ScanProof.Verifier.Ristretto.{Curve}
use nulla_relay.ScanProof.Verifier.Rng.{DeterministicRng, new_rng, scalar_from_rng}
use nulla_relay.ScanProof.Verifier.{
  bytes_at, generator_h, generator_g1, blake2_256, point_bytes, scalar_bytes,
}

-- `is_power_of_two`
abbrev pub is_power_of_two : ℕ → Bool
is_power_of_two n = not (n == 0) && (bit_and n (n - 1) == 0)

-- `n < 2 || !n.is_power_of_two()` is false.
abbrev pub is_group : ℕ → Bool
is_group n = leb 2 n && is_power_of_two n

-- `trailing_zeros`, on fuel.
unfoldable pub trailing_zeros : (fuel n : ℕ) → ℕ
trailing_zeros zero n = 0
trailing_zeros (suc fuel) n =
    let rest = trailing_zeros fuel (n / 2) in if n % 2 == 0 then suc rest else 0

-- A proof before it is written as bytes.
pub record OneOfManyProof (v : Curve) : Type 0 where
  pub cl : List v.Point
  pub ca : List v.Point
  pub cb : List v.Point
  pub gk : List v.Point
  pub fj : List v.Scalar
  pub zaj : List v.Scalar
  pub zbj : List v.Scalar
  pub zd : v.Scalar

module _ (v : Curve) where
  -- BLAKE2 over the coins of a group, one after the other.
  abbrev pub concat_coins : List ℕ → List ℕ
  concat_coins [] = []
  concat_coins (k ∷ ks) = to_le_bytes 32 k ++ concat_coins ks

  unfoldable pub group_hash : List ℕ → List ℕ
  group_hash coins = blake2_256 v (concat_coins coins)

  abbrev pub append_points : List ℕ → List v.Point → List (List ℕ × List ℕ)
  append_points label [] = []
  append_points label (p ∷ ps) = (label, point_bytes v p) ∷ append_points label ps

  unfoldable pub fs_challenge :
      (ghash : List ℕ) (serial price change : ℕ) (ctx : List ℕ) (cl ca cb gk : List v.Point)
      → v.Scalar
  fs_challenge ghash serial price change ctx cl ca cb gk = v.challenge (ascii "NULLA_ONE_OF_MANY") (
      (ascii "group", ghash)
        ∷ (ascii "serial", to_le_bytes 32 serial)
        ∷ (ascii "price", to_le_bytes 8 price)
        ∷ (ascii "change", to_le_bytes 32 change)
        ∷ (ascii "ctx", ctx)
        ∷ append_points (ascii "cl") cl
      ++ (append_points (ascii "ca") ca
          ++ (append_points (ascii "cb") cb ++ append_points (ascii "gk") gk)))

  -- The coins less an offset; `none` if a coin is no point.
  unfoldable pub shift_coins : v.Point → List ℕ → Option (List v.Point)
  shift_coins offset [] = some []
  shift_coins offset (k ∷ ks) = elim (v.decompress k) [
    | none ↦ none
    | some p ↦ elim (shift_coins offset ks) [ none ↦ none | some ps ↦ some (v.minus p offset ∷ ps) ]
  ]

  abbrev pub offset_of : (serial price : ℕ) → v.Point → v.Point
  offset_of serial price change_pt =
      v.plus
        (v.plus (v.times (v.from_bytes_mod_order serial) (generator_g1 v))
          (v.times (v.of_u64 price) v.basepoint))
        change_pt

  -- `D_i = C_i − s·G1 − price·G − change`
  unfoldable pub d_set : (coins : List ℕ) (serial price change : ℕ) → Option (List v.Point)
  d_set coins serial price change = elim (v.decompress change) [
    | none ↦ none
    | some change_pt ↦ shift_coins (offset_of serial price change_pt) coins
  ]
