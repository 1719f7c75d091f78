-- ===== src/ScanProof/Verifier/OneOfMany/Prove.antt =====
-- The wallet's side of a one-of-many proof (scanproof/verifier/src/lib.rs, `one_of_many::prove`).
use nulla_relay.Prelude.{
  ℕ, zero, suc, ◌/◌, ◌%◌, Bool, true, false, not, ◌||◌, Option, none, some, List, [], ◌∷◌, ◌++◌,
  map, ◌==◌, leb, if◌then◌else◌, length, get_or,
}
use nulla_relay.ScanProof.Verifier.Ristretto.{Curve}
use nulla_relay.ScanProof.Verifier.Rng.{DeterministicRng, new_rng, scalar_from_rng}
use nulla_relay.ScanProof.Verifier.{generator_h, point_bytes, scalar_bytes}
use nulla_relay.ScanProof.Verifier.OneOfMany.{
  is_group, trailing_zeros, OneOfManyProof, group_hash, fs_challenge, d_set,
}

-- What the wallet draws for each bit.
pub record Nonce (v : Curve) : Type 0 where
  pub r : v.Scalar
  pub a : v.Scalar
  pub s : v.Scalar
  pub t : v.Scalar
  pub rho : v.Scalar

-- A bit with its nonces, `l_j`, `r_j`, `a_j`, `s_j`, `t_j` and `ρ_j`.
pub record BitNonce (v : Curve) : Type 0 where
  pub bit : ℕ
  pub nonce : Nonce v
  pub open nonce use *

-- `start..start + count`
abbrev pub range : (start count : ℕ) → List ℕ
range start zero = []
range start (suc n) = start ∷ range (suc start) n

module _ (v : Curve) where
  unfoldable pub draw_nonces : ℕ → DeterministicRng → List (Nonce v)
  draw_nonces zero g = []
  draw_nonces (suc m) g =
      let (r, g1) = scalar_from_rng v g in
      let (a, g2) = scalar_from_rng v g1 in
      let (s, g3) = scalar_from_rng v g2 in
      let (t, g4) = scalar_from_rng v g3 in
      let (rho, g5) = scalar_from_rng v g4 in
      record { r = r; a = a; s = s; t = t; rho = rho } ∷ draw_nonces m g5

  abbrev pub with_bits : ℕ → List (Nonce v) → List (BitNonce v)
  with_bits index [] = []
  with_bits index (n ∷ ns) = record { bit = index % 2; nonce = n } ∷ with_bits (index / 2) ns

  -- `f_{j,i_j} = c1·x + c0` for the bit `i_j` of the number of a coin.
  abbrev pub slope : BitNonce v → ℕ → v.Scalar
  slope b i = if i % 2 == 1 then v.of_u64 b.bit else v.sub v.one_scalar (v.of_u64 b.bit)

  abbrev pub start_of : BitNonce v → ℕ → v.Scalar
  start_of b i = if i % 2 == 1 then b.a else v.negate b.a

  -- `coeffs *= (c1·x + c0)`, the lowest coefficient first: `shift` is the carry `coeffs[k - 1]·c1`.
  unfoldable pub times_linear : (c1 c0 carry : v.Scalar) → List v.Scalar → List v.Scalar
  times_linear c1 c0 carry [] = carry ∷ []
  times_linear c1 c0 carry (k ∷ ks) = v.add carry (v.mul k c0) ∷ times_linear c1 c0 (v.mul k c1) ks

  -- The polynomial of the coin `i`, over the bits from the lowest on.
  unfoldable pub coefficients : List (BitNonce v) → ℕ → List v.Scalar → List v.Scalar
  coefficients [] i coeffs = coeffs
  coefficients (b ∷ bs) i coeffs =
      coefficients bs (i / 2) (times_linear (slope b i) (start_of b i) v.zero_scalar coeffs)

  abbrev pub coefficient : ℕ → List v.Scalar → v.Scalar
  coefficient k coeffs = get_or coeffs k v.zero_scalar

  -- `G_k = Σ_i p_{i,k}·D_i + ρ_k·H`, for the `k` from the first on.
  unfoldable pub mask_terms :
      (k : ℕ) → List (BitNonce v) → (ps : List (List v.Scalar)) (d : List v.Point) → List v.Point
  mask_terms k [] ps d = []
  mask_terms k (b ∷ bs) ps d =
      v.multiscalar (map (coefficient k) ps ++ b.rho ∷ []) (d ++ generator_h v ∷ [])
      ∷ mask_terms (suc k) bs ps d

  abbrev pub commit_bit : BitNonce v → v.Point
  commit_bit b = v.plus (v.times (v.of_u64 b.bit) v.basepoint) (v.times b.r (generator_h v))

  abbrev pub commit_nonce : BitNonce v → v.Point
  commit_nonce b = v.plus (v.times b.a v.basepoint) (v.times b.s (generator_h v))

  abbrev pub commit_product : BitNonce v → v.Point
  commit_product b =
      v.plus (v.times (v.mul (v.of_u64 b.bit) b.a) v.basepoint) (v.times b.t (generator_h v))

  abbrev pub respond : v.Scalar → BitNonce v → v.Scalar
  respond x b = v.add (v.mul (v.of_u64 b.bit) x) b.a

  abbrev pub respond_nonce : v.Scalar → BitNonce v → v.Scalar
  respond_nonce x b = v.add (v.mul b.r x) b.s

  abbrev pub respond_product : v.Scalar → BitNonce v → v.Scalar
  respond_product x b = v.add (v.mul b.r (v.sub x (respond x b))) b.t

  -- `r·x^m − Σ_k ρ_k·x^k`; `xk` runs through the powers of `x`.
  unfoldable pub take_masks : (x xk zd : v.Scalar) → List (BitNonce v) → v.Scalar
  take_masks x xk zd [] = zd
  take_masks x xk zd (b ∷ bs) = take_masks x (v.mul xk x) (v.sub zd (v.mul b.rho xk)) bs

  unfoldable pub power : ℕ → v.Scalar → v.Scalar
  power zero x = v.one_scalar
  power (suc m) x = v.mul (power m x) x

  -- The proof for a coin of the group `d`, by its bits and their nonces.
  unfoldable pub respond_all :
      (ghash : List ℕ) (serial price change : ℕ) (r : v.Scalar) (ctx : List ℕ)
      → List (BitNonce v)
      → List v.Point
      → OneOfManyProof v
  respond_all ghash serial price change r ctx bs d =
      let ps = map (λ i. coefficients bs i (v.one_scalar ∷ [])) (range 0 (length d)) in
      let gk = mask_terms 0 bs ps d in
      let cl = map commit_bit bs in
      let ca = map commit_nonce bs in
      let cb = map commit_product bs in
      let x = fs_challenge v ghash serial price change ctx cl ca cb gk in
      record {
        cl = cl;
        ca = ca;
        cb = cb;
        gk = gk;
        fj = map (respond x) bs;
        zaj = map (respond_nonce x) bs;
        zbj = map (respond_product x) bs;
        zd = take_masks x v.one_scalar (v.mul r (power (length bs) x)) bs;
      }

  abbrev pub points_bytes : List v.Point → List ℕ
  points_bytes [] = []
  points_bytes (p ∷ ps) = point_bytes v p ++ points_bytes ps

  abbrev pub scalars_bytes : List v.Scalar → List ℕ
  scalars_bytes [] = []
  scalars_bytes (a ∷ rest) = scalar_bytes v a ++ scalars_bytes rest

  unfoldable pub write_proof : ℕ → OneOfManyProof v → List ℕ
  write_proof m p =
      (m % 256) ∷ points_bytes p.cl
      ++ (points_bytes p.ca
          ++ (points_bytes p.cb
              ++ (points_bytes p.gk
                  ++ (scalars_bytes p.fj
                      ++ (scalars_bytes p.zaj ++ (scalars_bytes p.zbj ++ scalar_bytes v p.zd))))))

  abbrev pub respond_if : Bool → (m : ℕ) → OneOfManyProof v → Option (List ℕ)
  respond_if true m p = some (write_proof m p)
  respond_if false m p = none

  unfoldable pub prove :
      (coins : List ℕ) (index serial price change blinding : ℕ) (ctx : List ℕ) (seed : ℕ)
      → Option (List ℕ)
  prove coins index serial price change blinding ctx seed =
      let n = length coins in
      let m = trailing_zeros n n in
      if not (is_group n) || leb n index then none else (elim (d_set v coins serial price change) [
        | none ↦ none
        | some d ↦
            let r = v.from_bytes_mod_order blinding in
            respond_if (v.same (get_or d index v.identity) (v.times r (generator_h v))) m (
              respond_all (group_hash v coins) serial price change r ctx
                (with_bits index (draw_nonces m (new_rng seed))) d)
      ])
