-- ===== src/ScanProof/Verifier/Complete.antt =====
-- The openings of ScanProof's verifier (scanproof/verifier/src/lib.rs): the wallet's proofs against the
-- chain's checks, and the difference of two commitments.
use nulla_relay.Prelude.{ℕ, ◌+◌, true, some, List, ◌++◌, ◌≡◌, refl, sym, ap, ap₂, ◌∙◌, ◌==◌, length}
use nulla_relay.ScanProof.Verifier.Ristretto.{Curve, IsCurve}
use nulla_relay.ScanProof.Verifier.Rng.{new_rng, scalar_from_rng}
use nulla_relay.ScanProof.Verifier.{
  bytes_at, generator_h, generator_g1, point_bytes, scalar_bytes, coin_commit, pedersen_commit,
  blinding_sub, pedersen_subtract, verify_commitment,
}
use nulla_relay.ScanProof.Verifier.Fields.{
  bytes_at_first, bytes_at_last, bytes_at_second, bytes_at_third, two_fields, three_fields,
}
use nulla_relay.ScanProof.Verifier.Openings.{
  deposit_challenge, verify_deposit_open, prove_deposit_open, conversion_challenge, verify_g1_pok,
  prove_g1_pok,
}

module _ (v : Curve) (h : IsCurve v) where
  pub swap_middle :
      (p q r s : v.Point) → v.plus (v.plus p q) (v.plus r s) ≡ v.plus (v.plus p r) (v.plus q s)
  swap_middle p q r s =
      h.plus_assoc p q (v.plus r s)
      ∙ (ap (v.plus p) (
            sym (h.plus_assoc q r s)
            ∙ (ap (λ t. v.plus t s) (h.plus_comm q r) ∙ h.plus_assoc r q s))
          ∙ sym (h.plus_assoc p r (v.plus q s)))

  -- The middle of three points taken away.
  minus_middle : (p q r : v.Point) → v.minus (v.plus (v.plus p q) r) q ≡ v.plus p r
  minus_middle p q r =
      ap (λ t. v.minus t q)
        (h.plus_assoc p q r ∙ (ap (v.plus p) (h.plus_comm q r) ∙ sym (h.plus_assoc p r q)))
      ∙ h.minus-plus (v.plus p r) q

  -- A response `k + c·w` on a generator.
  response :
      (k w c : v.Scalar) (g : v.Point)
      → v.times (v.add k (v.mul c w)) g ≡ v.plus (v.times k g) (v.times c (v.times w g))
  response k w c g = h.times-add k (v.mul c w) g ∙ ap (v.plus (v.times k g)) (h.times-mul c w g)

  -- The responses on two generators.
  two_responses :
      (k k' w w' c : v.Scalar) (g g' : v.Point)
      → v.plus (v.times (v.add k (v.mul c w)) g) (v.times (v.add k' (v.mul c w')) g')
        ≡ v.plus
            (v.plus (v.times k g) (v.times k' g'))
            (v.times c (v.plus (v.times w g) (v.times w' g')))
  two_responses k k' w w' c g g' =
      ap₂ v.plus (response k w c g) (response k' w' c g')
      ∙ (swap_middle (v.times k g) (v.times c (v.times w g)) (v.times k' g')
            (v.times c (v.times w' g'))
          ∙ ap (v.plus (v.plus (v.times k g) (v.times k' g')))
              (sym (h.times-plus c (v.times w g) (v.times w' g'))))

  -- Points that are equal compare as equal.
  pub same_eq : (p q : v.Point) → p ≡ q → v.same p q ≡ true
  same_eq p q e = ap (v.same p) (sym e) ∙ h.same_refl p

  deposit_checks :
      (coin amount : ℕ) (proof ctx : List ℕ) (c_pt r_pt : v.Point) (zs zr : v.Scalar)
      → (length proof == 96) ≡ true
      → v.decompress coin ≡ some c_pt
      → v.decompress (bytes_at 0 proof) ≡ some r_pt
      → v.from_canonical_bytes (bytes_at 32 proof) ≡ some zs
      → v.from_canonical_bytes (bytes_at 64 proof) ≡ some zr
      → let a_pt = v.minus c_pt (v.times (v.of_u64 amount) v.basepoint) in
        v.plus (v.times zs (generator_g1 v)) (v.times zr (generator_h v))
          ≡ v.plus r_pt (v.times (deposit_challenge v coin amount ctx r_pt a_pt) a_pt)
        → verify_deposit_open v coin amount proof ctx ≡ true
  unfolding verify_deposit_open
  deposit_checks coin amount proof ctx c_pt r_pt zs zr sized point first second third equation =
      rw (sized, point, first, second, third) (same_eq _ _ equation)

  -- The wallet's proof of a deposited coin is accepted: for the coin of a serial, an amount and a
  -- blinding, it exists and verifies for that amount and the same context.
  pub deposit_opening_verifies :
      (serial amount blinding : ℕ) (ctx : List ℕ) (seed : ℕ)
      → let coin = coin_commit v serial amount blinding in
        (proof : List ℕ) × (prove_deposit_open v coin amount serial blinding ctx seed ≡ some proof)
        × (verify_deposit_open v coin amount proof ctx ≡ true)
  unfolding coin_commit prove_deposit_open
  deposit_opening_verifies serial amount blinding ctx seed =
      let s = v.from_bytes_mod_order serial in
      let r = v.from_bytes_mod_order blinding in
      let g1 = generator_g1 v in
      let gh = generator_h v in
      let value = v.times (v.of_u64 amount) v.basepoint in
      let c_pt = v.plus (v.plus (v.times s g1) value) (v.times r gh) in
      let a_pt = v.minus c_pt value in
      let (ks, rng) = scalar_from_rng v (new_rng seed) in
      let kr = (scalar_from_rng v rng).0 in
      let r_pt = v.plus (v.times ks g1) (v.times kr gh) in
      let c = deposit_challenge v (v.compress c_pt) amount ctx r_pt a_pt in
      let zs = v.add ks (v.mul c s) in
      let zr = v.add kr (v.mul c r) in
      let opened : a_pt ≡ v.plus (v.times s g1) (v.times r gh) =
        minus_middle (v.times s g1) value (v.times r gh) in
      let equation =
        two_responses ks kr s r c g1 gh ∙ ap (λ t. v.plus r_pt (v.times c t)) (sym opened) in
      let proof = point_bytes v r_pt ++ (scalar_bytes v zs ++ scalar_bytes v zr) in
      (
        proof,
        rw (h.decompress-compress c_pt, prove_deposit_open) refl,
        deposit_checks (v.compress c_pt) amount proof ctx c_pt r_pt zs zr
            (three_fields (v.compress r_pt) (v.to_bytes zs) (v.to_bytes zr))
            (h.decompress-compress c_pt)
            (ap v.decompress (
                bytes_at_first (v.compress r_pt) 0 0 (scalar_bytes v zs ++ scalar_bytes v zr)
                  (h.compress-lt r_pt))
              ∙ h.decompress-compress r_pt)
            (ap v.from_canonical_bytes (
                bytes_at_second (v.compress r_pt) (v.to_bytes zs) 0 (scalar_bytes v zr)
                  (h.to_bytes-lt zs))
              ∙ h.from_canonical_bytes-to_bytes zs)
            (ap v.from_canonical_bytes (
                bytes_at_third (v.compress r_pt) (v.to_bytes zs) (v.to_bytes zr) (h.to_bytes-lt zr))
              ∙ h.from_canonical_bytes-to_bytes zr)
            equation,
      )

  conversion_checks :
      (new_coin change : ℕ) (proof ctx : List ℕ) (nc ch r_pt : v.Point) (z : v.Scalar)
      → (length proof == 64) ≡ true
      → v.decompress new_coin ≡ some nc
      → v.decompress change ≡ some ch
      → v.decompress (bytes_at 0 proof) ≡ some r_pt
      → v.from_canonical_bytes (bytes_at 32 proof) ≡ some z
      → v.times z (generator_g1 v)
        ≡ v.plus r_pt (
            v.times
              (conversion_challenge v new_coin change ctx r_pt (v.minus nc ch))
              (v.minus nc ch))
      → verify_g1_pok v new_coin change proof ctx ≡ true
  unfolding verify_g1_pok
  conversion_checks new_coin change proof ctx nc ch r_pt z sized coin plain first second equation =
      rw (sized, coin, plain, first, second) (same_eq _ _ equation)

  -- The wallet's proof that a new coin holds the change is accepted: for the change output of a value
  -- and a blinding and the coin of a serial with the same two, it exists and verifies in the same
  -- context.
  pub change_conversion_verifies :
      (serial value blinding : ℕ) (ctx : List ℕ) (seed : ℕ)
      → let new_coin = coin_commit v serial value blinding in
        let change = pedersen_commit v value blinding in
        (proof : List ℕ) × (prove_g1_pok v new_coin change serial ctx seed ≡ some proof)
        × (verify_g1_pok v new_coin change proof ctx ≡ true)
  unfolding coin_commit pedersen_commit prove_g1_pok
  change_conversion_verifies serial value blinding ctx seed =
      let s = v.from_bytes_mod_order serial in
      let g1 = generator_g1 v in
      let amount = v.times (v.of_u64 value) v.basepoint in
      let blind = v.times (v.from_bytes_mod_order blinding) (generator_h v) in
      let ch = v.plus amount blind in
      let nc = v.plus (v.plus (v.times s g1) amount) blind in
      let k = (scalar_from_rng v (new_rng seed)).0 in
      let r_pt = v.times k g1 in
      let c = conversion_challenge v (v.compress nc) (v.compress ch) ctx r_pt (v.minus nc ch) in
      let z = v.add k (v.mul c s) in
      let opened : v.minus nc ch ≡ v.times s g1 =
        ap (λ t. v.minus t ch) (h.plus_assoc (v.times s g1) amount blind)
        ∙ h.minus-plus (v.times s g1) ch in
      let equation = response k s c g1 ∙ ap (λ t. v.plus r_pt (v.times c t)) (sym opened) in
      let proof = point_bytes v r_pt ++ scalar_bytes v z in
      (
        proof,
        rw (h.decompress-compress nc, h.decompress-compress ch, prove_g1_pok) refl,
        conversion_checks (v.compress nc) (v.compress ch) proof ctx nc ch r_pt z
            (two_fields (v.compress r_pt) (v.to_bytes z)) (h.decompress-compress nc)
            (h.decompress-compress ch)
            (ap v.decompress
                (bytes_at_first (v.compress r_pt) 0 0 (scalar_bytes v z) (h.compress-lt r_pt))
              ∙ h.decompress-compress r_pt)
            (ap v.from_canonical_bytes
                (bytes_at_last (v.compress r_pt) (v.to_bytes z) 0 (h.to_bytes-lt z))
              ∙ h.from_canonical_bytes-to_bytes z)
            equation,
      )

  -- A commitment to the price and a change, less a commitment to the change, opens to the price under
  -- the difference of the blindings.
  pub difference_opens :
      (price change r r_prime : ℕ)
      → (k : ℕ) × (pedersen_subtract v
            (pedersen_commit v (price + change) r)
            (pedersen_commit v change r_prime)
          ≡ some k)
        × (verify_commitment v price (blinding_sub v r r_prime) k ≡ true)
  unfolding pedersen_commit pedersen_subtract blinding_sub verify_commitment
  difference_opens price change r r_prime =
      let a = v.from_bytes_mod_order r in
      let b = v.from_bytes_mod_order r_prime in
      let gh = generator_h v in
      let paid = v.times (v.of_u64 price) v.basepoint in
      let kept = v.times (v.of_u64 change) v.basepoint in
      let pa = v.plus (v.times (v.of_u64 (price + change)) v.basepoint) (v.times a gh) in
      let pb = v.plus kept (v.times b gh) in
      let left = v.plus paid (v.times (v.sub a b) gh) in
      let values =
        ap (λ t. v.times t v.basepoint) (h.of_u64-add price change)
        ∙ h.times-add (v.of_u64 price) (v.of_u64 change) v.basepoint in
      let blinds = ap (λ t. v.times t gh) (sym (h.add-sub a b)) ∙ h.times-add (v.sub a b) b gh in
      let split : pa ≡ v.plus left pb =
        ap₂ v.plus values blinds ∙ swap_middle paid kept (v.times (v.sub a b) gh) (v.times b gh) in
      let opened : v.minus pa pb ≡ left = ap (λ t. v.minus t pb) split ∙ h.minus-plus left pb in
      (
        v.compress (v.minus pa pb),
        rw (h.decompress-compress pa, h.decompress-compress pb, pedersen_subtract) refl,
        rw
            (
              h.decompress-compress (v.minus pa pb),
              verify_commitment,
              h.from_bytes_mod_order-to_bytes (v.sub a b),
            )
            (same_eq left (v.minus pa pb) (sym opened)),
      )
