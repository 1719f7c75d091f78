-- ===== src/ScanProof/Verifier/OneOfMany/Spend.antt =====
-- `one_of_many::prove` followed by `one_of_many::verify` (scanproof/verifier/src/lib.rs).
use native.Mathlib.Nat.{pow-succ'}
use nulla_relay.Prelude.{
  ℕ, zero, suc, ◌+◌, ◌*◌, ◌%◌, ◌^◌, ◌≤◌, ◌<◌, true, false, some, List, [], ◌∷◌, ◌≡◌, refl, sym, ap,
  ◌∙◌, arith, ◌==◌, leb, ==_iff, length, length-map, get_or, subst,
}
use nulla_relay.ScanProof.Verifier.Ristretto.{Curve, IsCurve, IsRing}
use nulla_relay.ScanProof.Verifier.Rng.{DeterministicRng, new_rng}
use nulla_relay.ScanProof.Verifier.{generator_h}
use nulla_relay.ScanProof.Verifier.Complete.{same_eq}
use nulla_relay.ScanProof.Verifier.Padded.{is_group_power, trailing_zeros_power, lt_two_power}
use nulla_relay.ScanProof.Verifier.OneOfMany.{
  OneOfManyProof, is_group, trailing_zeros, group_hash, d_set,
}
use nulla_relay.ScanProof.Verifier.OneOfMany.Prove.{
  BitNonce, with_bits, draw_nonces, mask_terms, respond_all, write_proof, prove,
}
use nulla_relay.ScanProof.Verifier.OneOfMany.Verify.{verify}
use nulla_relay.ScanProof.Verifier.OneOfMany.Selection.{length-with_bits}
use nulla_relay.ScanProof.Verifier.OneOfMany.Bytes.{
  HasBits, length-write_proof, read_proof-write_proof,
}
use nulla_relay.ScanProof.Verifier.OneOfMany.Accepted.{check_proof-respond_all}

module _ (v : Curve) where
  length-draw_nonces : (m : ℕ) (g : DeterministicRng) → length (draw_nonces v m g) ≡ m
  unfolding draw_nonces
  length-draw_nonces zero g = refl
  length-draw_nonces (suc m) g = ap suc (length-draw_nonces m _)

  length-mask_terms :
      (k : ℕ) (bs : List (BitNonce v)) (ps : List (List v.Scalar)) (d : List v.Point)
      → length (mask_terms v k bs ps d) ≡ length bs
  unfolding mask_terms
  length-mask_terms k [] ps d = refl
  length-mask_terms k (b ∷ bs) ps d = ap suc (length-mask_terms (suc k) bs ps d)

  module _ (h : IsCurve v) (r : IsRing v) where
    respond_all-HasBits :
        (ghash : List ℕ) (serial price change : ℕ) (rr : v.Scalar) (ctx : List ℕ)
        (bs : List (BitNonce v)) (d : List v.Point)
        → HasBits v (length bs) (respond_all v ghash serial price change rr ctx bs d)
    unfolding respond_all
    respond_all-HasBits ghash serial price change rr ctx bs d = record {
      cl_bits = length-map _ bs;
      ca_bits = length-map _ bs;
      cb_bits = length-map _ bs;
      gk_bits = length-mask_terms 0 bs _ d;
      fj_bits = length-map _ bs;
      zaj_bits = length-map _ bs;
      zbj_bits = length-map _ bs;
    }

    starts_with_bits :
        (k : ℕ) (p : OneOfManyProof v)
        → k % 256 ≡ k
        → (get_or (write_proof v k p) 0 256 == k) ≡ true
    unfolding write_proof
    starts_with_bits k p byte = (==_iff (k % 256) k).1 byte

    two_powers : (k : ℕ) → 1 ≤ k → 2 ≤ 2 ^ k
    two_powers zero some_bits = absurd (omega arith)
    two_powers (suc k) some_bits =
        let double = pow-succ' 2 k in let more = lt_two_power k in omega arith

    -- A proof that is made for a multiple of H is accepted.
    pub made_is_accepted :
        (k : ℕ) (coins : List ℕ) (index serial price change blinding : ℕ) (ctx : List ℕ) (seed : ℕ)
        (d : List v.Point)
        → length coins ≡ 2 ^ k
        → 1 ≤ k
        → k < 256
        → index < 2 ^ k
        → d_set v coins serial price change ≡ some d
        → length d ≡ 2 ^ k
        → get_or d index v.identity ≡ v.times (v.from_bytes_mod_order blinding) (generator_h v)
        → (proof : List ℕ) × (prove v coins index serial price change blinding ctx seed
            ≡ some proof)
          × (verify v proof coins serial price change ctx ≡ true)
    unfolding prove verify
    made_is_accepted k coins index serial price change blinding ctx seed d many some_bits few inside
          decoded size coin =
        let rr = v.from_bytes_mod_order blinding in
        let ns = draw_nonces v k (new_rng seed) in
        let bs = with_bits v index ns in
        let ghash = group_hash v coins in
        let p = respond_all v ghash serial price change rr ctx bs d in
        let proof = write_proof v k p in
        let double = two_powers k some_bits in
        let n_is : 2 ≤ length coins = omega arith in
        let group : is_group (length coins) ≡ true =
          subst (λ n. is_group n ≡ true) (sym many) (is_group_power k double) in
        let bits : trailing_zeros (length coins) (length coins) ≡ k =
          subst (λ n. trailing_zeros n n ≡ k) (sym many)
            (trailing_zeros_power (2 ^ k) k (lt_two_power k)) in
        let below : leb (length coins) index ≡ false = ground arith in
        let made = same_eq v h _ _ coin in
        let drawn = length-draw_nonces k (new_rng seed) in
        let counted : length bs ≡ k = length-with_bits v h r index ns ∙ drawn in
        let has : HasBits v k p =
          subst (λ m. HasBits v m p) counted
            (respond_all-HasBits ghash serial price change rr ctx bs d) in
        let byte : k % 256 ≡ k = omega arith in
        let sized =
          (==_iff (length proof) (1 + (7 * k + 1) * 32)).1 (length-write_proof v k p has) in
        let headed : (get_or proof 0 256 == k) ≡ true = starts_with_bits k p byte in
        let back = read_proof-write_proof v h k p has in
        let powers = ap (λ m. 2 ^ m) drawn in
        let checks =
          check_proof-respond_all v h r ghash serial price change ctx rr index ns d (omega arith)
            (omega arith) coin in
        (
          proof,
          rw (group, below, decoded, bits, made) refl,
          rw (group, bits, sized, headed, back, decoded) checks,
        )
