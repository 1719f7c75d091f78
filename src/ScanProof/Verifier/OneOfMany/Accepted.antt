-- ===== src/ScanProof/Verifier/OneOfMany/Accepted.antt =====
-- The checks of `one_of_many::verify` on what `one_of_many::prove` computes
-- (scanproof/verifier/src/lib.rs).
use nulla_relay.Prelude.{
  ℕ, suc, ◌+◌, ◌^◌, ◌<◌, true, List, [], ◌∷◌, ◌++◌, ◌≡◌, refl, sym, ap, ◌∙◌, arith, map, length,
  length-map, map_equal, drop, get_or, subst,
}
use nulla_relay.ScanProof.Verifier.Ristretto.{Curve, IsCurve, IsRing}
use nulla_relay.ScanProof.Verifier.{generator_h}
use nulla_relay.ScanProof.Verifier.Complete.{same_eq}
use nulla_relay.ScanProof.Verifier.OneOfMany.{fs_challenge}
use nulla_relay.ScanProof.Verifier.OneOfMany.Prove.{
  BitNonce, Nonce, with_bits, coefficients, range, respond, respond_all, commit_bit, commit_nonce,
  commit_product, take_masks, power, mask_terms,
}
use nulla_relay.ScanProof.Verifier.OneOfMany.Verify.{check_proof, expand, minus_powers}
use nulla_relay.ScanProof.Verifier.OneOfMany.Bits.{bit_checks-with_bits}
use nulla_relay.ScanProof.Verifier.OneOfMany.Doubling.{spread, follow, spread-follow, length-spread}
use nulla_relay.ScanProof.Verifier.OneOfMany.Polynomials.{
  poly_step, coefficients-follow, eval, values, tops, HaveLength, also, none, spread-HaveLength,
  map-eval-drop,
}
use nulla_relay.ScanProof.Verifier.OneOfMany.Selection.{
  select, length-with_bits, multiscalar-append, multiscalar-mul,
}
use nulla_relay.ScanProof.Verifier.OneOfMany.Masks.{masks}

module _ (v : Curve) (h : IsCurve v) (r : IsRing v) where
  -- The polynomials that `prove` computes are the table of all of them.
  polynomials :
      (bs : List (BitNonce v)) (n : ℕ)
      → n ≡ 2 ^ length bs
      → map (λ i. coefficients v bs i (v.one_scalar ∷ [])) (range 0 n)
        ≡ spread (poly_step v) bs ((v.one_scalar ∷ []) ∷ [])
  polynomials bs n size =
      map_equal _ _ (λ i. coefficients-follow v bs i (v.one_scalar ∷ [])) (range 0 n)
      ∙ (ap (λ k. map (λ i. follow (poly_step v) bs i (v.one_scalar ∷ [])) (range 0 k)) size
          ∙ sym (spread-follow (poly_step v) bs (v.one_scalar ∷ [])))

  table_length :
      (bs : List (BitNonce v)) (d : List v.Point)
      → length d ≡ 2 ^ length bs
      → length (spread (poly_step v) bs ((v.one_scalar ∷ []) ∷ [])) ≡ length d
  table_length bs d size =
      let whole = length-spread (poly_step v) bs ((v.one_scalar ∷ []) ∷ []) in omega arith

  -- What is left of the sum when the masks are taken out: the coin of the index.
  leading :
      (x rr : v.Scalar) (index : ℕ) (ns : List (Nonce v)) (d : List v.Point)
      → length d ≡ 2 ^ length ns
      → index < 2 ^ length ns
      → get_or d index v.identity ≡ v.times rr (generator_h v)
      → let bs = with_bits v index ns in
        let ps = spread (poly_step v) bs ((v.one_scalar ∷ []) ∷ []) in
        let m = length bs in
        v.multiscalar
          (map (λ p. v.mul (v.mul v.one_scalar (power v m x)) (eval v x (drop (0 + m) p))) ps)
          d
        ≡ v.times (v.mul rr (power v m x)) (generator_h v)
  leading x rr index ns d size inside coin =
      let bs = with_bits v index ns in
      let ps = spread (poly_step v) bs ((v.one_scalar ∷ []) ∷ []) in
      let m = length bs in
      let xm = v.mul v.one_scalar (power v m x) in
      let start : 0 + m ≡ m = omega arith in
      let bits = ap (λ k. 2 ^ k) (length-with_bits v h r index ns) in
      let degree : 1 + m ≡ suc m = omega arith in
      let lengths =
        subst (λ k. HaveLength v k ps) degree
          (spread-HaveLength v 1 bs ((v.one_scalar ∷ []) ∷ []) (also refl none)) in
      let square : v.mul xm rr ≡ v.mul rr (power v m x) =
        ap (λ t. v.mul t rr) (r.mul_comm v.one_scalar (power v m x) ∙ r.mul_one (power v m x))
        ∙ r.mul_comm (power v m x) rr in
      ap (λ k. v.multiscalar (map (λ p. v.mul xm (eval v x (drop k p))) ps) d) start
      ∙ (multiscalar-mul v h r xm (λ p. eval v x (drop m p)) ps d (table_length bs d (omega arith))
          ∙ (ap (v.times xm) (
                ap (λ t. v.multiscalar t d) (map-eval-drop v r x m ps lengths ∙ tops v r bs)
                ∙ (select v h r ns index v.one_scalar d inside size ∙ (r.times_one _ ∙ coin)))
              ∙ (sym (h.times-mul xm rr (generator_h v))
                  ∙ ap (λ t. v.times t (generator_h v)) square)))

  membership :
      (x rr : v.Scalar) (index : ℕ) (ns : List (Nonce v)) (d : List v.Point)
      → length d ≡ 2 ^ length ns
      → index < 2 ^ length ns
      → get_or d index v.identity ≡ v.times rr (generator_h v)
      → let bs = with_bits v index ns in
        let ps = map (λ i. coefficients v bs i (v.one_scalar ∷ [])) (range 0 (length d)) in
        let gk = mask_terms v 0 bs ps d in
        v.multiscalar
          (expand v x (map (respond v x) bs) (v.one_scalar ∷ [])
            ++ minus_powers v x v.one_scalar gk)
          (d ++ gk)
        ≡ v.times
            (take_masks v x v.one_scalar (v.mul rr (power v (length bs) x)) bs)
            (generator_h v)
  membership x rr index ns d size inside coin =
      let bs = with_bits v index ns in
      let ps = spread (poly_step v) bs ((v.one_scalar ∷ []) ∷ []) in
      let gk = mask_terms v 0 bs ps d in
      let minus = minus_powers v x v.one_scalar gk in
      let bits = ap (λ k. 2 ^ k) (length-with_bits v h r index ns) in
      let full : length d ≡ 2 ^ length bs = omega arith in
      let table = table_length bs d full in
      let whole : (p : List v.Scalar) → eval v x p ≡ v.mul v.one_scalar (eval v x (drop 0 p)) =
        λ p. sym (r.mul_comm v.one_scalar (eval v x p) ∙ r.mul_one (eval v x p)) in
      ap
        (λ qs.
          v.multiscalar
            (expand v x (map (respond v x) bs) (v.one_scalar ∷ [])
              ++ minus_powers v x v.one_scalar (mask_terms v 0 bs qs d))
            (d ++ mask_terms v 0 bs qs d))
        (polynomials bs (length d) full)
      ∙ (ap (λ t. v.multiscalar (t ++ minus) (d ++ gk)) (values v r x bs)
          ∙ (multiscalar-append v h r (map (eval v x) ps) minus d gk
                (length-map (eval v x) ps ∙ table)
              ∙ (ap (λ t. v.plus (v.multiscalar t d) (v.multiscalar minus gk))
                    (map_equal _ _ whole ps)
                  ∙ (sym (r.plus_identity _)
                      ∙ masks v h r x ps d table bs 0 v.one_scalar
                          (v.mul rr (power v (length bs) x)) v.identity
                          (r.plus_identity _ ∙ leading x rr index ns d size inside coin)))))

  -- The verifier's checks hold for the commitments and responses of the wallet.
  pub check_proof-respond_all :
      (ghash : List ℕ) (serial price change : ℕ) (ctx : List ℕ) (rr : v.Scalar) (index : ℕ)
      (ns : List (Nonce v)) (d : List v.Point)
      → length d ≡ 2 ^ length ns
      → index < 2 ^ length ns
      → get_or d index v.identity ≡ v.times rr (generator_h v)
      → check_proof v ghash serial price change ctx d
          (respond_all v ghash serial price change rr ctx (with_bits v index ns) d)
        ≡ true
  unfolding check_proof respond_all
  check_proof-respond_all ghash serial price change ctx rr index ns d size inside coin =
      let bs = with_bits v index ns in
      let ps = map (λ i. coefficients v bs i (v.one_scalar ∷ [])) (range 0 (length d)) in
      let x =
        fs_challenge v ghash serial price change ctx (map (commit_bit v) bs)
          (map (commit_nonce v) bs) (map (commit_product v) bs) (mask_terms v 0 bs ps d) in
      rw (bit_checks-with_bits v h r x index ns)
        (same_eq v h _ _ (membership x rr index ns d size inside coin))
