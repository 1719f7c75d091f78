-- ===== src/ScanProof/Verifier/OneOfMany/Masks.antt =====
-- The sum of the membership check of a one-of-many proof (scanproof/verifier/src/lib.rs), with the
-- masked points `G_k`.
use nulla_relay.Prelude.{
  ℕ, suc, ◌+◌, List, [], ◌∷◌, ◌++◌, ◌≡◌, refl, sym, ap, ap₂, ◌∙◌, arith, map, length, length-map,
  map_equal, drop,
}
use nulla_relay.ScanProof.Verifier.Ristretto.{Curve, IsCurve, IsRing}
use nulla_relay.ScanProof.Verifier.{generator_h}
use nulla_relay.ScanProof.Verifier.OneOfMany.Prove.{
  BitNonce, coefficient, mask_terms, take_masks, power,
}
use nulla_relay.ScanProof.Verifier.OneOfMany.Verify.{minus_powers}
use nulla_relay.ScanProof.Verifier.OneOfMany.Bits.{mul_left_comm, plus_left_comm}
use nulla_relay.ScanProof.Verifier.OneOfMany.Polynomials.{eval, eval-drop_next, negate-mul}
use nulla_relay.ScanProof.Verifier.OneOfMany.Selection.{
  identity_plus, multiscalar-append, multiscalar-add, multiscalar-mul,
}

module _ (v : Curve) (h : IsCurve v) (r : IsRing v) where
  module _ (x : v.Scalar) (ps : List (List v.Scalar)) (d : List v.Point)
      (same : length ps ≡ length d) where
    -- The sum of the polynomials from the power `k` on, with `xk = x^k`.
    abbrev pub rest_from : ℕ → v.Scalar → v.Point
    rest_from k xk = v.multiscalar (map (λ p. v.mul xk (eval v x (drop k p))) ps) d

    abbrev pub lower : ℕ → v.Point
    lower k = v.multiscalar (map (coefficient v k) ps) d

    rest_from_next :
        (k : ℕ) (xk : v.Scalar)
        → rest_from k xk ≡ v.plus (v.times xk (lower k)) (rest_from (suc k) (v.mul xk x))
    rest_from_next k xk =
        let each : (p : List v.Scalar)
            → v.mul xk (eval v x (drop k p))
              ≡ v.add (v.mul xk (coefficient v k p))
                  (v.mul (v.mul xk x) (eval v x (drop (suc k) p))) =
          λ p.
            ap (v.mul xk) (eval-drop_next v r x k p)
            ∙ (r.mul-add xk _ _
                ∙ ap (v.add (v.mul xk (coefficient v k p))) (sym (r.mul_assoc xk x _))) in
        ap (λ t. v.multiscalar t d) (map_equal _ _ each ps)
        ∙ (multiscalar-add v h r (λ p. v.mul xk (coefficient v k p))
              (λ p. v.mul (v.mul xk x) (eval v x (drop (suc k) p))) ps d same
            ∙ ap (λ t. v.plus t (rest_from (suc k) (v.mul xk x)))
                (multiscalar-mul v h r xk (coefficient v k) ps d same))

    masked :
        (k : ℕ) (rho : v.Scalar)
        → v.multiscalar (map (coefficient v k) ps ++ rho ∷ []) (d ++ generator_h v ∷ [])
          ≡ v.plus (lower k) (v.times rho (generator_h v))
    masked k rho =
        multiscalar-append v h r (map (coefficient v k) ps) (rho ∷ []) d (generator_h v ∷ [])
          (length-map (coefficient v k) ps ∙ same)
        ∙ ap (v.plus (lower k)) (
            h.multiscalar_cons rho [] (generator_h v) []
            ∙ (ap (v.plus (v.times rho (generator_h v))) h.multiscalar_nil ∙ r.plus_identity _))

    -- A point and its negative.
    cancel :
        (a : v.Scalar) (p : v.Point) → v.plus (v.times a p) (v.times (v.negate a) p) ≡ v.identity
    cancel a p =
        sym (h.times-add a (v.negate a) p)
        ∙ (ap (λ t. v.times t p) (r.add_negate a) ∙ r.times_zero p)

    shuffle :
        (a b rest m others q : v.Point)
        → v.plus a b ≡ v.identity
        → v.plus (v.plus (v.plus a rest) (v.plus (v.plus b m) others)) q
          ≡ v.plus (v.plus rest others) (v.plus q m)
    shuffle a b rest m others q none =
        let sorted : v.plus (v.plus (v.plus a rest) (v.plus (v.plus b m) others)) q
            ≡ v.plus (v.plus a b) (v.plus (v.plus rest others) (v.plus q m)) =
          simp (h.plus_assoc, h.plus_comm, plus_left_comm v h r) refl in
        sorted
        ∙ (ap (λ t. v.plus t (v.plus (v.plus rest others) (v.plus q m))) none
            ∙ identity_plus v h r _)

    -- One mask: what it takes out of the sum.
    take_out :
        (xk rho : v.Scalar) (low rest others q : v.Point)
        → let gh = generator_h v in
          v.plus
            (v.plus
              (v.plus (v.times xk low) rest)
              (v.plus (v.times (v.negate xk) (v.plus low (v.times rho gh))) others))
            q
          ≡ v.plus (v.plus rest others) (v.plus q (v.times (v.negate (v.mul rho xk)) gh))
    take_out xk rho low rest others q =
        let gh = generator_h v in
        let split : v.times (v.negate xk) (v.plus low (v.times rho gh))
            ≡ v.plus (v.times (v.negate xk) low) (v.times (v.negate (v.mul rho xk)) gh) =
          h.times-plus (v.negate xk) low (v.times rho gh)
          ∙ ap (v.plus (v.times (v.negate xk) low)) (
              sym (h.times-mul (v.negate xk) rho gh)
              ∙ ap (λ t. v.times t gh) (negate-mul v r xk rho ∙ ap v.negate (r.mul_comm xk rho))) in
        ap (λ t. v.plus (v.plus (v.plus (v.times xk low) rest) (v.plus t others)) q) split
        ∙ shuffle (v.times xk low) (v.times (v.negate xk) low) rest
            (v.times (v.negate (v.mul rho xk)) gh) others q (cancel xk low)

    -- All masks, from the power `k` on, with a point `q` that the earlier ones have left.
    pub masks :
        (bs : List (BitNonce v)) (k : ℕ) (xk zd : v.Scalar) (q : v.Point)
        → v.plus (rest_from (k + length bs) (v.mul xk (power v (length bs) x))) q
          ≡ v.times zd (generator_h v)
        → let gs = mask_terms v k bs ps d in
          v.plus (v.plus (rest_from k xk) (v.multiscalar (minus_powers v x xk gs) gs)) q
          ≡ v.times (take_masks v x xk zd bs) (generator_h v)
    unfolding power mask_terms minus_powers take_masks
    masks [] k xk zd q end =
        let same_k : k + 0 ≡ k = omega arith in
        ap (λ t. v.plus t q)
          (ap (v.plus (rest_from k xk)) h.multiscalar_nil
            ∙ (r.plus_identity (rest_from k xk) ∙ ap₂ rest_from (sym same_k) (sym (r.mul_one xk))))
        ∙ end
    masks (b ∷ bs) k xk zd q end =
        let gh = generator_h v in
        let gs = mask_terms v (suc k) bs ps d in
        let q' = v.plus q (v.times (v.negate (v.mul b.rho xk)) gh) in
        let next : suc k + length bs ≡ k + suc (length bs) = omega arith in
        let powers : v.mul (v.mul xk x) (power v (length bs) x)
            ≡ v.mul xk (v.mul (power v (length bs) x) x) =
          simp (r.mul_assoc, r.mul_comm, mul_left_comm v r) refl in
        let end' : v.plus
              (rest_from (suc k + length bs) (v.mul (v.mul xk x) (power v (length bs) x))) q'
            ≡ v.times (v.sub zd (v.mul b.rho xk)) gh =
          ap (λ t. v.plus t q') (ap₂ rest_from next powers)
          ∙ (sym (h.plus_assoc _ q _)
              ∙ (ap (λ t. v.plus t (v.times (v.negate (v.mul b.rho xk)) gh)) end
                  ∙ (sym (h.times-add zd _ gh)
                      ∙ ap (λ t. v.times t gh) (sym (r.sub_as_add zd (v.mul b.rho xk)))))) in
        ap (λ t. v.plus t q)
          (ap₂ v.plus (rest_from_next k xk) (
            h.multiscalar_cons (v.negate xk) _ _ gs
            ∙ ap
                (λ t.
                  v.plus (v.times (v.negate xk) t)
                    (v.multiscalar (minus_powers v x (v.mul xk x) gs) gs))
                (masked k b.rho)))
        ∙ (take_out xk b.rho (lower k) (rest_from (suc k) (v.mul xk x))
              (v.multiscalar (minus_powers v x (v.mul xk x) gs) gs) q
            ∙ masks bs (suc k) (v.mul xk x) (v.sub zd (v.mul b.rho xk)) q' end')
