-- ===== src/ScanProof/Verifier/OneOfMany/Bits.antt =====
-- The per-bit checks of `one_of_many::verify` against the commitments and responses of
-- `one_of_many::prove` (scanproof/verifier/src/lib.rs).
use nulla_relay.Prelude.{
  ℕ, ◌≡◌, refl, sym, ap, ap₂, ◌∙◌, ◌⊎◌, inl, inr, ◌%◌, ◌/◌, arith, true, List, [], ◌∷◌, map, ◌==◌,
  by_true,
}
use nulla_relay.ScanProof.Verifier.Ristretto.{Curve, IsCurve, IsRing}
use nulla_relay.ScanProof.Verifier.{generator_h}
use nulla_relay.ScanProof.Verifier.Complete.{same_eq}
use nulla_relay.ScanProof.Verifier.OneOfMany.Prove.{
  Nonce, BitNonce, with_bits, commit_bit, commit_nonce, commit_product, respond, respond_nonce,
  respond_product,
}
use nulla_relay.ScanProof.Verifier.OneOfMany.Verify.{bit_check, bit_checks}

module _ (v : Curve) (r : IsRing v) where
  pub add_left_comm : (a b c : v.Scalar) → v.add a (v.add b c) ≡ v.add b (v.add a c)
  add_left_comm a b c =
      sym (r.add_assoc a b c) ∙ (ap (λ t. v.add t c) (r.add_comm a b) ∙ r.add_assoc b a c)

  pub mul_left_comm : (a b c : v.Scalar) → v.mul a (v.mul b c) ≡ v.mul b (v.mul a c)
  mul_left_comm a b c =
      sym (r.mul_assoc a b c) ∙ (ap (λ t. v.mul t c) (r.mul_comm a b) ∙ r.mul_assoc b a c)

  pub add-mul : (a b c : v.Scalar) → v.mul (v.add a b) c ≡ v.add (v.mul a c) (v.mul b c)
  add-mul a b c =
      r.mul_comm (v.add a b) c ∙ (r.mul-add c a b ∙ ap₂ v.add (r.mul_comm c a) (r.mul_comm c b))

module _ (v : Curve) (h : IsCurve v) (r : IsRing v) where
  pub plus_left_comm : (p q s : v.Point) → v.plus p (v.plus q s) ≡ v.plus q (v.plus p s)
  plus_left_comm p q s =
      sym (h.plus_assoc p q s) ∙ (ap (λ t. v.plus t s) (h.plus_comm p q) ∙ h.plus_assoc q p s)

  pub times-times : (a b : v.Scalar) (p : v.Point) → v.times a (v.times b p) ≡ v.times (v.mul a b) p
  times-times a b p = sym (h.times-mul a b p)

  -- `x·(l·G + k·H) + (a·G + s·H)`
  first_check :
      (x l k a s : v.Scalar) (g gh : v.Point)
      → v.plus
          (v.times x (v.plus (v.times l g) (v.times k gh)))
          (v.plus (v.times a g) (v.times s gh))
        ≡ v.plus (v.times (v.add (v.mul l x) a) g) (v.times (v.add (v.mul k x) s) gh)
  first_check x l k a s g gh = simp (
    h.times-plus, times-times, h.times-add, h.plus_assoc, h.plus_comm, plus_left_comm, r.mul_comm,
  )

  vanishes :
      (x l a : v.Scalar)
      → (l ≡ v.zero_scalar) ⊎ (l ≡ v.one_scalar)
      → v.add (v.mul (v.sub x (v.add (v.mul l x) a)) l) (v.mul l a) ≡ v.zero_scalar
  vanishes x l a (inl none) = rw none (
      ap₂ v.add (r.mul_zero _) (r.mul_comm v.zero_scalar a ∙ r.mul_zero a)
      ∙ r.add_zero v.zero_scalar)
  vanishes x l a (inr one) = rw one (
      simp (r.mul_one, r.mul_comm, r.sub_as_add, r.add_comm, add_left_comm v r)
        (sym (r.add_assoc x a _) ∙ r.add_negate (v.add x a)))

  -- `w·(l·G + k·H) + (l·a·G + t·H)` where the part of G vanishes.
  second_check :
      (w l k a t : v.Scalar) (g gh : v.Point)
      → v.add (v.mul w l) (v.mul l a) ≡ v.zero_scalar
      → v.plus
          (v.times w (v.plus (v.times l g) (v.times k gh)))
          (v.plus (v.times (v.mul l a) g) (v.times t gh))
        ≡ v.times (v.add (v.mul k w) t) gh
  second_check w l k a t g gh none =
      let both : v.plus (v.times w (v.plus (v.times l g) (v.times k gh)))
            (v.plus (v.times (v.mul l a) g) (v.times t gh))
          ≡ v.plus (v.times (v.add (v.mul w l) (v.mul l a)) g) (v.times (v.add (v.mul k w) t) gh) =
        simp (
          h.times-plus, times-times, h.times-add, h.plus_assoc, h.plus_comm, plus_left_comm,
          r.mul_comm,
        ) in
      both
      ∙ (ap (λ c. v.plus (v.times c g) (v.times (v.add (v.mul k w) t) gh)) none
          ∙ (ap (λ p. v.plus p (v.times (v.add (v.mul k w) t) gh)) (r.times_zero g)
              ∙ (h.plus_comm v.identity _ ∙ r.plus_identity _)))

  bit_scalar :
      (index : ℕ) → (v.of_u64 (index % 2) ≡ v.zero_scalar) ⊎ (v.of_u64 (index % 2) ≡ v.one_scalar)
  bit_scalar index =
      by_true (index % 2 == 0)
        (λ odd. let one : index % 2 ≡ 1 = ground arith in inr (ap v.of_u64 one ∙ r.of_u64_one))
        λ even. let none : index % 2 ≡ 0 = ground arith in inl (ap v.of_u64 none ∙ r.of_u64_zero)

  bit_check-respond :
      (x : v.Scalar) (b : BitNonce v)
      → (v.of_u64 b.bit ≡ v.zero_scalar) ⊎ (v.of_u64 b.bit ≡ v.one_scalar)
      → bit_check v x
          (commit_bit v b)
          (commit_nonce v b)
          (commit_product v b)
          (respond v x b)
          (respond_nonce v x b)
          (respond_product v x b)
        ≡ true
  bit_check-respond x b bit =
      let l = v.of_u64 b.bit in
      let w = v.sub x (respond v x b) in
      let first = same_eq v h _ _ (first_check x l b.r b.a b.s v.basepoint (generator_h v)) in
      let second =
        same_eq v h _ _
          (second_check w l b.r b.a b.t v.basepoint (generator_h v) (vanishes x l b.a bit)) in
      rw first second

  -- Every check on a bit holds for the bits of an index.
  pub bit_checks-with_bits :
      (x : v.Scalar) (index : ℕ) (ns : List (Nonce v))
      → let bs = with_bits v index ns in
        bit_checks v x
          (map (commit_bit v) bs)
          (map (commit_nonce v) bs)
          (map (commit_product v) bs)
          (map (respond v x) bs)
          (map (respond_nonce v x) bs)
          (map (respond_product v x) bs)
        ≡ true
  unfolding bit_checks
  bit_checks-with_bits x index [] = refl
  bit_checks-with_bits x index (n ∷ ns) =
      let here = bit_check-respond x (record { bit = index % 2; nonce = n }) (bit_scalar index) in
      rw here (bit_checks-with_bits x (index / 2) ns)
