-- ===== src/ScanProof/Verifier/OneOfMany/Polynomials.antt =====
-- The polynomials of the coins of a group (scanproof/verifier/src/lib.rs, `one_of_many::prove`): their
-- values and their leading coefficients.
use nulla_relay.Prelude.{
  ℕ, zero, suc, ◌+◌, ◌/◌, ◌%◌, Bool, true, false, List, [], ◌∷◌, ◌++◌, ◌≡◌, refl, sym, ap, ap₂, ◌∙◌,
  arith, map, ◌==◌, if◌then◌else◌, length, drop, subst, get_or,
}
use nulla_relay.ScanProof.Verifier.Ristretto.{Curve, IsRing}
use nulla_relay.ScanProof.Verifier.OneOfMany.Prove.{BitNonce, times_linear, coefficients, respond}
use nulla_relay.ScanProof.Verifier.OneOfMany.Verify.{expand}
use nulla_relay.ScanProof.Verifier.OneOfMany.Doubling.{spread, follow, map-spread}
use nulla_relay.ScanProof.Verifier.OneOfMany.Bits.{add_left_comm, mul_left_comm, add-mul}

module _ (v : Curve) where
  abbrev pub poly_step : BitNonce v → Bool → List v.Scalar → List v.Scalar
  poly_step b e c =
      times_linear v (if e then v.of_u64 b.bit else v.sub v.one_scalar (v.of_u64 b.bit))
        (if e then b.a else v.negate b.a) v.zero_scalar c

  pub coefficients-follow :
      (bs : List (BitNonce v)) (i : ℕ) (c : List v.Scalar)
      → coefficients v bs i c ≡ follow poly_step bs i c
  unfolding coefficients
  coefficients-follow [] i c = refl
  coefficients-follow (b ∷ bs) i c = coefficients-follow bs (i / 2) (poly_step b (i % 2 == 1) c)

  -- The value of a polynomial, and its leading coefficient.
  abbrev pub eval : v.Scalar → List v.Scalar → v.Scalar
  eval x [] = v.zero_scalar
  eval x (k ∷ ks) = v.add k (v.mul x (eval x ks))

  abbrev pub top : List v.Scalar → v.Scalar
  top [] = v.zero_scalar
  top (k ∷ []) = k
  top (k ∷ k' ∷ ks) = top (k' ∷ ks)

  abbrev pub exp_step : v.Scalar → BitNonce v → Bool → v.Scalar → v.Scalar
  exp_step x b e t = v.mul t (if e then respond v x b else v.sub x (respond v x b))

  abbrev pub top_step : BitNonce v → Bool → v.Scalar → v.Scalar
  top_step b e t = v.mul t (if e then v.of_u64 b.bit else v.sub v.one_scalar (v.of_u64 b.bit))

  pub expand-spread :
      (x : v.Scalar) (bs : List (BitNonce v)) (exps : List v.Scalar)
      → expand v x (map (respond v x) bs) exps ≡ spread (exp_step x) bs exps
  unfolding expand
  expand-spread x [] exps = refl
  expand-spread x (b ∷ bs) exps =
      expand-spread x bs (map (exp_step x b false) exps ++ map (exp_step x b true) exps)

  length-times_linear :
      (c1 c0 carry : v.Scalar) (c : List v.Scalar)
      → length (times_linear v c1 c0 carry c) ≡ suc (length c)
  unfolding times_linear
  length-times_linear c1 c0 carry [] = refl
  length-times_linear c1 c0 carry (k ∷ ks) = ap suc (length-times_linear c1 c0 (v.mul k c1) ks)

  pub data HaveLength (n : ℕ) : List (List v.Scalar) → Type 0 where
    none : HaveLength n []
    also :
        {p : List v.Scalar} {ps : List (List v.Scalar)}
        → length p ≡ n
        → HaveLength n ps
        → HaveLength n (p ∷ ps)

  append-HaveLength :
      (n : ℕ) (ps qs : List (List v.Scalar))
      → HaveLength n ps
      → HaveLength n qs
      → HaveLength n (ps ++ qs)
  append-HaveLength n [] qs left right = right
  append-HaveLength n (p ∷ ps) qs (also here rest) right =
      also here (append-HaveLength n ps qs rest right)

  step-HaveLength :
      (n : ℕ) (b : BitNonce v) (e : Bool) (ps : List (List v.Scalar))
      → HaveLength n ps
      → HaveLength (suc n) (map (poly_step b e) ps)
  step-HaveLength n b e [] each = none
  step-HaveLength n b e (p ∷ ps) (also here rest) =
      also (length-times_linear _ _ _ p ∙ ap suc here) (step-HaveLength n b e ps rest)

  pub spread-HaveLength :
      (n : ℕ) (bs : List (BitNonce v)) (ps : List (List v.Scalar))
      → HaveLength n ps
      → HaveLength (n + length bs) (spread poly_step bs ps)
  spread-HaveLength n [] ps each =
      let same : n ≡ n + 0 = omega arith in subst (λ k. HaveLength k ps) same each
  spread-HaveLength n (b ∷ bs) ps each =
      let next : suc n + length bs ≡ n + suc (length bs) = omega arith in
      subst (λ k. HaveLength k (spread poly_step (b ∷ bs) ps)) next
        (spread-HaveLength (suc n) bs _ (
          append-HaveLength (suc n) _ _ (step-HaveLength n b false ps each)
            (step-HaveLength n b true ps each)))

  module _ (r : IsRing v) where
    zero_mul : (a : v.Scalar) → v.mul v.zero_scalar a ≡ v.zero_scalar
    zero_mul a = r.mul_comm v.zero_scalar a ∙ r.mul_zero a

    pub zero_add : (a : v.Scalar) → v.add v.zero_scalar a ≡ a
    zero_add a = r.add_comm v.zero_scalar a ∙ r.add_zero a

    -- The negative of a scalar is the only one that cancels it.
    pub negate_unique : (a b : v.Scalar) → v.add a b ≡ v.zero_scalar → b ≡ v.negate a
    negate_unique a b cancels =
        sym (r.add_zero b)
        ∙ (ap (v.add b) (sym (r.add_negate a))
            ∙ (sym (r.add_assoc b a (v.negate a))
                ∙ (ap (λ t. v.add t (v.negate a)) (r.add_comm b a ∙ cancels)
                    ∙ zero_add (v.negate a))))

    pub negate-add : (a b : v.Scalar) → v.negate (v.add a b) ≡ v.add (v.negate a) (v.negate b)
    negate-add a b = sym (
        negate_unique (v.add a b) (v.add (v.negate a) (v.negate b)) (
          r.add_assoc a b _
          ∙ (ap (v.add a) (
                add_left_comm v r b (v.negate a) (v.negate b)
                ∙ (ap (v.add (v.negate a)) (r.add_negate b) ∙ r.add_zero (v.negate a)))
              ∙ r.add_negate a)))

    pub negate-mul : (a b : v.Scalar) → v.mul (v.negate a) b ≡ v.negate (v.mul a b)
    negate-mul a b =
        negate_unique (v.mul a b) (v.mul (v.negate a) b)
          (sym (add-mul v r a (v.negate a) b) ∙ (ap (λ t. v.mul t b) (r.add_negate a) ∙ zero_mul b))

    -- `(1 − l)·x − a = x − (l·x + a)`
    value_at_zero :
        (l a x : v.Scalar)
        → v.add (v.mul (v.sub v.one_scalar l) x) (v.negate a) ≡ v.sub x (v.add (v.mul l x) a)
    value_at_zero l a x =
        simp (r.sub_as_add, add-mul v r, negate-mul, negate-add, r.mul_comm, r.mul_one, r.add_assoc)
          refl

    horner :
        (x c1 c0 carry k e : v.Scalar)
        → v.add
            (v.add carry (v.mul k c0))
            (v.mul x (v.add (v.mul k c1) (v.mul e (v.add (v.mul c1 x) c0))))
          ≡ v.add carry (v.mul (v.add k (v.mul x e)) (v.add (v.mul c1 x) c0))
    horner x c1 c0 carry k e =
        simp
          (
            r.mul-add,
            add-mul v r,
            r.mul_assoc,
            r.mul_comm,
            mul_left_comm v r,
            r.add_assoc,
            r.add_comm,
            add_left_comm v r,
          )
          refl

    eval-times_linear :
        (x c1 c0 carry : v.Scalar) (c : List v.Scalar)
        → eval x (times_linear v c1 c0 carry c)
          ≡ v.add carry (v.mul (eval x c) (v.add (v.mul c1 x) c0))
    unfolding times_linear
    eval-times_linear x c1 c0 carry [] =
        ap (v.add carry) (r.mul_zero x ∙ sym (zero_mul (v.add (v.mul c1 x) c0)))
    eval-times_linear x c1 c0 carry (k ∷ ks) =
        ap (λ t. v.add (v.add carry (v.mul k c0)) (v.mul x t))
          (eval-times_linear x c1 c0 (v.mul k c1) ks)
        ∙ horner x c1 c0 carry k (eval x ks)

    top-times_linear :
        (c1 c0 carry k : v.Scalar) (ks : List v.Scalar)
        → top (times_linear v c1 c0 carry (k ∷ ks)) ≡ v.mul (top (k ∷ ks)) c1
    unfolding times_linear
    top-times_linear c1 c0 carry k [] = refl
    top-times_linear c1 c0 carry k (k' ∷ ks) = top-times_linear c1 c0 (v.mul k c1) k' ks

    pub eval_step :
        (x : v.Scalar) (b : BitNonce v) (e : Bool) (c : List v.Scalar)
        → eval x (poly_step b e c) ≡ exp_step x b e (eval x c)
    eval_step x b false c =
        eval-times_linear x _ _ v.zero_scalar c
        ∙ (zero_add _ ∙ ap (v.mul (eval x c)) (value_at_zero (v.of_u64 b.bit) b.a x))
    eval_step x b true c = eval-times_linear x _ _ v.zero_scalar c ∙ zero_add _

    pub top-poly_step :
        (b : BitNonce v) (e : Bool) (c : List v.Scalar)
        → top (poly_step b e c) ≡ top_step b e (top c)
    unfolding times_linear
    top-poly_step b e [] = sym (zero_mul _)
    top-poly_step b e (k ∷ ks) = top-times_linear _ _ v.zero_scalar k ks

    -- What is left of a polynomial above its degree is the leading coefficient.
    pub eval-drop :
        (x : v.Scalar) (m : ℕ) (p : List v.Scalar) → length p ≡ suc m → eval x (drop m p) ≡ top p
    eval-drop x m [] size = absurd (omega arith)
    eval-drop x zero (k ∷ []) size = ap (v.add k) (r.mul_zero x) ∙ r.add_zero k
    eval-drop x zero (k ∷ k' ∷ ks) size = absurd (omega arith)
    eval-drop x (suc m) (k ∷ []) size = absurd (omega arith)
    eval-drop x (suc m) (k ∷ k' ∷ ks) size = eval-drop x m (k' ∷ ks) (omega arith)

    pub eval-drop_next :
        (x : v.Scalar) (k : ℕ) (p : List v.Scalar)
        → eval x (drop k p) ≡ v.add (get_or p k v.zero_scalar) (v.mul x (eval x (drop (suc k) p)))
    eval-drop_next x zero [] = sym (zero_add _ ∙ r.mul_zero x)
    eval-drop_next x (suc k) [] = sym (zero_add _ ∙ r.mul_zero x)
    eval-drop_next x zero (c ∷ p) = refl
    eval-drop_next x (suc k) (c ∷ p) = eval-drop_next x k p

    -- The table of the verifier has the values of the polynomials.
    pub values :
        (x : v.Scalar) (bs : List (BitNonce v))
        → expand v x (map (respond v x) bs) (v.one_scalar ∷ [])
          ≡ map (eval x) (spread poly_step bs ((v.one_scalar ∷ []) ∷ []))
    values x bs =
        let one : eval x (v.one_scalar ∷ []) ≡ v.one_scalar =
          ap (v.add v.one_scalar) (r.mul_zero x) ∙ r.add_zero v.one_scalar in
        expand-spread x bs (v.one_scalar ∷ [])
        ∙ (ap (λ t. spread (exp_step x) bs (t ∷ [])) (sym one)
            ∙ sym (
                map-spread (eval x) poly_step (exp_step x) (eval_step x) bs
                  ((v.one_scalar ∷ []) ∷ [])))

    pub tops :
        (bs : List (BitNonce v))
        → map top (spread poly_step bs ((v.one_scalar ∷ []) ∷ []))
          ≡ spread top_step bs (v.one_scalar ∷ [])
    tops bs = map-spread top poly_step top_step top-poly_step bs ((v.one_scalar ∷ []) ∷ [])

    pub map-eval-drop :
        (x : v.Scalar) (m : ℕ) (ps : List (List v.Scalar))
        → HaveLength (suc m) ps
        → map (λ p. eval x (drop m p)) ps ≡ map top ps
    map-eval-drop x m [] each = refl
    map-eval-drop x m (p ∷ ps) (also here rest) =
        ap₂ (λ s t. s ∷ t) (eval-drop x m p here) (map-eval-drop x m ps rest)
