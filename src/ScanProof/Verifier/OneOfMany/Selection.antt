-- ===== src/ScanProof/Verifier/OneOfMany/Selection.antt =====
-- Sums of multiples of points (scanproof/verifier/src/lib.rs, `vartime_multiscalar_mul`), and those by
-- the leading coefficients of the polynomials of a group.
use native.Mathlib.Nat.{pow-succ'}
use nulla_relay.Prelude.{
  ℕ, zero, suc, ◌*◌, ◌/◌, ◌%◌, ◌^◌, ◌<◌, List, [], ◌∷◌, ◌++◌, ◌≡◌, refl, sym, ap, ap₂, ◌∙◌, arith,
  map, ◌==◌, length, get_or, by_true,
}
use nulla_relay.ScanProof.Verifier.Ristretto.{Curve, IsCurve, IsRing}
use nulla_relay.ScanProof.Verifier.Complete.{swap_middle}
use nulla_relay.ScanProof.Verifier.OneOfMany.Prove.{Nonce, with_bits}
use nulla_relay.ScanProof.Verifier.OneOfMany.Doubling.{
  interleave, spread, length-spread, spread-interleave,
}
use nulla_relay.ScanProof.Verifier.OneOfMany.Polynomials.{top_step, negate_unique}

module _ {A : Type 0} where
  abbrev pub evens : List A → List A
  evens [] = []
  evens (x ∷ []) = x ∷ []
  evens (x ∷ y ∷ xs) = x ∷ evens xs

  abbrev pub odds : List A → List A
  odds [] = []
  odds (x ∷ []) = []
  odds (x ∷ y ∷ xs) = y ∷ odds xs

  length-evens : (n : ℕ) (xs : List A) → length xs ≡ 2 * n → length (evens xs) ≡ n
  length-evens zero [] size = refl
  length-evens (suc n) [] size = absurd (omega arith)
  length-evens n (x ∷ []) size = absurd (omega arith)
  length-evens zero (x ∷ y ∷ xs) size = absurd (omega arith)
  length-evens (suc n) (x ∷ y ∷ xs) size = ap suc (length-evens n xs (omega arith))

  length-odds : (n : ℕ) (xs : List A) → length xs ≡ 2 * n → length (odds xs) ≡ n
  length-odds zero [] size = refl
  length-odds (suc n) [] size = absurd (omega arith)
  length-odds n (x ∷ []) size = absurd (omega arith)
  length-odds zero (x ∷ y ∷ xs) size = absurd (omega arith)
  length-odds (suc n) (x ∷ y ∷ xs) size = ap suc (length-odds n xs (omega arith))

  get_or-evens : (q : ℕ) (xs : List A) (d : A) → get_or (evens xs) q d ≡ get_or xs (2 * q) d
  get_or-evens q [] d = refl
  get_or-evens zero (x ∷ []) d = refl
  get_or-evens (suc q) (x ∷ []) d =
      let next : 2 * suc q ≡ suc (suc (2 * q)) = omega arith in rw next refl
  get_or-evens zero (x ∷ y ∷ xs) d = refl
  get_or-evens (suc q) (x ∷ y ∷ xs) d =
      let next : 2 * suc q ≡ suc (suc (2 * q)) = omega arith in rw next (get_or-evens q xs d)

  get_or-odds : (q : ℕ) (xs : List A) (d : A) → get_or (odds xs) q d ≡ get_or xs (suc (2 * q)) d
  get_or-odds q [] d = refl
  get_or-odds q (x ∷ []) d = refl
  get_or-odds zero (x ∷ y ∷ xs) d = refl
  get_or-odds (suc q) (x ∷ y ∷ xs) d =
      let next : 2 * suc q ≡ suc (suc (2 * q)) = omega arith in rw next (get_or-odds q xs d)

module _ (v : Curve) (h : IsCurve v) (r : IsRing v) where
  pub identity_plus : (p : v.Point) → v.plus v.identity p ≡ p
  identity_plus p = h.plus_comm v.identity p ∙ r.plus_identity p

  pub times_identity : (a : v.Scalar) → v.times a v.identity ≡ v.identity
  times_identity a =
      ap (v.times a) (sym (r.times_zero v.identity))
      ∙ (sym (h.times-mul a v.zero_scalar v.identity)
          ∙ (ap (λ t. v.times t v.identity) (r.mul_zero a) ∙ r.times_zero v.identity))

  pub multiscalar-append :
      (as' bs : List v.Scalar) (ps qs : List v.Point)
      → length as' ≡ length ps
      → v.multiscalar (as' ++ bs) (ps ++ qs) ≡ v.plus (v.multiscalar as' ps) (v.multiscalar bs qs)
  multiscalar-append [] bs [] qs same =
      sym (ap (λ t. v.plus t (v.multiscalar bs qs)) h.multiscalar_nil ∙ identity_plus _)
  multiscalar-append [] bs (p ∷ ps) qs same = absurd (omega arith)
  multiscalar-append (a ∷ as') bs [] qs same = absurd (omega arith)
  multiscalar-append (a ∷ as') bs (p ∷ ps) qs same =
      h.multiscalar_cons a _ p _
      ∙ (ap (v.plus (v.times a p)) (multiscalar-append as' bs ps qs (omega arith))
          ∙ (sym (h.plus_assoc _ _ _)
              ∙ ap (λ t. v.plus t (v.multiscalar bs qs)) (sym (h.multiscalar_cons a as' p ps))))

  multiscalar-interleave :
      (as' bs : List v.Scalar) (d : List v.Point)
      → length as' ≡ length bs
      → length d ≡ 2 * length as'
      → v.multiscalar (interleave as' bs) d
        ≡ v.plus (v.multiscalar as' (evens d)) (v.multiscalar bs (odds d))
  multiscalar-interleave [] [] [] same size =
      h.multiscalar_nil
      ∙ sym (ap₂ v.plus h.multiscalar_nil h.multiscalar_nil ∙ r.plus_identity v.identity)
  multiscalar-interleave [] [] (p ∷ d) same size = absurd (omega arith)
  multiscalar-interleave [] (b ∷ bs) d same size = absurd (omega arith)
  multiscalar-interleave (a ∷ as') [] d same size = absurd (omega arith)
  multiscalar-interleave (a ∷ as') (b ∷ bs) [] same size = absurd (omega arith)
  multiscalar-interleave (a ∷ as') (b ∷ bs) (p ∷ []) same size = absurd (omega arith)
  multiscalar-interleave (a ∷ as') (b ∷ bs) (p ∷ q ∷ d) same size =
      h.multiscalar_cons a _ p _
      ∙ (ap (v.plus (v.times a p)) (
            h.multiscalar_cons b _ q _
            ∙ ap (v.plus (v.times b q))
                (multiscalar-interleave as' bs d (omega arith) (omega arith)))
          ∙ (sym (h.plus_assoc _ _ _)
              ∙ (swap_middle v h (v.times a p) (v.times b q) (v.multiscalar as' (evens d))
                    (v.multiscalar bs (odds d))
                  ∙ ap₂ v.plus (sym (h.multiscalar_cons a as' p (evens d)))
                      (sym (h.multiscalar_cons b bs q (odds d))))))

  module _ {A : Type 0} where
    pub multiscalar-add :
        (f g : A → v.Scalar) (ps : List A) (d : List v.Point)
        → length ps ≡ length d
        → v.multiscalar (map (λ p. v.add (f p) (g p)) ps) d
          ≡ v.plus (v.multiscalar (map f ps) d) (v.multiscalar (map g ps) d)
    multiscalar-add f g [] [] same =
        h.multiscalar_nil
        ∙ sym (ap₂ v.plus h.multiscalar_nil h.multiscalar_nil ∙ r.plus_identity v.identity)
    multiscalar-add f g [] (q ∷ d) same = absurd (omega arith)
    multiscalar-add f g (p ∷ ps) [] same = absurd (omega arith)
    multiscalar-add f g (p ∷ ps) (q ∷ d) same =
        h.multiscalar_cons _ _ q d
        ∙ (ap₂ v.plus (h.times-add (f p) (g p) q) (multiscalar-add f g ps d (omega arith))
            ∙ (swap_middle v h (v.times (f p) q) (v.times (g p) q) (v.multiscalar (map f ps) d)
                  (v.multiscalar (map g ps) d)
                ∙ ap₂ v.plus (sym (h.multiscalar_cons _ _ q d)) (sym (h.multiscalar_cons _ _ q d))))

    pub multiscalar-mul :
        (a : v.Scalar) (f : A → v.Scalar) (ps : List A) (d : List v.Point)
        → length ps ≡ length d
        → v.multiscalar (map (λ p. v.mul a (f p)) ps) d ≡ v.times a (v.multiscalar (map f ps) d)
    multiscalar-mul a f [] [] same =
        h.multiscalar_nil ∙ sym (ap (v.times a) h.multiscalar_nil ∙ times_identity a)
    multiscalar-mul a f [] (q ∷ d) same = absurd (omega arith)
    multiscalar-mul a f (p ∷ ps) [] same = absurd (omega arith)
    multiscalar-mul a f (p ∷ ps) (q ∷ d) same =
        h.multiscalar_cons _ _ q d
        ∙ (ap₂ v.plus (h.times-mul a (f p) q) (multiscalar-mul a f ps d (omega arith))
            ∙ (sym (h.times-plus a _ _) ∙ ap (v.times a) (sym (h.multiscalar_cons _ _ q d))))

  sub_zero : v.sub v.one_scalar (v.of_u64 0) ≡ v.one_scalar
  sub_zero =
      ap (v.sub v.one_scalar) r.of_u64_zero
      ∙ (r.sub_as_add v.one_scalar v.zero_scalar
          ∙ (ap (v.add v.one_scalar)
                (sym (negate_unique v r v.zero_scalar v.zero_scalar (r.add_zero v.zero_scalar)))
              ∙ r.add_zero v.one_scalar))

  sub_one : v.sub v.one_scalar (v.of_u64 1) ≡ v.zero_scalar
  sub_one =
      ap (v.sub v.one_scalar) r.of_u64_one
      ∙ (r.sub_as_add v.one_scalar v.one_scalar ∙ r.add_negate v.one_scalar)

  times-mul_one :
      (u c : v.Scalar) (p : v.Point) → c ≡ v.one_scalar → v.times (v.mul u c) p ≡ v.times u p
  times-mul_one u c p one =
      ap (λ t. v.times (v.mul u t) p) one ∙ ap (λ t. v.times t p) (r.mul_one u)

  times-mul_zero :
      (u c : v.Scalar) (p : v.Point) → c ≡ v.zero_scalar → v.times (v.mul u c) p ≡ v.identity
  times-mul_zero u c p none =
      ap (λ t. v.times (v.mul u t) p) none ∙ (ap (λ t. v.times t p) (r.mul_zero u) ∙ r.times_zero p)

  -- The two halves of a selection by one bit.
  select_half :
      (u : v.Scalar) (index : ℕ) (d : List v.Point)
      → v.plus
          (v.times
            (v.mul u (v.sub v.one_scalar (v.of_u64 (index % 2))))
            (get_or (evens d) (index / 2) v.identity))
          (v.times (v.mul u (v.of_u64 (index % 2))) (get_or (odds d) (index / 2) v.identity))
        ≡ v.times u (get_or d index v.identity)
  select_half u index d =
      let even_point = get_or (evens d) (index / 2) v.identity in
      let odd_point = get_or (odds d) (index / 2) v.identity in
      by_true (index % 2 == 0)
        (λ odd.
          let one : index % 2 ≡ 1 = ground arith in
          let place : suc (2 * (index / 2)) ≡ index = omega arith in
          rw one (
            ap₂ v.plus (times-mul_zero u _ even_point sub_one)
              (times-mul_one u _ odd_point r.of_u64_one)
            ∙ (identity_plus _
                ∙ ap (v.times u) (
                    get_or-odds (index / 2) d v.identity ∙ ap (λ i. get_or d i v.identity) place))))
        λ even.
          let none : index % 2 ≡ 0 = ground arith in
          let place : 2 * (index / 2) ≡ index = omega arith in
          rw none (
            ap₂ v.plus (times-mul_one u _ even_point sub_zero)
              (times-mul_zero u _ odd_point r.of_u64_zero)
            ∙ (r.plus_identity _
                ∙ ap (v.times u) (
                    get_or-evens (index / 2) d v.identity ∙ ap (λ i. get_or d i v.identity) place)))

  pub length-with_bits :
      (index : ℕ) (ns : List (Nonce v)) → length (with_bits v index ns) ≡ length ns
  length-with_bits index [] = refl
  length-with_bits index (n ∷ ns) = ap suc (length-with_bits (index / 2) ns)

  -- The leading coefficients for the bits of an index select the point at this index.
  pub select :
      (ns : List (Nonce v)) (index : ℕ) (u : v.Scalar) (d : List v.Point)
      → index < 2 ^ length ns
      → length d ≡ 2 ^ length ns
      → v.multiscalar (spread (top_step v) (with_bits v index ns) (u ∷ [])) d
        ≡ v.times u (get_or d index v.identity)
  select [] index u [] inside size = absurd (omega arith)
  select [] zero u (p ∷ []) inside size =
      h.multiscalar_cons u [] p []
      ∙ (ap (v.plus (v.times u p)) h.multiscalar_nil ∙ r.plus_identity _)
  select [] (suc index) u (p ∷ []) inside size = absurd (omega arith)
  select [] index u (p ∷ q ∷ d) inside size = absurd (omega arith)
  select (n ∷ ns) index u d inside size =
      let bs = with_bits v (index / 2) ns in
      let low = v.mul u (v.sub v.one_scalar (v.of_u64 (index % 2))) in
      let high = v.mul u (v.of_u64 (index % 2)) in
      let double = pow-succ' 2 (length ns) in
      let bits = ap (λ k. 2 ^ k) (length-with_bits (index / 2) ns) in
      let left = length-spread (top_step v) bs (low ∷ []) in
      let right = length-spread (top_step v) bs (high ∷ []) in
      let half : length d ≡ 2 * 2 ^ length ns = omega arith in
      ap (λ t. v.multiscalar t d) (spread-interleave (top_step v) bs (low ∷ []) (high ∷ []) refl)
      ∙ (multiscalar-interleave (spread (top_step v) bs (low ∷ []))
            (spread (top_step v) bs (high ∷ [])) d (omega arith) (omega arith)
          ∙ (ap₂ v.plus
                (select ns (index / 2) low (evens d) (omega arith)
                  (length-evens (2 ^ length ns) d half))
                (select ns (index / 2) high (odds d) (omega arith)
                  (length-odds (2 ^ length ns) d half))
              ∙ select_half u index d))
