-- ===== src/ScanProof/Verifier/OneOfMany/Doubling.antt =====
-- Doubling tables (scanproof/verifier/src/lib.rs): the list that `one_of_many::verify` doubles for each
-- bit, against the walk along the bits of a number by which `prove` computes a polynomial.
use native.Mathlib.Nat.{pow-succ'}
use nulla_relay.Prelude.{
  ℕ, zero, suc, ◌+◌, ◌*◌, ◌/◌, ◌%◌, ◌^◌, Bool, true, false, List, [], ◌∷◌, ◌++◌, ◌≡◌, refl, sym, ap,
  ap₂, ◌∙◌, arith, map, ◌==◌, length, length-map, map_equal, map-append, length-append,
}
use nulla_relay.ScanProof.Verifier.OneOfMany.Prove.{range}

mul_double : (n k : ℕ) → 2 * n * k ≡ n * (2 * k)
mul_double n k = omega arith

module _ {A : Type 0} where
  -- One list for the even places and one for the odd.
  abbrev pub interleave : List A → List A → List A
  interleave [] ys = ys
  interleave (x ∷ xs) [] = x ∷ xs
  interleave (x ∷ xs) (y ∷ ys) = x ∷ y ∷ interleave xs ys

  append-interleave :
      (xs ys xs' ys' : List A)
      → length xs ≡ length ys
      → interleave xs ys ++ interleave xs' ys' ≡ interleave (xs ++ xs') (ys ++ ys')
  append-interleave [] [] xs' ys' same = refl
  append-interleave [] (y ∷ ys) xs' ys' same = absurd (omega arith)
  append-interleave (x ∷ xs) [] xs' ys' same = absurd (omega arith)
  append-interleave (x ∷ xs) (y ∷ ys) xs' ys' same =
      ap (λ t. x ∷ y ∷ t) (append-interleave xs ys xs' ys' (omega arith))

  map-interleave :
      (f : A → A) (xs ys : List A) → map f (interleave xs ys) ≡ interleave (map f xs) (map f ys)
  map-interleave f [] ys = refl
  map-interleave f (x ∷ xs) [] = refl
  map-interleave f (x ∷ xs) (y ∷ ys) = ap (λ t. f x ∷ f y ∷ t) (map-interleave f xs ys)

  -- The even and the odd numbers of a range.
  map-range :
      (f : ℕ → A) (s n : ℕ)
      → map f (range (2 * s) (2 * n))
        ≡ interleave (map (λ q. f (2 * q)) (range s n)) (map (λ q. f (2 * q + 1)) (range s n))
  map-range f s zero = refl
  map-range f s (suc n) =
      let next : 2 * suc n ≡ suc (suc (2 * n)) = omega arith in
      let after : suc (2 * s) ≡ 2 * s + 1 = omega arith in
      let start : suc (suc (2 * s)) ≡ 2 * suc s = omega arith in
      rw (next, start, after) (ap (λ t. f (2 * s) ∷ f (2 * s + 1) ∷ t) (map-range f (suc s) n))

module _ {A B : Type 0} where
  abbrev pub spread : (step : B → Bool → A → A) → List B → List A → List A
  spread step [] xs = xs
  spread step (b ∷ bs) xs = spread step bs (map (step b false) xs ++ map (step b true) xs)

  abbrev pub follow : (step : B → Bool → A → A) → List B → ℕ → A → A
  follow step [] i x = x
  follow step (b ∷ bs) i x = follow step bs (i / 2) (step b (i % 2 == 1) x)

  pub length-spread :
      (step : B → Bool → A → A) (bs : List B) (xs : List A)
      → length (spread step bs xs) ≡ length xs * 2 ^ length bs
  length-spread step [] xs = omega arith
  length-spread step (b ∷ bs) xs =
      let rest = length-spread step bs (map (step b false) xs ++ map (step b true) xs) in
      let whole = length-append (map (step b false) xs) (map (step b true) xs) in
      let left = length-map (step b false) xs in
      let right = length-map (step b true) xs in
      let double = pow-succ' 2 (length bs) in
      let both : length (map (step b false) xs ++ map (step b true) xs) ≡ 2 * length xs =
        omega arith in
      rest
      ∙ (ap (λ n. n * 2 ^ length bs) both
          ∙ (mul_double (length xs) (2 ^ length bs) ∙ ap (λ n. length xs * n) (sym double)))

  pub spread-interleave :
      (step : B → Bool → A → A) (bs : List B) (xs ys : List A)
      → length xs ≡ length ys
      → spread step bs (interleave xs ys) ≡ interleave (spread step bs xs) (spread step bs ys)
  spread-interleave step [] xs ys same = refl
  spread-interleave step (b ∷ bs) xs ys same =
      let left = length-map (step b false) xs in
      let right = length-map (step b false) ys in
      let left' = length-map (step b true) xs in
      let right' = length-map (step b true) ys in
      let wholes = length-append (map (step b false) xs) (map (step b true) xs) in
      let wholes' = length-append (map (step b false) ys) (map (step b true) ys) in
      ap (spread step bs) (
        ap₂ (λ s t. s ++ t) (map-interleave (step b false) xs ys)
          (map-interleave (step b true) xs ys)
        ∙ append-interleave (map (step b false) xs) (map (step b false) ys) (map (step b true) xs)
            (map (step b true) ys) (omega arith))
      ∙ spread-interleave step bs (map (step b false) xs ++ map (step b true) xs)
          (map (step b false) ys ++ map (step b true) ys) (omega arith)

  -- The table holds what the walks give, by the numbers in their order.
  pub spread-follow :
      (step : B → Bool → A → A) (bs : List B) (x : A)
      → spread step bs (x ∷ []) ≡ map (λ i. follow step bs i x) (range 0 (2 ^ length bs))
  spread-follow step [] x = refl
  spread-follow step (b ∷ bs) x =
      let walk : ℕ → A = λ i. follow step (b ∷ bs) i x in
      let even : (q : ℕ) → follow step bs q (step b false x) ≡ walk (2 * q) = λ q.
        let half : 2 * q / 2 ≡ q = omega arith in
        let bit : (2 * q % 2 == 1) ≡ false = ground arith in rw (half, bit) refl in
      let odd : (q : ℕ) → follow step bs q (step b true x) ≡ walk (2 * q + 1) = λ q.
        let half : (2 * q + 1) / 2 ≡ q = omega arith in
        let bit : ((2 * q + 1) % 2 == 1) ≡ true = ground arith in rw (half, bit) refl in
      let n = 2 ^ length bs in
      let double : 2 ^ suc (length bs) ≡ 2 * n = pow-succ' 2 (length bs) in
      spread-interleave step bs (step b false x ∷ []) (step b true x ∷ []) refl
      ∙ (ap₂ interleave (spread-follow step bs (step b false x) ∙ map_equal _ _ even (range 0 n))
            (spread-follow step bs (step b true x) ∙ map_equal _ _ odd (range 0 n))
          ∙ (sym (map-range walk 0 n) ∙ ap (λ k. map walk (range 0 k)) (sym double)))

-- What a step does to the entries it does to their images.
module _ {A C : Type 0} (f : A → C) where
  module _ {B : Type 0} (step : B → Bool → A → A) (step' : B → Bool → C → C)
      (same : (b : B) (e : Bool) (x : A) → f (step b e x) ≡ step' b e (f x)) where
    map_step :
        (b : B) (e : Bool) (xs : List A) → map f (map (step b e) xs) ≡ map (step' b e) (map f xs)
    map_step b e [] = refl
    map_step b e (x ∷ xs) = ap₂ (λ s t. s ∷ t) (same b e x) (map_step b e xs)

    pub map-spread :
        (bs : List B) (xs : List A) → map f (spread step bs xs) ≡ spread step' bs (map f xs)
    map-spread [] xs = refl
    map-spread (b ∷ bs) xs =
        map-spread bs (map (step b false) xs ++ map (step b true) xs)
        ∙ ap (spread step' bs) (
            map-append f (map (step b false) xs) (map (step b true) xs)
            ∙ ap₂ (λ s t. s ++ t) (map_step b false xs) (map_step b true xs))
