-- ===== src/Verifier/Tree/Levels.antt =====
-- How one level of the tree (proofhub/verifier/src/lib.rs, `mod v2`) follows from the one below
-- it when a node is added at its end.
use nulla_relay.Prelude.{
  ℕ, ◌/◌, ◌%◌, List, [], ◌∷◌, ◌++◌, ◌≡◌, refl, ap, ◌⊎◌, inl, inr, arith, length,
}
use nulla_relay.Verifier.Tree.{level_up}

-- What the last node of a level is, if it has no sibling.
abbrev pub Pending : ℕ → List ℕ → Type 0
Pending n [] = Unit
Pending n (x ∷ []) = n ≡ x
Pending n (x ∷ y ∷ level) = Pending n level

module _ (hash2 : ℕ → ℕ → ℕ) where
  -- The nodes above the pairs of siblings of a level.
  abbrev pub pairs : List ℕ → List ℕ
  pairs [] = []
  pairs (x ∷ []) = []
  pairs (x ∷ y ∷ level) = hash2 x y ∷ pairs level

  -- What a level without and a level with a pending node becomes by one more node.
  pub record Even (level : List ℕ) : Type 0 where
    pub even : length level % 2 ≡ 0
    pub pairs_same : (x : ℕ) → pairs (level ++ x ∷ []) ≡ pairs level
    pub left_pending : (x : ℕ) → Pending x (level ++ x ∷ [])
    pub up_padded : (z x : ℕ) → level_up hash2 z (level ++ x ∷ []) ≡ pairs level ++ hash2 x z ∷ []
    pub up_pairs : (z : ℕ) → level_up hash2 z level ≡ pairs level

  pub record Odd (level : List ℕ) : Type 0 where
    pub odd : length level % 2 ≡ 1
    pub pairs_more :
        (n x : ℕ) → Pending n level → pairs (level ++ x ∷ []) ≡ pairs level ++ hash2 n x ∷ []
    pub none_pending : (n x : ℕ) → Pending n (level ++ x ∷ [])
    pub up_paired :
        (z n x : ℕ)
        → Pending n level
        → level_up hash2 z (level ++ x ∷ []) ≡ pairs level ++ hash2 n x ∷ []
    pub up_pad : (z : ℕ) → level_up hash2 z (level ++ z ∷ []) ≡ level_up hash2 z level

  pub end_cases : (level : List ℕ) → Even level ⊎ Odd level
  unfolding level_up
  end_cases [] = inl (record {
    even = omega arith;
    pairs_same = λ x. refl;
    left_pending = λ x. refl;
    up_padded = λ z x. refl;
    up_pairs = λ z. refl;
  })
  end_cases (a ∷ []) = inr (record {
    odd = omega arith;
    pairs_more = λ n x pending. rw pending refl;
    none_pending = λ n x. tt;
    up_paired = λ z n x pending. rw pending refl;
    up_pad = λ z. refl;
  })
  end_cases (a ∷ b ∷ level) = elim (end_cases level) [
    | inl e ↦
        let parity = e.even in
        inl (record {
          even = omega arith;
          pairs_same = λ x. ap (λ up. hash2 a b ∷ up) (e.pairs_same x);
          left_pending = e.left_pending;
          up_padded = λ z x. ap (λ up. hash2 a b ∷ up) (e.up_padded z x);
          up_pairs = λ z. ap (λ up. hash2 a b ∷ up) (e.up_pairs z);
        })
    | inr o ↦
        let parity = o.odd in
        inr (record {
          odd = omega arith;
          pairs_more = λ n x pending. ap (λ up. hash2 a b ∷ up) (o.pairs_more n x pending);
          none_pending = o.none_pending;
          up_paired = λ z n x pending. ap (λ up. hash2 a b ∷ up) (o.up_paired z n x pending);
          up_pad = λ z. ap (λ up. hash2 a b ∷ up) (o.up_pad z);
        })
  ]

  pub length-pairs : (level : List ℕ) → length (pairs level) ≡ length level / 2
  length-pairs [] = omega arith
  length-pairs (x ∷ []) = omega arith
  length-pairs (x ∷ y ∷ level) = omega (arith, length-pairs level)
