-- ===== src/ScanProof/Verifier/Fields.antt =====
-- The fields of 32 bytes in the proofs of ScanProof's verifier (scanproof/verifier/src/lib.rs).
use nulla_relay.Prelude.{
  ℕ, zero, suc, ◌+◌, ◌%◌, ◌/◌, ◌^◌, ◌<◌, true, List, [], ◌∷◌, ◌++◌, ◌≡◌, refl, sym, ap, ◌∙◌, arith,
  ◌==◌, length, length-append, append-nil, take, drop, to_le_bytes, from_le_bytes, ==_iff,
}
use nulla_relay.Bridge.Fields.{length-to_le_bytes, from_le_bytes-to_le_bytes}
use nulla_relay.ScanProof.Verifier.{bytes_at}

pub take_bytes : (n x : ℕ) (rest : List ℕ) → take n (to_le_bytes n x ++ rest) ≡ to_le_bytes n x
unfolding to_le_bytes
take_bytes zero x rest = refl
take_bytes (suc n) x rest = ap (λ t. x % 256 ∷ t) (take_bytes n (x / 256) rest)

pub drop_bytes : (n x : ℕ) (rest : List ℕ) → drop n (to_le_bytes n x ++ rest) ≡ rest
unfolding to_le_bytes
drop_bytes zero x rest = refl
drop_bytes (suc n) x rest = drop_bytes n (x / 256) rest

drop_nil : (n : ℕ) → drop {A = ℕ} n [] ≡ []
drop_nil zero = refl
drop_nil (suc n) = refl

drop_add : (n m : ℕ) (xs : List ℕ) → drop (n + m) xs ≡ drop m (drop n xs)
drop_add zero m xs = let same : 0 + m ≡ m = omega arith in ap (λ k. drop k xs) same
drop_add (suc n) m [] = drop_nil (suc n + m) ∙ sym (drop_nil m)
drop_add (suc n) m (x ∷ xs) =
    let next : suc n + m ≡ suc (n + m) = omega arith in
    ap (λ k. drop k (x ∷ xs)) next ∙ drop_add n m xs

-- The three fields of a proof, of 32 bytes each.
module _ (a b d : ℕ) where
  pub bytes_at_first : (rest : List ℕ) → a < 256 ^ 32 → bytes_at 0 (to_le_bytes 32 a ++ rest) ≡ a
  bytes_at_first rest small =
      ap from_le_bytes (take_bytes 32 a rest) ∙ from_le_bytes-to_le_bytes 32 a small

  pub bytes_at_last : b < 256 ^ 32 → bytes_at 32 (to_le_bytes 32 a ++ to_le_bytes 32 b) ≡ b
  bytes_at_last small =
      ap (λ t. from_le_bytes (take 32 t)) (drop_bytes 32 a (to_le_bytes 32 b))
      ∙ (ap (λ t. from_le_bytes (take 32 t)) (sym (append-nil (to_le_bytes 32 b)))
          ∙ (ap from_le_bytes (take_bytes 32 b []) ∙ from_le_bytes-to_le_bytes 32 b small))

  pub bytes_at_second :
      (rest : List ℕ)
      → b < 256 ^ 32
      → bytes_at 32 (to_le_bytes 32 a ++ (to_le_bytes 32 b ++ rest)) ≡ b
  bytes_at_second rest small =
      ap (λ t. from_le_bytes (take 32 t)) (drop_bytes 32 a (to_le_bytes 32 b ++ rest))
      ∙ (ap from_le_bytes (take_bytes 32 b rest) ∙ from_le_bytes-to_le_bytes 32 b small)

pub bytes_at_third :
    (a b d : ℕ)
    → d < 256 ^ 32
    → bytes_at 64 (to_le_bytes 32 a ++ (to_le_bytes 32 b ++ to_le_bytes 32 d)) ≡ d
bytes_at_third a b d small =
    ap (λ t. from_le_bytes (take 32 t))
      (drop_add 32 32 (to_le_bytes 32 a ++ (to_le_bytes 32 b ++ to_le_bytes 32 d)))
    ∙ (ap (λ t. from_le_bytes (take 32 (drop 32 t)))
          (drop_bytes 32 a (to_le_bytes 32 b ++ to_le_bytes 32 d))
        ∙ bytes_at_last b d 0 small)

pub two_fields : (a b : ℕ) → (length (to_le_bytes 32 a ++ to_le_bytes 32 b) == 64) ≡ true
two_fields a b =
    let whole = length-append (to_le_bytes 32 a) (to_le_bytes 32 b) in
    let first = length-to_le_bytes 32 a in
    let second = length-to_le_bytes 32 b in
    (==_iff (length (to_le_bytes 32 a ++ to_le_bytes 32 b)) 64).1 (omega arith)

pub three_fields :
    (a b d : ℕ) → (length (to_le_bytes 32 a ++ (to_le_bytes 32 b ++ to_le_bytes 32 d)) == 96) ≡ true
three_fields a b d =
    let whole = length-append (to_le_bytes 32 a) (to_le_bytes 32 b ++ to_le_bytes 32 d) in
    let rest = length-append (to_le_bytes 32 b) (to_le_bytes 32 d) in
    let first = length-to_le_bytes 32 a in
    let second = length-to_le_bytes 32 b in
    let third = length-to_le_bytes 32 d in
    (==_iff (length (to_le_bytes 32 a ++ (to_le_bytes 32 b ++ to_le_bytes 32 d))) 96).1
      (omega arith)
