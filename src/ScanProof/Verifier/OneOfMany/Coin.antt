-- ===== src/ScanProof/Verifier/OneOfMany/Coin.antt =====
-- Spending a coin from its group by `one_of_many` (scanproof/verifier/src/lib.rs), with a change output
-- or without.
use nulla_relay.Prelude.{
  ℕ, zero, suc, ◌+◌, ◌^◌, ◌≤◌, ◌<◌, true, Option, none, some, List, [], ◌∷◌, ◌≡◌, refl, sym, ap,
  ap₂, ◌∙◌, arith, map, length, length-map, get_or,
}
use nulla_relay.ScanProof.Verifier.Ristretto.{Curve, IsCurve, IsRing}
use nulla_relay.ScanProof.Verifier.{
  generator_h, generator_g1, coin_commit, pedersen_commit, blinding_sub,
}
use nulla_relay.ScanProof.Verifier.Complete.{swap_middle}
use nulla_relay.ScanProof.Verifier.OneOfMany.{shift_coins, offset_of, d_set}
use nulla_relay.ScanProof.Verifier.OneOfMany.Prove.{prove}
use nulla_relay.ScanProof.Verifier.OneOfMany.Verify.{verify}
use nulla_relay.ScanProof.Verifier.OneOfMany.Spend.{made_is_accepted}

get_or-map :
    {A B : Type 0} (f : A → B) (xs : List A) (i : ℕ) (d : A) (e : B)
    → i < length xs
    → get_or (map f xs) i e ≡ f (get_or xs i d)
get_or-map f [] i d e inside = absurd (omega arith)
get_or-map f (x ∷ xs) zero d e inside = refl
get_or-map f (x ∷ xs) (suc i) d e inside = get_or-map f xs i d e (omega arith)

some_injective : {A : Type 0} (d x y : A) → some x ≡ some y → x ≡ y
some_injective {A = A} d x y same = ap (or_else d) same
  where
    or_else : A → Option A → A
    or_else e none = e
    or_else e (some z) = z

module _ (v : Curve) (h : IsCurve v) (r : IsRing v) where
  shift_coins-map :
      (offset : v.Point) (ps : List v.Point)
      → shift_coins v offset (map v.compress ps) ≡ some (map (λ p. v.minus p offset) ps)
  unfolding shift_coins
  shift_coins-map offset [] = refl
  shift_coins-map offset (p ∷ ps) = rw (h.decompress-compress p, shift_coins-map offset ps) refl

  -- The point of a coin in a group.
  point_at :
      (ps : List v.Point) (index : ℕ) (p : v.Point)
      → index < length ps
      → get_or (map v.compress ps) index 0 ≡ v.compress p
      → get_or ps index v.identity ≡ p
  point_at ps index p within coin = some_injective v.identity _ _ (
      sym (h.decompress-compress (get_or ps index v.identity))
      ∙ (ap v.decompress (sym (get_or-map v.compress ps index v.identity 0 within) ∙ coin)
          ∙ h.decompress-compress p))

  -- What is left of a coin when the serial, the price and the change are taken away.
  coin_left :
      (g1 gh change_pt : v.Point) (s rr rr' : v.Scalar) (price change : ℕ)
      → change_pt ≡ v.plus (v.times (v.of_u64 change) v.basepoint) (v.times rr' gh)
      → v.minus
          (v.plus
            (v.plus (v.times s g1) (v.times (v.of_u64 (price + change)) v.basepoint))
            (v.times rr gh))
          (v.plus (v.plus (v.times s g1) (v.times (v.of_u64 price) v.basepoint)) change_pt)
        ≡ v.times (v.sub rr rr') gh
  coin_left g1 gh change_pt s rr rr' price change is_change =
      let paid = v.times (v.of_u64 price) v.basepoint in
      let kept = v.times (v.of_u64 change) v.basepoint in
      let tag = v.times s g1 in
      let left = v.times (v.sub rr rr') gh in
      let offset = v.plus (v.plus tag paid) change_pt in
      let values =
        ap (λ t. v.times t v.basepoint) (h.of_u64-add price change)
        ∙ h.times-add (v.of_u64 price) (v.of_u64 change) v.basepoint in
      let blinds =
        ap (λ t. v.times t gh) (sym (h.add-sub rr rr')) ∙ h.times-add (v.sub rr rr') rr' gh in
      let split : v.plus (v.plus tag (v.times (v.of_u64 (price + change)) v.basepoint))
            (v.times rr gh)
          ≡ v.plus left offset =
        ap₂ v.plus (ap (v.plus tag) values ∙ sym (h.plus_assoc tag paid kept)) blinds
        ∙ (swap_middle v h (v.plus tag paid) kept left (v.times rr' gh)
            ∙ (ap (v.plus (v.plus (v.plus tag paid) left)) (sym is_change)
                ∙ (ap (λ t. v.plus t change_pt) (h.plus_comm (v.plus tag paid) left)
                    ∙ h.plus_assoc left (v.plus tag paid) change_pt))) in
      ap (λ t. v.minus t offset) split ∙ h.minus-plus left offset

  -- The owner of a coin in a group of `2^k` coins, `k` from 1 to 255, can spend it: for a coin with a
  -- serial, that holds a price and a change, and for the change output of the change under another
  -- blinding, `prove` gives a proof with the difference of the blindings, and `verify` accepts it for
  -- the same group, serial, price, change output and context.
  pub coin_spend_verifies :
      (k : ℕ) (ps : List v.Point) (index serial price change blinding blinding' : ℕ) (ctx : List ℕ)
      (seed : ℕ)
      → length ps ≡ 2 ^ k
      → 1 ≤ k
      → k < 256
      → index < 2 ^ k
      → get_or (map v.compress ps) index 0 ≡ coin_commit v serial (price + change) blinding
      → let coins = map v.compress ps in
        let output = pedersen_commit v change blinding' in
        (proof : List ℕ) × (prove v coins index serial price output
            (blinding_sub v blinding blinding')
            ctx
            seed
          ≡ some proof)
        × (verify v proof coins serial price output ctx ≡ true)
  unfolding coin_commit pedersen_commit blinding_sub d_set
  coin_spend_verifies k ps index serial price change blinding blinding' ctx seed size some_bits few
        inside coin =
      let s = v.from_bytes_mod_order serial in
      let rr = v.from_bytes_mod_order blinding in
      let rr' = v.from_bytes_mod_order blinding' in
      let g1 = generator_g1 v in
      let gh = generator_h v in
      let change_pt = v.plus (v.times (v.of_u64 change) v.basepoint) (v.times rr' gh) in
      let offset = offset_of v serial price change_pt in
      let d = map (λ p. v.minus p offset) ps in
      let c_pt =
        v.plus (v.plus (v.times s g1) (v.times (v.of_u64 (price + change)) v.basepoint))
          (v.times rr gh) in
      let within : index < length ps = omega arith in
      let point = point_at ps index c_pt within coin in
      let decoded : d_set v (map v.compress ps) serial price (v.compress change_pt) ≡ some d =
        rw (d_set, h.decompress-compress change_pt) (shift_coins-map offset ps) in
      let opened : get_or d index v.identity
          ≡ v.times (v.from_bytes_mod_order (v.to_bytes (v.sub rr rr'))) gh =
        get_or-map (λ p. v.minus p offset) ps index v.identity v.identity within
        ∙ (ap (λ t. v.minus t offset) point
            ∙ (coin_left g1 gh change_pt s rr rr' price change refl
                ∙ ap (λ t. v.times t gh) (sym (h.from_bytes_mod_order-to_bytes (v.sub rr rr'))))) in
      made_is_accepted v h r k (map v.compress ps) index serial price (v.compress change_pt)
        (v.to_bytes (v.sub rr rr')) ctx seed d (length-map v.compress ps ∙ size) some_bits few
        inside decoded (length-map _ ps ∙ size) opened

  -- A coin that holds exactly the price can be spent without a change output.
  pub exact_spend_verifies :
      (k : ℕ) (ps : List v.Point) (index serial price blinding : ℕ) (ctx : List ℕ) (seed : ℕ)
      → length ps ≡ 2 ^ k
      → 1 ≤ k
      → k < 256
      → index < 2 ^ k
      → get_or (map v.compress ps) index 0 ≡ coin_commit v serial price blinding
      → let coins = map v.compress ps in
        (proof : List ℕ) × (prove v coins index serial price 0 blinding ctx seed ≡ some proof)
        × (verify v proof coins serial price 0 ctx ≡ true)
  unfolding coin_commit d_set
  exact_spend_verifies k ps index serial price blinding ctx seed size some_bits few inside coin =
      let gh = generator_h v in
      let rr = v.from_bytes_mod_order blinding in
      let paid =
        v.plus (v.times (v.from_bytes_mod_order serial) (generator_g1 v))
          (v.times (v.of_u64 price) v.basepoint) in
      let offset = offset_of v serial price v.identity in
      let c_pt = v.plus paid (v.times rr gh) in
      let d = map (λ p. v.minus p offset) ps in
      let within : index < length ps = omega arith in
      let point = point_at ps index c_pt within coin in
      let decoded : d_set v (map v.compress ps) serial price 0 ≡ some d =
        rw (d_set, h.decompress_zero) (shift_coins-map offset ps) in
      let opened : get_or d index v.identity ≡ v.times rr gh =
        get_or-map (λ p. v.minus p offset) ps index v.identity v.identity within
        ∙ (ap₂ v.minus (point ∙ h.plus_comm paid (v.times rr gh)) (r.plus_identity paid)
            ∙ h.minus-plus (v.times rr gh) paid) in
      made_is_accepted v h r k (map v.compress ps) index serial price 0 blinding ctx seed d
        (length-map v.compress ps ∙ size) some_bits few inside decoded (length-map _ ps ∙ size)
        opened
