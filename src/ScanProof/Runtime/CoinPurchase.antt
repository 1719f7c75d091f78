-- ===== src/ScanProof/Runtime/CoinPurchase.antt =====
-- A purchase with a coin, from the wallet to the pallet (scanproof/verifier/src/lib.rs and
-- scanproof/pallets/proofs/src/lib.rs, as the runtime connects them).
use native.Mathlib.Nat.{pow-succ'}
use nulla_relay.Prelude.{
  ℕ, zero, suc, ◌+◌, ◌-◌, ◌%◌, ◌^◌, ◌≤◌, ◌<◌, Bool, true, false, Option, some, List, [], ◌∷◌, ◌++◌,
  ◌≡◌, refl, sym, ap, ◌∙◌, arith, map, map-append, length, length-map, length-append, get_or, ◌==◌,
  ltb, leb, by_true, subst, ascii, to_le_bytes,
}
use nulla_relay.Frame.{Origin, ok, update, is_ok}
use nulla_relay.ScanProof.Types.{Config, Event, Message, ProofPublicInputs, CoinSpendPublic}
use nulla_relay.ScanProof.Storage.{State}
use nulla_relay.ScanProof.Coins.{purchase_coin, register_change, context, group_of}
use nulla_relay.ScanProof.Verifier.Ristretto.{Curve, IsCurve, IsRing}
use nulla_relay.ScanProof.Verifier.{generator_h, generator_g1, coin_commit, hash_to_point}
use nulla_relay.ScanProof.Verifier.Groups.{
  at_least_two, padded_length, pad_coins, pad_coin, pad_group,
}
use nulla_relay.ScanProof.Verifier.Padded.{padded_group_proves}
use nulla_relay.ScanProof.Verifier.OneOfMany.{is_group}
use nulla_relay.ScanProof.Verifier.OneOfMany.Prove.{prove}
use nulla_relay.ScanProof.Verifier.OneOfMany.Verify.{verify}
use nulla_relay.ScanProof.Verifier.OneOfMany.Coin.{exact_spend_verifies}
use nulla_relay.ScanProof.Runtime.{runtime_verifier}

large_power : (n : ℕ) → 4096 ≤ 2 ^ (n + 12)
large_power zero = omega arith
large_power (suc n) =
    let before = large_power n in
    let next : suc n + 12 ≡ suc (n + 12) = omega arith in
    let double = pow-succ' 2 (n + 12) in rw next (omega arith)

-- A power of two for a group of at most 1024 coins has an exponent of one byte.
small_exponent : (k : ℕ) → 2 ^ k < 4096 → k < 256
small_exponent k below =
    by_true (ltb k 12)
      (λ large.
        let same : k - 12 + 12 ≡ k = ground arith in
        let above = large_power (k - 12) in
        let reached : 4096 ≤ 2 ^ k = subst (λ n. 4096 ≤ 2 ^ n) same above in absurd (omega arith))
      λ small. ground arith

positive_exponent : (k : ℕ) → 2 ≤ 2 ^ k → 1 ≤ k
positive_exponent zero two = absurd (omega arith)
positive_exponent (suc k) two = omega arith

get_or-append : (xs ys : List ℕ) (i d : ℕ) → i < length xs → get_or (xs ++ ys) i d ≡ get_or xs i d
get_or-append [] ys i d inside = absurd (omega arith)
get_or-append (x ∷ xs) ys zero d inside = refl
get_or-append (x ∷ xs) ys (suc i) d inside = get_or-append xs ys i d (omega arith)

module _ (v : Curve) where
  -- The padding coins are encodings of points.
  padding_points :
      (missing group_id i : ℕ)
      → (ps : List v.Point) × (map v.compress ps ≡ pad_coins v missing group_id i)
  unfolding pad_coin
  padding_points zero group_id i = ([], refl)
  padding_points (suc missing) group_id i =
      let (ps, same) = padding_points missing group_id ((i + 1) % 2 ^ 32) in
      let point =
        hash_to_point v (ascii "NULLA_GROUP_PAD" ++ (to_le_bytes 4 group_id ++ to_le_bytes 4 i)) in
      (point ∷ ps, ap (λ t. v.compress point ∷ t) same)

  padded_points :
      (qs : List v.Point) (group_id : ℕ)
      → (ps : List v.Point) × (map v.compress ps ≡ pad_group v (map v.compress qs) group_id)
  unfolding pad_group
  padded_points qs group_id =
      let n = length (map v.compress qs) in
      let (ps, same) = padding_points (padded_length n - n) group_id (n % 2 ^ 32) in
      (qs ++ ps, map-append v.compress qs ps ∙ ap (λ t. map v.compress qs ++ t) same)

length-pad_group :
    (v : Curve) (coins : List ℕ) (group_id : ℕ) → length coins ≤ length (pad_group v coins group_id)
unfolding pad_group
length-pad_group v coins group_id =
    let n = length coins in
    let whole = length-append coins (pad_coins v (padded_length n - n) group_id (n % 2 ^ 32)) in
    omega arith

at_least_two_small : (n : ℕ) → n ≤ 1024 → at_least_two n ≤ 1024
at_least_two_small n few = ground arith

is_group_large : (n : ℕ) → is_group n ≡ true → 2 ≤ n
is_group_large n group = by_true (leb 2 n) (λ short. absurd (ground arith)) λ long. ground arith

-- The coins of a group stay where they are when it is padded.
get_or-pad_group :
    (v : Curve) (coins : List ℕ) (group_id i : ℕ)
    → i < length coins
    → get_or (pad_group v coins group_id) i 0 ≡ get_or coins i 0
unfolding pad_group
get_or-pad_group v coins group_id i inside = get_or-append coins _ i 0 inside

module _ (v : Curve) (h : IsCurve v) (r : IsRing v) where
  -- The coin under other bytes of its serial.
  same_commitment :
      (serial other value blinding : ℕ)
      → v.from_bytes_mod_order other ≡ v.from_bytes_mod_order serial
      → coin_commit v serial value blinding ≡ coin_commit v other value blinding
  unfolding coin_commit
  same_commitment serial other value blinding same =
      let worth = v.times (v.of_u64 value) v.basepoint in
      let blind = v.times (v.from_bytes_mod_order blinding) (generator_h v) in
      ap (λ s. v.compress (v.plus (v.plus (v.times s (generator_g1 v)) worth) blind)) (sym same)

  -- A coin of a group that is not full is spent from the padded group.
  padded_spend :
      (qs : List v.Point) (group_id index serial price blinding : ℕ) (ctx : List ℕ) (seed : ℕ)
      → length qs ≤ 1024
      → index < length qs
      → get_or (map v.compress qs) index 0 ≡ coin_commit v serial price blinding
      → let coins = pad_group v (map v.compress qs) group_id in
        (proof : List ℕ) × (prove v coins index serial price 0 blinding ctx seed ≡ some proof)
        × (verify v proof coins serial price 0 ctx ≡ true)
  padded_spend qs group_id index serial price blinding ctx seed few inside coin =
      let (ps, same) = padded_points v qs group_id in
      let coins = map v.compress qs in
      let (k, size, start, bound, group, zeros) = padded_group_proves v coins group_id in
      let width = length-map v.compress qs in
      let points = sym (length-map v.compress ps) ∙ (ap length same ∙ size) in
      let limit : at_least_two (length coins) ≤ 1024 =
        at_least_two_small (length coins) (omega arith) in
      let two : 2 ≤ length (pad_group v coins group_id) = is_group_large _ group in
      let more = length-pad_group v coins group_id in
      let reach : index < length coins = omega arith in
      let place : get_or (map v.compress ps) index 0 ≡ coin_commit v serial price blinding =
        ap (λ t. get_or t index 0) same ∙ (get_or-pad_group v coins group_id index reach ∙ coin) in
      subst
        (λ t.
          (proof : List ℕ) × (prove v t index serial price 0 blinding ctx seed ≡ some proof)
          × (verify v proof t serial price 0 ctx ≡ true))
        same
        (exact_spend_verifies v h r k ps index serial price blinding ctx seed points
          (positive_exponent k (omega arith)) (small_exponent k (omega arith)) (omega arith) place)

module _ (v : Curve) (h : IsCurve v) (r : IsRing v) (d : Config)
    (decode : List ℕ → Option ProofPublicInputs)
    (verify_range_proof : (range_proof commitments public_inputs : List ℕ) (nbits : ℕ) → Bool) where
  -- The pallet's configuration in the runtime.
  abbrev pub wired : Config
  wired = record d { verifier = runtime_verifier v decode verify_range_proof }

  -- The chain after a purchase without a change.
  abbrev bought : CoinSpendPublic → (price : ℕ) → State → State
  bought x price s = record s {
    serial_used = update x.serial true s.serial_used;
    events = Event.coin_purchase_authorized x.rwa_id x.tx_id x.group_id 0 ∷ s.events;
    outbox =
        Message.rwa_purchase x.rwa_id x.serial x.serial price x.tx_id x.ownership_commitment
        ∷ s.outbox;
  }

  -- What public inputs need for a purchase with a coin of the group `qs`.
  pub record CanBuy (s : State) (public_inputs : List ℕ) (x : CoinSpendPublic) (qs : List v.Point)
      (price : ℕ) : Type 0 where
    pub decoded : d.decode_coin_spend public_inputs ≡ some x
    pub no_change : x.change ≡ 0
    pub no_change_coin : x.change_coin ≡ 0
    pub unused : s.serial_used x.serial ≡ false
    pub group : s.coin_groups x.group_id ≡ some (map v.compress qs)
    pub priced : s.rwa_prices x.rwa_id ≡ price
    pub positive : 0 < price
    pub few : length qs ≤ 1024

  buy_result :
      (s : State) (public_inputs : List ℕ) (x : CoinSpendPublic) (qs : List v.Point)
      (index serial price blinding seed : ℕ)
      → CanBuy s public_inputs x qs price
      → index < length qs
      → get_or (map v.compress qs) index 0 ≡ coin_commit v serial price blinding
      → v.from_bytes_mod_order x.serial ≡ v.from_bytes_mod_order serial
      → let coins = pad_group v (map v.compress qs) x.group_id in
        (proof : List ℕ) × (prove v coins index x.serial price 0 blinding
            (context wired public_inputs)
            seed
          ≡ some proof)
        × (purchase_coin wired Origin.unsigned public_inputs proof [] s ≡ (ok tt, bought x price s))
  unfolding purchase_coin register_change
  buy_result s public_inputs x qs index serial price blinding seed can inside coin same =
      let (proof, made, accepted) =
        padded_spend v h r qs x.group_id index x.serial price blinding (context wired public_inputs)
          seed can.few inside (coin ∙ same_commitment v h r serial x.serial price blinding same) in
      let positive = can.positive in
      let paid : ltb 0 price ≡ true = ground arith in
      let held : group_of x.group_id s ≡ map v.compress qs = rw (group_of, can.group) refl in
      (
        proof,
        made,
        rw
            (
              can.decoded, can.unused, can.group, can.priced, can.no_change, can.no_change_coin,
              paid, held, accepted,
            )
            refl,
      )

  -- The owner of a coin can buy with it: if a group of at most 1024 coins holds, at some index, the coin
  -- of a serial, the price of an RWA and a blinding, then for public inputs that name the group, the
  -- RWA and 32 bytes which stand for the scalar of the serial and are not marked as used, without a
  -- change, the wallet gets a proof over the padded group, and the call `purchase_coin` with this
  -- proof succeeds.
  pub coin_purchase_succeeds :
      (s : State) (public_inputs : List ℕ) (x : CoinSpendPublic) (qs : List v.Point)
      (index serial price blinding seed : ℕ)
      → CanBuy s public_inputs x qs price
      → index < length qs
      → get_or (map v.compress qs) index 0 ≡ coin_commit v serial price blinding
      → v.from_bytes_mod_order x.serial ≡ v.from_bytes_mod_order serial
      → let coins = pad_group v (map v.compress qs) x.group_id in
        (proof : List ℕ) × (prove v coins index x.serial price 0 blinding
            (context wired public_inputs)
            seed
          ≡ some proof)
        × (is_ok (purchase_coin wired Origin.unsigned public_inputs proof [] s).0 ≡ true)
  coin_purchase_succeeds s public_inputs x qs index serial price blinding seed can inside coin
        same =
      let (proof, made, result) =
        buy_result s public_inputs x qs index serial price blinding seed can inside coin same in
      (proof, made, ap (λ t. is_ok t.0) result)

  -- One coin is bought with twice: if two public inputs allow a purchase, as above, their serials are
  -- different bytes, and both stand for the scalar of the coin's serial, then the wallet has proofs
  -- with which the two calls of `purchase_coin`, one after the other, succeed.
  pub coin_buys_twice :
      (s : State) (public_inputs public_inputs' : List ℕ) (x x' : CoinSpendPublic)
      (qs : List v.Point) (index serial price blinding seed : ℕ)
      → CanBuy s public_inputs x qs price
      → CanBuy s public_inputs' x' qs price
      → (x'.serial == x.serial) ≡ false
      → index < length qs
      → get_or (map v.compress qs) index 0 ≡ coin_commit v serial price blinding
      → v.from_bytes_mod_order x.serial ≡ v.from_bytes_mod_order serial
      → v.from_bytes_mod_order x'.serial ≡ v.from_bytes_mod_order serial
      → (proof proof' : List ℕ) × let first =
            purchase_coin wired Origin.unsigned public_inputs proof [] s in
          (is_ok first.0 ≡ true)
          × (is_ok (purchase_coin wired Origin.unsigned public_inputs' proof' [] first.1).0 ≡ true)
  coin_buys_twice s public_inputs public_inputs' x x' qs index serial price blinding seed can can'
        differ inside coin same same' =
      let (proof, made, result) =
        buy_result s public_inputs x qs index serial price blinding seed can inside coin same in
      let next : CanBuy (bought x price s) public_inputs' x' qs price = record {
        decoded = can'.decoded;
        no_change = can'.no_change;
        no_change_coin = can'.no_change_coin;
        unused = rw differ can'.unused;
        group = can'.group;
        priced = can'.priced;
        positive = can'.positive;
        few = can'.few;
      } in
      let (proof', made', result') =
        buy_result (bought x price s) public_inputs' x' qs index serial price blinding seed next
          inside coin same' in
      (
        proof,
        proof',
        (
          ap (λ t. is_ok t.0) result,
          ap (λ t. is_ok (purchase_coin wired Origin.unsigned public_inputs' proof' [] t.1).0)
                result
              ∙ ap (λ t. is_ok t.0) result',
        ),
      )
