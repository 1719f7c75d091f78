-- ===== src/Verifier/Poseidon.antt =====
-- The Poseidon permutation over the field `f128` and the hashes of the v2 notes, nullifiers and
-- tree nodes (proofhub/verifier/src/lib.rs). The field of `winter_verifier` and BLAKE3 are
-- parameters; `Element` is `BaseElement`.
use nulla_relay.Prelude.{
  ℕ, zero, suc, ◌+◌, ◌*◌, ◌/◌, ◌%◌, ◌^◌, Bool, ◌||◌, List, [], ◌∷◌, ◌++◌, ltb, leb, if◌then◌else◌,
  ascii,
}

-- What the code takes from other crates: the field operations, `BaseElement::new` of a `u128`,
-- `as_int`, and BLAKE3 of a byte string as an array of 32 bytes.
pub record Field : Type 1 where
  pub Element : Type 0
  pub of_u128 : ℕ → Element
  pub as_int : Element → ℕ
  pub plus : Element → Element → Element
  pub minus : Element → Element → Element
  pub times : Element → Element → Element
  pub blake3 : List ℕ → ℕ

module _ (f : Field) where
  abbrev E : Type 0
  E = f.Element

  -- The state `[BaseElement; 4]`.
  abbrev pub Sponge : Type 0
  Sponge = E × E × E × E

  -- The first 16 bytes of a digest, as a field element.
  unfoldable pub iv_from_domain : List ℕ → E
  iv_from_domain domain = f.of_u128 (f.blake3 domain % 2 ^ 128)

  -- A buffer of 22 bytes: the domain, 1, the round and the column.
  unfoldable pub poseidon_rc : (round col : ℕ) → E
  poseidon_rc round col =
      f.of_u128
        (f.blake3 (ascii "poseidon_f128_rc_v1" ++ 1 ∷ (round % 256) ∷ (col % 256) ∷ []) % 2 ^ 128)

  unfoldable pub is_full_round : ℕ → Bool
  is_full_round round = ltb round (8 / 2) || leb (8 / 2 + 56) round

  abbrev cube : E → E
  cube a = f.times (f.times a a) a

  unfoldable pub poseidon_eval_round_base : Sponge → ℕ → Sponge
  unfolding poseidon_rc is_full_round
  poseidon_eval_round_base (s0, s1, s2, s3) round =
      let one = f.of_u128 1 in
      let is_full = if is_full_round round then one else f.of_u128 0 in
      let a0 = f.plus s0 (poseidon_rc round 0) in
      let a1 = f.plus s1 (poseidon_rc round 1) in
      let a2 = f.plus s2 (poseidon_rc round 2) in
      let a3 = f.plus s3 (poseidon_rc round 3) in
      let b0 = cube a0 in
      let b1 = f.plus (f.times is_full (cube a1)) (f.times (f.minus one is_full) a1) in
      let b2 = f.plus (f.times is_full (cube a2)) (f.times (f.minus one is_full) a2) in
      let b3 = f.plus (f.times is_full (cube a3)) (f.times (f.minus one is_full) a3) in
      let bsum = f.plus (f.plus (f.plus b0 b1) b2) b3 in
      (f.plus b0 bsum, f.plus b1 bsum, f.plus b2 bsum, f.plus b3 bsum)

  -- The rounds that are left, from a round on.
  unfoldable pub rounds : (left round : ℕ) → Sponge → Sponge
  unfolding poseidon_eval_round_base
  rounds zero round state = state
  rounds (suc left) round state = rounds left (suc round) (poseidon_eval_round_base state round)

  unfoldable pub poseidon_perm : Sponge → Sponge
  unfolding rounds
  poseidon_perm state = rounds 64 0 state

  unfoldable pub unpack : ℕ → E × E
  unpack bytes = (f.of_u128 (bytes % 2 ^ 128), f.of_u128 (bytes / 2 ^ 128 % 2 ^ 128))

  unfoldable pub pack : E → E → ℕ
  pack lo hi = f.as_int lo % 2 ^ 128 + 2 ^ 128 * (f.as_int hi % 2 ^ 128)

  -- The elements 1 and 2 of a state, packed.
  abbrev squeeze : Sponge → ℕ
  squeeze s = pack s.1 s.2

  unfoldable pub note_hash : (v b pkd : ℕ) → ℕ
  unfolding pack unpack iv_from_domain
  note_hash v b pkd =
      let first =
        poseidon_perm
          (iv_from_domain (ascii "nulla_note_iv_v2"), f.of_u128 v, (unpack b).0, (unpack b).1) in
      squeeze (
        poseidon_perm
          (first.0, f.plus first.1 (unpack pkd).0, f.plus first.2 (unpack pkd).1, first.3))

  unfoldable pub nullifier_hash : ℕ → ℕ
  unfolding pack unpack iv_from_domain
  nullifier_hash b = squeeze (
      poseidon_perm
        (iv_from_domain (ascii "nulla_nullifier_iv_v2"), (unpack b).0, (unpack b).1, f.of_u128 0))

  unfoldable pub merkle_hash2 : (left right : ℕ) → ℕ
  unfolding pack unpack iv_from_domain
  merkle_hash2 left right =
      let first = poseidon_perm (
        iv_from_domain (ascii "nulla_merkle_iv_v2"),
        (unpack left).0,
        (unpack left).1,
        (unpack right).0,
      ) in
      squeeze (poseidon_perm (first.0, f.plus first.1 (unpack right).1, first.2, first.3))

  unfoldable pub pk_digest : List ℕ → ℕ
  pk_digest ml_dsa_pk = f.blake3 (ascii "nulla_pk_digest_v2" ++ ml_dsa_pk)
