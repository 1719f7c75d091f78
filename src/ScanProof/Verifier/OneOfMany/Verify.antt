-- ===== src/ScanProof/Verifier/OneOfMany/Verify.antt =====
-- The chain's side of a one-of-many proof (scanproof/verifier/src/lib.rs, `one_of_many::verify`).
use nulla_relay.Prelude.{
  ℕ, zero, suc, ◌+◌, ◌*◌, Bool, true, false, not, ◌&&◌, Option, none, some, List, [], ◌∷◌, ◌++◌,
  map, ◌==◌, if◌then◌else◌, length, drop, get_or,
}
use nulla_relay.ScanProof.Verifier.Ristretto.{Curve}
use nulla_relay.ScanProof.Verifier.{bytes_at, generator_h}
use nulla_relay.ScanProof.Verifier.OneOfMany.{
  is_group, trailing_zeros, OneOfManyProof, group_hash, fs_challenge, d_set,
}

infixl 20 ◌>>=◌
abbrev pub ◌>>=◌ : {A B : Type 0} → Option A → (A → Option B) → Option B
none >>= f = none
some a >>= f = f a

-- The bits of a group and the length of its proofs.
abbrev pub has_shape : List ℕ → (n : ℕ) → Bool
has_shape proof n =
    let m = trailing_zeros n n in
    is_group n && ((length proof == 1 + (7 * m + 1) * 32) && (get_or proof 0 256 == m))

module _ (v : Curve) where
  -- One coefficient of the doubling table for each coin, `Π_j f'_{j,i_j}`.
  unfoldable pub expand : v.Scalar → List v.Scalar → List v.Scalar → List v.Scalar
  expand x [] exps = exps
  expand x (f ∷ fs) exps =
      expand x fs (map (λ e. v.mul e (v.sub x f)) exps ++ map (λ e. v.mul e f) exps)

  -- `−x^0, −x^1, ..`, one for each point of the second list.
  unfoldable pub minus_powers : (x xk : v.Scalar) → List v.Point → List v.Scalar
  minus_powers x xk [] = []
  minus_powers x xk (g ∷ gs) = v.negate xk ∷ minus_powers x (v.mul xk x) gs

  abbrev pub bit_check : v.Scalar → (cl ca cb : v.Point) (f za zb : v.Scalar) → Bool
  bit_check x cl ca cb f za zb =
      v.same (v.plus (v.times x cl) ca)
        (v.plus (v.times f v.basepoint) (v.times za (generator_h v)))
      && v.same (v.plus (v.times (v.sub x f) cl) cb) (v.times zb (generator_h v))

  -- The loop over the bits; the lists have the same length.
  unfoldable pub bit_checks :
      (x : v.Scalar) (cl ca cb : List v.Point) (f za zb : List v.Scalar) → Bool
  bit_checks x [] ca cb f za zb = true
  bit_checks x (p ∷ cl) ca cb f za zb =
      bit_check x p (get_or ca 0 v.identity) (get_or cb 0 v.identity) (get_or f 0 v.zero_scalar)
        (get_or za 0 v.zero_scalar) (get_or zb 0 v.zero_scalar)
      && bit_checks x cl (drop 1 ca) (drop 1 cb) (drop 1 f) (drop 1 za) (drop 1 zb)

  -- The checks on a proof that has been read.
  unfoldable pub check_proof :
      (ghash : List ℕ) (serial price change : ℕ) (ctx : List ℕ) (d : List v.Point)
      → OneOfManyProof v
      → Bool
  check_proof ghash serial price change ctx d p =
      let x = fs_challenge v ghash serial price change ctx p.cl p.ca p.cb p.gk in
      bit_checks x p.cl p.ca p.cb p.fj p.zaj p.zbj
      && v.same
          (v.multiscalar (expand x p.fj (v.one_scalar ∷ []) ++ minus_powers x v.one_scalar p.gk)
            (d ++ p.gk))
          (v.times p.zd (generator_h v))

  -- `for _ in 0..m` over `read_pt` and over `read_sc`.
  unfoldable pub read_points : (m off : ℕ) → List ℕ → Option (List v.Point)
  read_points zero off proof = some []
  read_points (suc m) off proof = elim (v.decompress (bytes_at off proof)) [
    | none ↦ none
    | some p ↦ elim (read_points m (off + 32) proof) [ none ↦ none | some ps ↦ some (p ∷ ps) ]
  ]

  unfoldable pub read_scalars : (m off : ℕ) → List ℕ → Option (List v.Scalar)
  read_scalars zero off proof = some []
  read_scalars (suc m) off proof = elim (v.from_canonical_bytes (bytes_at off proof)) [
    | none ↦ none
    | some a ↦ elim (read_scalars m (off + 32) proof) [ none ↦ none | some rest ↦ some (a ∷ rest) ]
  ]

  -- The fields of a proof for `m` bits, one after the other.
  unfoldable pub read_proof : ℕ → List ℕ → Option (OneOfManyProof v)
  read_proof m proof = do
    cl ← read_points m 1 proof
    ca ← read_points m (1 + 32 * m) proof
    cb ← read_points m (1 + 64 * m) proof
    gk ← read_points m (1 + 96 * m) proof
    fj ← read_scalars m (1 + 128 * m) proof
    zaj ← read_scalars m (1 + 160 * m) proof
    zbj ← read_scalars m (1 + 192 * m) proof
    zd ← v.from_canonical_bytes (bytes_at (1 + 224 * m) proof)
    some record { cl = cl; ca = ca; cb = cb; gk = gk; fj = fj; zaj = zaj; zbj = zbj; zd = zd }

  unfoldable pub verify : (proof coins : List ℕ) (serial price change : ℕ) (ctx : List ℕ) → Bool
  verify proof coins serial price change ctx =
      if not (has_shape proof (length coins))
      then false
      else (elim (read_proof (trailing_zeros (length coins) (length coins)) proof) [
        | none ↦ false
        | some p ↦ elim (d_set v coins serial price change) [
          | none ↦ false
          | some d ↦ check_proof (group_hash v coins) serial price change ctx d p
        ]
      ])
