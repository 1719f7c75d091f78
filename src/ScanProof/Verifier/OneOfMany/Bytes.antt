-- ===== src/ScanProof/Verifier/OneOfMany/Bytes.antt =====
-- The bytes of a one-of-many proof, written by `prove` and read by `verify`
-- (scanproof/verifier/src/lib.rs).
use nulla_relay.Prelude.{
  ℕ, ◌+◌, ◌*◌, ◌%◌, ◌^◌, ◌<◌, some, List, [], ◌∷◌, ◌++◌, ◌≡◌, refl, sym, ap, ap₂, ◌∙◌, arith,
  length, length-append, append_assoc, append-nil, take, drop, to_le_bytes, from_le_bytes,
}
use nulla_relay.Bridge.Fields.{length-to_le_bytes, from_le_bytes-to_le_bytes}
use nulla_relay.ScanProof.Verifier.Ristretto.{Curve, IsCurve}
use nulla_relay.ScanProof.Verifier.{bytes_at, point_bytes, scalar_bytes}
use nulla_relay.ScanProof.Verifier.Fields.{take_bytes}
use nulla_relay.ScanProof.Verifier.OneOfMany.{OneOfManyProof}
use nulla_relay.ScanProof.Verifier.OneOfMany.Prove.{points_bytes, scalars_bytes, write_proof}
use nulla_relay.ScanProof.Verifier.OneOfMany.Verify.{read_points, read_scalars, read_proof}

drop_prefix : (pre rest : List ℕ) → drop (length pre) (pre ++ rest) ≡ rest
drop_prefix [] rest = refl
drop_prefix (b ∷ pre) rest = drop_prefix pre rest

-- A field after a prefix.
field_at :
    (pre rest : List ℕ) (off a : ℕ)
    → length pre ≡ off
    → a < 256 ^ 32
    → bytes_at off (pre ++ (to_le_bytes 32 a ++ rest)) ≡ a
field_at pre rest off a size small =
    ap (λ k. from_le_bytes (take 32 (drop k (pre ++ (to_le_bytes 32 a ++ rest))))) (sym size)
    ∙ (ap (λ t. from_le_bytes (take 32 t)) (drop_prefix pre (to_le_bytes 32 a ++ rest))
        ∙ (ap from_le_bytes (take_bytes 32 a rest) ∙ from_le_bytes-to_le_bytes 32 a small))

module _ (v : Curve) where
  pub length-points_bytes : (ps : List v.Point) → length (points_bytes v ps) ≡ 32 * length ps
  length-points_bytes [] = refl
  length-points_bytes (p ∷ ps) =
      let rest = length-points_bytes ps in
      let whole = length-append (point_bytes v p) (points_bytes v ps) in
      let here = length-to_le_bytes 32 (v.compress p) in omega arith

  pub length-scalars_bytes : (xs : List v.Scalar) → length (scalars_bytes v xs) ≡ 32 * length xs
  length-scalars_bytes [] = refl
  length-scalars_bytes (a ∷ xs) =
      let rest = length-scalars_bytes xs in
      let whole = length-append (scalar_bytes v a) (scalars_bytes v xs) in
      let here = length-to_le_bytes 32 (v.to_bytes a) in omega arith

  module _ (h : IsCurve v) where
    read_points-points_bytes :
        (ps : List v.Point) (pre rest : List ℕ) (off : ℕ)
        → length pre ≡ off
        → read_points v (length ps) off (pre ++ (points_bytes v ps ++ rest)) ≡ some ps
    unfolding read_points
    read_points-points_bytes [] pre rest off size = refl
    read_points-points_bytes (p ∷ ps) pre rest off size =
        let here = point_bytes v p in
        let more = points_bytes v ps in
        let joined : pre ++ ((here ++ more) ++ rest) ≡ pre ++ (here ++ (more ++ rest)) =
          ap (λ t. pre ++ t) (append_assoc here more rest) in
        let moved : pre ++ (here ++ (more ++ rest)) ≡ (pre ++ here) ++ (more ++ rest) =
          sym (append_assoc pre here (more ++ rest)) in
        let width = length-to_le_bytes 32 (v.compress p) in
        let whole = length-append pre here in
        let first : v.decompress (bytes_at off (pre ++ ((here ++ more) ++ rest))) ≡ some p =
          ap (λ t. v.decompress (bytes_at off t)) joined
          ∙ (ap v.decompress (field_at pre (more ++ rest) off (v.compress p) size (h.compress-lt p))
              ∙ h.decompress-compress p) in
        let others : read_points v (length ps) (off + 32) (pre ++ ((here ++ more) ++ rest))
            ≡ some ps =
          ap (read_points v (length ps) (off + 32)) (joined ∙ moved)
          ∙ read_points-points_bytes ps (pre ++ here) rest (off + 32) (omega arith) in
        rw (first, others) refl

    read_scalars-scalars_bytes :
        (xs : List v.Scalar) (pre rest : List ℕ) (off : ℕ)
        → length pre ≡ off
        → read_scalars v (length xs) off (pre ++ (scalars_bytes v xs ++ rest)) ≡ some xs
    unfolding read_scalars
    read_scalars-scalars_bytes [] pre rest off size = refl
    read_scalars-scalars_bytes (a ∷ xs) pre rest off size =
        let here = scalar_bytes v a in
        let more = scalars_bytes v xs in
        let joined : pre ++ ((here ++ more) ++ rest) ≡ pre ++ (here ++ (more ++ rest)) =
          ap (λ t. pre ++ t) (append_assoc here more rest) in
        let moved : pre ++ (here ++ (more ++ rest)) ≡ (pre ++ here) ++ (more ++ rest) =
          sym (append_assoc pre here (more ++ rest)) in
        let width = length-to_le_bytes 32 (v.to_bytes a) in
        let whole = length-append pre here in
        let first : v.from_canonical_bytes (bytes_at off (pre ++ ((here ++ more) ++ rest)))
            ≡ some a =
          ap (λ t. v.from_canonical_bytes (bytes_at off t)) joined
          ∙ (ap v.from_canonical_bytes
                (field_at pre (more ++ rest) off (v.to_bytes a) size (h.to_bytes-lt a))
              ∙ h.from_canonical_bytes-to_bytes a) in
        let others : read_scalars v (length xs) (off + 32) (pre ++ ((here ++ more) ++ rest))
            ≡ some xs =
          ap (read_scalars v (length xs) (off + 32)) (joined ∙ moved)
          ∙ read_scalars-scalars_bytes xs (pre ++ here) rest (off + 32) (omega arith) in
        rw (first, others) refl

  -- What all lists of a proof for `m` bits satisfy.
  pub record HasBits (m : ℕ) (p : OneOfManyProof v) : Type 0 where
    pub cl_bits : length p.cl ≡ m
    pub ca_bits : length p.ca ≡ m
    pub cb_bits : length p.cb ≡ m
    pub gk_bits : length p.gk ≡ m
    pub fj_bits : length p.fj ≡ m
    pub zaj_bits : length p.zaj ≡ m
    pub zbj_bits : length p.zbj ≡ m

  pub length-write_proof :
      (m : ℕ) (p : OneOfManyProof v)
      → HasBits m p
      → length (write_proof v m p) ≡ 1 + (7 * m + 1) * 32
  unfolding write_proof
  length-write_proof m p bits =
      let cl = points_bytes v p.cl in
      let ca = points_bytes v p.ca in
      let cb = points_bytes v p.cb in
      let gk = points_bytes v p.gk in
      let fj = scalars_bytes v p.fj in
      let zaj = scalars_bytes v p.zaj in
      let zbj = scalars_bytes v p.zbj in
      let zd = scalar_bytes v p.zd in
      let whole_cl = length-append cl (ca ++ (cb ++ (gk ++ (fj ++ (zaj ++ (zbj ++ zd)))))) in
      let cl_size = length-points_bytes p.cl ∙ ap (λ k. 32 * k) bits.cl_bits in
      let whole_ca = length-append ca (cb ++ (gk ++ (fj ++ (zaj ++ (zbj ++ zd))))) in
      let ca_size = length-points_bytes p.ca ∙ ap (λ k. 32 * k) bits.ca_bits in
      let whole_cb = length-append cb (gk ++ (fj ++ (zaj ++ (zbj ++ zd)))) in
      let cb_size = length-points_bytes p.cb ∙ ap (λ k. 32 * k) bits.cb_bits in
      let whole_gk = length-append gk (fj ++ (zaj ++ (zbj ++ zd))) in
      let gk_size = length-points_bytes p.gk ∙ ap (λ k. 32 * k) bits.gk_bits in
      let whole_fj = length-append fj (zaj ++ (zbj ++ zd)) in
      let fj_size = length-scalars_bytes p.fj ∙ ap (λ k. 32 * k) bits.fj_bits in
      let whole_zaj = length-append zaj (zbj ++ zd) in
      let zaj_size = length-scalars_bytes p.zaj ∙ ap (λ k. 32 * k) bits.zaj_bits in
      let whole_zbj = length-append zbj zd in
      let zbj_size = length-scalars_bytes p.zbj ∙ ap (λ k. 32 * k) bits.zbj_bits in
      let last = length-to_le_bytes 32 (v.to_bytes p.zd) in omega arith

  -- The bytes from an offset on.
  abbrev Left : (written : List ℕ) (off : ℕ) (rest : List ℕ) → Type 0
  Left written off rest = (pre : List ℕ) × (length pre ≡ off) × (written ≡ pre ++ rest)

  skip :
      (written field rest : List ℕ) (off next : ℕ)
      → off + length field ≡ next
      → Left written off (field ++ rest)
      → Left written next rest
  skip written field rest off next step (pre, size, same) =
      let whole = length-append pre field in
      (pre ++ field, omega arith, same ∙ sym (append_assoc pre field rest))

  module _ (h : IsCurve v) (m : ℕ) (written : List ℕ) where
    next_points :
        (off next : ℕ) (ps : List v.Point) (rest : List ℕ)
        → length ps ≡ m
        → off + 32 * m ≡ next
        → Left written off (points_bytes v ps ++ rest)
        → (read_points v m off written ≡ some ps) × Left written next rest
    next_points off next ps rest count step (pre, size, same) =
        let width = length-points_bytes ps ∙ ap (λ n. 32 * n) count in
        (
          ap₂ (λ n t. read_points v n off t) (sym count) same
              ∙ read_points-points_bytes h ps pre rest off size,
          skip written (points_bytes v ps) rest off next (omega arith) (pre, size, same),
        )

    next_scalars :
        (off next : ℕ) (xs : List v.Scalar) (rest : List ℕ)
        → length xs ≡ m
        → off + 32 * m ≡ next
        → Left written off (scalars_bytes v xs ++ rest)
        → (read_scalars v m off written ≡ some xs) × Left written next rest
    next_scalars off next xs rest count step (pre, size, same) =
        let width = length-scalars_bytes xs ∙ ap (λ n. 32 * n) count in
        (
          ap₂ (λ n t. read_scalars v n off t) (sym count) same
              ∙ read_scalars-scalars_bytes h xs pre rest off size,
          skip written (scalars_bytes v xs) rest off next (omega arith) (pre, size, same),
        )

    last_scalar :
        (off : ℕ) (a : v.Scalar)
        → Left written off (scalar_bytes v a)
        → v.from_canonical_bytes (bytes_at off written) ≡ some a
    last_scalar off a (pre, size, same) =
        ap (λ t. v.from_canonical_bytes (bytes_at off t))
          (same ∙ ap (λ t. pre ++ t) (sym (append-nil (scalar_bytes v a))))
        ∙ (ap v.from_canonical_bytes (field_at pre [] off (v.to_bytes a) size (h.to_bytes-lt a))
            ∙ h.from_canonical_bytes-to_bytes a)

  -- A proof that is written is read again.
  pub read_proof-write_proof :
      (h : IsCurve v) (m : ℕ) (p : OneOfManyProof v)
      → HasBits m p
      → read_proof v m (write_proof v m p) ≡ some p
  unfolding read_proof write_proof
  read_proof-write_proof h m p bits =
      let w = write_proof v m p in
      let (cl, after_cl) =
        next_points h m w 1 (1 + 32 * m) p.cl _ bits.cl_bits (omega arith)
          ((m % 256) ∷ [], refl, refl) in
      let (ca, after_ca) =
        next_points h m w (1 + 32 * m) (1 + 64 * m) p.ca _ bits.ca_bits (omega arith) after_cl in
      let (cb, after_cb) =
        next_points h m w (1 + 64 * m) (1 + 96 * m) p.cb _ bits.cb_bits (omega arith) after_ca in
      let (gk, after_gk) =
        next_points h m w (1 + 96 * m) (1 + 128 * m) p.gk _ bits.gk_bits (omega arith) after_cb in
      let (fj, after_fj) =
        next_scalars h m w (1 + 128 * m) (1 + 160 * m) p.fj _ bits.fj_bits (omega arith) after_gk in
      let (zaj, after_zaj) =
        next_scalars h m w (1 + 160 * m) (1 + 192 * m) p.zaj _ bits.zaj_bits (omega arith)
          after_fj in
      let (zbj, after_zbj) =
        next_scalars h m w (1 + 192 * m) (1 + 224 * m) p.zbj _ bits.zbj_bits (omega arith)
          after_zaj in
      let zd = last_scalar h m w (1 + 224 * m) p.zd after_zbj in
      rw (cl, ca, cb, gk, fj, zaj, zbj, zd) refl
