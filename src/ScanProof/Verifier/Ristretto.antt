-- ===== src/ScanProof/Verifier/Ristretto.antt =====
-- What the verifier of ScanProof (scanproof/verifier/src/lib.rs) calls of other crates: scalars and
-- points of Ristretto (curve25519_dalek), transcripts (merlin) and hashes (sha2, blake2).
use nulla_relay.Prelude.{ℕ, ◌+◌, ◌^◌, ◌<◌, Bool, true, Option, some, List, [], ◌∷◌, ◌≡◌}

-- A point or a scalar of 32 bytes is the number of these bytes. `challenge` is the scalar that a
-- transcript gives for its label and the labelled messages appended, reduced from 64 bytes, and
-- `wide` is that reduction.
pub record Curve : Type 1 where
  pub Scalar : Type 0
  pub Point : Type 0
  pub zero_scalar : Scalar
  pub one_scalar : Scalar
  pub add : Scalar → Scalar → Scalar
  pub sub : Scalar → Scalar → Scalar
  pub mul : Scalar → Scalar → Scalar
  pub negate : Scalar → Scalar
  pub of_u64 : ℕ → Scalar
  pub from_bytes_mod_order : ℕ → Scalar
  pub from_canonical_bytes : ℕ → Option Scalar
  pub to_bytes : Scalar → ℕ
  pub wide : List ℕ → Scalar
  pub plus : Point → Point → Point
  pub minus : Point → Point → Point
  pub identity : Point
  pub times : Scalar → Point → Point
  pub multiscalar : List Scalar → List Point → Point
  pub same : Point → Point → Bool
  pub basepoint : Point
  pub from_uniform_bytes : List ℕ → Point
  pub compress : Point → ℕ
  pub decompress : ℕ → Option Point
  pub sha512 : List ℕ → List ℕ
  pub blake2b512 : List ℕ → List ℕ
  pub challenge : (label : List ℕ) (messages : List (List ℕ × List ℕ)) → Scalar

-- What these crates document: the points are a group on which the scalars act, equal points compare
-- as equal, an encoding has 32 bytes and is decoded to what was encoded, the identity is encoded as zeros, and the scalar of a sum is
-- the sum of the scalars.
pub record IsCurve (v : Curve) : Type 0 where
  pub plus_comm : (p q : v.Point) → v.plus p q ≡ v.plus q p
  pub plus_assoc : (p q r : v.Point) → v.plus (v.plus p q) r ≡ v.plus p (v.plus q r)
  pub minus-plus : (p q : v.Point) → v.minus (v.plus p q) q ≡ p
  pub times-add :
      (a b : v.Scalar) (p : v.Point) → v.times (v.add a b) p ≡ v.plus (v.times a p) (v.times b p)
  pub times-mul : (a b : v.Scalar) (p : v.Point) → v.times (v.mul a b) p ≡ v.times a (v.times b p)
  pub times-plus :
      (a : v.Scalar) (p q : v.Point) → v.times a (v.plus p q) ≡ v.plus (v.times a p) (v.times a q)
  pub multiscalar_nil : v.multiscalar [] [] ≡ v.identity
  pub multiscalar_cons :
      (a : v.Scalar) (more : List v.Scalar) (p : v.Point) (ps : List v.Point)
      → v.multiscalar (a ∷ more) (p ∷ ps) ≡ v.plus (v.times a p) (v.multiscalar more ps)
  pub same_refl : (p : v.Point) → v.same p p ≡ true
  pub decompress_zero : v.decompress 0 ≡ some v.identity
  pub decompress-compress : (p : v.Point) → v.decompress (v.compress p) ≡ some p
  pub compress-lt : (p : v.Point) → v.compress p < 256 ^ 32
  pub from_canonical_bytes-to_bytes :
      (a : v.Scalar) → v.from_canonical_bytes (v.to_bytes a) ≡ some a
  pub from_bytes_mod_order-to_bytes : (a : v.Scalar) → v.from_bytes_mod_order (v.to_bytes a) ≡ a
  pub to_bytes-lt : (a : v.Scalar) → v.to_bytes a < 256 ^ 32
  pub of_u64-add : (a b : ℕ) → v.of_u64 (a + b) ≡ v.add (v.of_u64 a) (v.of_u64 b)
  pub add-sub : (a b : v.Scalar) → v.add (v.sub a b) b ≡ a

-- What curve25519_dalek documents of the scalars, the integers modulo a prime: a commutative ring,
-- whose one and zero act on the points as they should.
pub record IsRing (v : Curve) : Type 0 where
  pub add_comm : (a b : v.Scalar) → v.add a b ≡ v.add b a
  pub add_assoc : (a b c : v.Scalar) → v.add (v.add a b) c ≡ v.add a (v.add b c)
  pub add_zero : (a : v.Scalar) → v.add a v.zero_scalar ≡ a
  pub add_negate : (a : v.Scalar) → v.add a (v.negate a) ≡ v.zero_scalar
  pub sub_as_add : (a b : v.Scalar) → v.sub a b ≡ v.add a (v.negate b)
  pub mul_comm : (a b : v.Scalar) → v.mul a b ≡ v.mul b a
  pub mul_assoc : (a b c : v.Scalar) → v.mul (v.mul a b) c ≡ v.mul a (v.mul b c)
  pub mul_one : (a : v.Scalar) → v.mul a v.one_scalar ≡ a
  pub mul_zero : (a : v.Scalar) → v.mul a v.zero_scalar ≡ v.zero_scalar
  pub mul-add : (a b c : v.Scalar) → v.mul a (v.add b c) ≡ v.add (v.mul a b) (v.mul a c)
  pub of_u64_zero : v.of_u64 0 ≡ v.zero_scalar
  pub of_u64_one : v.of_u64 1 ≡ v.one_scalar
  pub times_zero : (p : v.Point) → v.times v.zero_scalar p ≡ v.identity
  pub times_one : (p : v.Point) → v.times v.one_scalar p ≡ p
  pub plus_identity : (p : v.Point) → v.plus p v.identity ≡ p
