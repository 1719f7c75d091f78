-- ===== src/ScanProof/Verifier/Tests/TwoPoints.antt =====
-- The smallest group that ScanProof's verifier (scanproof/verifier/src/lib.rs) can run over: two points,
-- with the integers modulo two as scalars.
use nulla_relay.Prelude.{
  ℕ, zero, suc, ◌+◌, ◌<◌, ◌^◌, Bool, true, false, not, ◌&&◌, Option, none, some, List, [], ◌∷◌, ◌≡◌,
  refl, ap, ◌∙◌, arith, replicate, length,
}
use nulla_relay.ScanProof.Verifier.Ristretto.{Curve, IsCurve, IsRing}

-- The field and the group of two elements.
abbrev pub xor : Bool → Bool → Bool
xor false b = b
xor true false = true
xor true true = false

abbrev pub equal : Bool → Bool → Bool
equal false false = true
equal false true = false
equal true b = b

abbrev pub is_odd : ℕ → Bool
is_odd zero = false
is_odd (suc n) = not (is_odd n)

abbrev pub to_number : Bool → ℕ
to_number false = 0
to_number true = 1

abbrev pub from_number : ℕ → Option Bool
from_number zero = some false
from_number (suc zero) = some true
from_number (suc (suc n)) = none

abbrev pub combine : List Bool → List Bool → Bool
combine [] ps = false
combine (a ∷ more) [] = false
combine (a ∷ more) (p ∷ ps) = xor (a && p) (combine more ps)

abbrev pub curve : Curve
curve = record {
  Scalar = Bool;
  Point = Bool;
  zero_scalar = false;
  one_scalar = true;
  add = xor;
  sub = xor;
  mul = λ a b. a && b;
  negate = λ a. a;
  of_u64 = is_odd;
  from_bytes_mod_order = is_odd;
  from_canonical_bytes = from_number;
  to_bytes = to_number;
  wide = λ bytes. is_odd (length bytes);
  plus = xor;
  minus = xor;
  identity = false;
  times = λ a p. a && p;
  multiscalar = combine;
  same = equal;
  basepoint = true;
  from_uniform_bytes = λ bytes. true;
  compress = to_number;
  decompress = from_number;
  sha512 = λ bytes. replicate 64 0;
  blake2b512 = λ bytes. replicate 64 0;
  challenge = λ label messages. true;
}

xor_comm : (p q : Bool) → xor p q ≡ xor q p
xor_comm false false = refl
xor_comm false true = refl
xor_comm true false = refl
xor_comm true true = refl

xor_assoc : (p q r : Bool) → xor (xor p q) r ≡ xor p (xor q r)
xor_assoc false q r = refl
xor_assoc true false r = refl
xor_assoc true true false = refl
xor_assoc true true true = refl

xor-xor : (p q : Bool) → xor (xor p q) q ≡ p
xor-xor false false = refl
xor-xor false true = refl
xor-xor true false = refl
xor-xor true true = refl

and-xor : (a b p : Bool) → xor a b && p ≡ xor (a && p) (b && p)
and-xor false b p = refl
and-xor true false false = refl
and-xor true false true = refl
and-xor true true false = refl
and-xor true true true = refl

xor-and : (a p q : Bool) → a && xor p q ≡ xor (a && p) (a && q)
xor-and false p q = refl
xor-and true p q = refl

and_assoc : (a b p : Bool) → (a && b) && p ≡ a && (b && p)
and_assoc false b p = refl
and_assoc true b p = refl

equal_self : (p : Bool) → equal p p ≡ true
equal_self false = refl
equal_self true = refl

from_number-to_number : (p : Bool) → from_number (to_number p) ≡ some p
from_number-to_number false = refl
from_number-to_number true = refl

is_odd-to_number : (p : Bool) → is_odd (to_number p) ≡ p
is_odd-to_number false = refl
is_odd-to_number true = refl

to_number-lt : (p : Bool) → to_number p < 256 ^ 32
to_number-lt false = omega arith
to_number-lt true = omega arith

not-xor : (p q : Bool) → not (xor p q) ≡ xor (not p) q
not-xor false false = refl
not-xor false true = refl
not-xor true false = refl
not-xor true true = refl

is_odd-add : (a b : ℕ) → is_odd (a + b) ≡ xor (is_odd a) (is_odd b)
is_odd-add zero b = let same : 0 + b ≡ b = omega arith in ap is_odd same
is_odd-add (suc a) b =
    let next : suc a + b ≡ suc (a + b) = omega arith in
    ap is_odd next ∙ (ap not (is_odd-add a b) ∙ not-xor (is_odd a) (is_odd b))

pub curve-IsCurve : IsCurve curve
curve-IsCurve = record {
  plus_comm = xor_comm;
  plus_assoc = xor_assoc;
  minus-plus = xor-xor;
  times-add = and-xor;
  times-mul = and_assoc;
  times-plus = xor-and;
  multiscalar_nil = refl;
  multiscalar_cons = λ a more p ps. refl;
  same_refl = equal_self;
  decompress_zero = refl;
  decompress-compress = from_number-to_number;
  compress-lt = to_number-lt;
  from_canonical_bytes-to_bytes = from_number-to_number;
  from_bytes_mod_order-to_bytes = is_odd-to_number;
  to_bytes-lt = to_number-lt;
  of_u64-add = is_odd-add;
  add-sub = xor-xor;
}

xor_self : (p : Bool) → xor p p ≡ false
xor_self false = refl
xor_self true = refl

xor_zero : (p : Bool) → xor p false ≡ p
xor_zero false = refl
xor_zero true = refl

and_comm : (p q : Bool) → p && q ≡ q && p
and_comm false false = refl
and_comm false true = refl
and_comm true false = refl
and_comm true true = refl

and_one : (p : Bool) → p && true ≡ p
and_one false = refl
and_one true = refl

and_none : (p : Bool) → p && false ≡ false
and_none false = refl
and_none true = refl

pub curve-IsRing : IsRing curve
curve-IsRing = record {
  add_comm = xor_comm;
  add_assoc = xor_assoc;
  add_zero = xor_zero;
  add_negate = xor_self;
  sub_as_add = λ a b. refl;
  mul_comm = and_comm;
  mul_assoc = and_assoc;
  mul_one = and_one;
  mul_zero = and_none;
  mul-add = xor-and;
  of_u64_zero = refl;
  of_u64_one = refl;
  times_zero = λ p. refl;
  times_one = λ p. refl;
  plus_identity = xor_zero;
}
