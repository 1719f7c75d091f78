-- ===== src/Bridge/Fields.antt =====
-- A codec of fixed widths over little-endian bytes, for the messages between the chains
-- (proofhub/runtime/src/configs/mod.rs).
use native.Mathlib.Nat.{pow-succ'}
use nulla_relay.Prelude.{
  ℕ, zero, suc, ◌+◌, ◌/◌, ◌^◌, ◌<◌, Option, none, some, List, [], ◌∷◌, ◌++◌, ◌≡◌, refl, arith,
  length, to_le_bytes, from_le_bytes, ap, sym, ◌∙◌, by_some,
}
use nulla_relay.Bridge.{Codec, IsFixedWidth, total}

-- The next `n` bytes and the rest.
abbrev pub split_bytes : ℕ → List ℕ → Option (List ℕ × List ℕ)
split_bytes zero bytes = some ([], bytes)
split_bytes (suc n) [] = none
split_bytes (suc n) (b ∷ bytes) = elim (split_bytes n bytes) [
  | none ↦ none
  | some p ↦ some (b ∷ p.0, p.1)
]

abbrev read_next : (List ℕ → Option (List ℕ)) → Option (List ℕ × List ℕ) → Option (List ℕ)
read_next more none = none
read_next more (some p) = elim (more p.1) [
  | none ↦ none
  | some values ↦ some (from_le_bytes p.0 ∷ values)
]

-- One number for each width.
abbrev pub read_fields : List ℕ → List ℕ → Option (List ℕ)
read_fields [] bytes = some []
read_fields (w ∷ widths) bytes = read_next (read_fields widths) (split_bytes w bytes)

pub length-to_le_bytes : (n x : ℕ) → length (to_le_bytes n x) ≡ n
unfolding to_le_bytes
length-to_le_bytes zero x = refl
length-to_le_bytes (suc n) x = omega (arith, length-to_le_bytes n (x / 256))

pub from_le_bytes-to_le_bytes : (n x : ℕ) → x < 256 ^ n → from_le_bytes (to_le_bytes n x) ≡ x
unfolding to_le_bytes from_le_bytes
from_le_bytes-to_le_bytes zero x small = omega arith
from_le_bytes-to_le_bytes (suc n) x small =
    let wider = pow-succ' 256 n in
    let high = from_le_bytes-to_le_bytes n (x / 256) (omega arith) in omega arith

pub split_bytes-append : (xs ys : List ℕ) → split_bytes (length xs) (xs ++ ys) ≡ some (xs, ys)
split_bytes-append [] ys = refl
split_bytes-append (x ∷ xs) ys = rw (split_bytes-append xs ys) refl

split_bytes-to_le_bytes :
    (w x : ℕ) (rest : List ℕ)
    → split_bytes w (to_le_bytes w x ++ rest) ≡ some (to_le_bytes w x, rest)
split_bytes-to_le_bytes w x rest =
    ap (λ n. split_bytes n (to_le_bytes w x ++ rest)) (sym (length-to_le_bytes w x))
    ∙ split_bytes-append (to_le_bytes w x) rest

-- A field that was encoded is read back.
pub read_fields-to_le_bytes :
    (w x : ℕ) (widths rest values : List ℕ)
    → x < 256 ^ w
    → read_fields widths rest ≡ some values
    → read_fields (w ∷ widths) (to_le_bytes w x ++ rest) ≡ some (x ∷ values)
read_fields-to_le_bytes w x widths rest values small more =
    rw (split_bytes-to_le_bytes w x rest, more, from_le_bytes-to_le_bytes w x small) refl

abbrev left_over : Option (List ℕ × List ℕ) → ℕ
left_over none = 0
left_over (some p) = length p.1

length-split_bytes :
    (n : ℕ) (bytes : List ℕ) (p : List ℕ × List ℕ)
    → split_bytes n bytes ≡ some p
    → n + length p.1 ≡ length bytes
length-split_bytes zero bytes p e = let same = ap left_over e in omega arith
length-split_bytes (suc n) [] p e = ground arith
length-split_bytes (suc n) (b ∷ bytes) p e =
    by_some (split_bytes n bytes)
      (λ stuck.
        let stops : split_bytes (suc n) (b ∷ bytes) ≡ none = rw stuck refl in
        let impossible : none ≡ some p = sym stops ∙ e in ground arith)
      λ q more.
        let goes : split_bytes (suc n) (b ∷ bytes) ≡ some (b ∷ q.0, q.1) = rw more refl in
        let same : length q.1 ≡ length p.1 = ap left_over (sym goes ∙ e) in
        let rest = length-split_bytes n bytes q more in omega arith

-- Too few bytes for the widths are refused.
pub read_fields_short :
    (widths bytes : List ℕ) → length bytes < total widths → read_fields widths bytes ≡ none
read_fields_short [] bytes short = ground arith
read_fields_short (w ∷ widths) bytes short =
    by_some (split_bytes w bytes) (λ stuck. rw stuck refl)
      λ p split.
        let parts = length-split_bytes w bytes p split in
        rw (split, read_fields_short widths p.1 (omega arith)) refl

abbrev pub le_codec : Codec
le_codec = record { encode = to_le_bytes; decode = read_fields }

pub le_codec-IsFixedWidth : IsFixedWidth le_codec
le_codec-IsFixedWidth = record {
  width = length-to_le_bytes;
  done = refl;
  next = read_fields-to_le_bytes;
  short = read_fields_short;
}
