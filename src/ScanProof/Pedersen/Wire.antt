-- ===== src/ScanProof/Pedersen/Wire.antt =====
-- The wire format of a deposit to the ScanProof pallet (scanproof/pallets/proofs/src/lib.rs): what a
-- wallet writes is what `deposit_public` reads.
use nulla_relay.Prelude.{
  ℕ, suc, ◌+◌, ◌-◌, ◌%◌, ◌^◌, ◌≤◌, ◌<◌, true, some, List, [], ◌∷◌, ◌++◌, ◌≡◌, refl, sym, ap, ◌∙◌,
  arith, length, length-append, append-nil, append_assoc, none, by_true, false, get_or, take, drop,
  slice, leb, to_le_bytes, from_le_bytes,
}
use nulla_relay.Frame.{ok, err, panicked}
use nulla_relay.Bridge.Fields.{length-to_le_bytes, from_le_bytes-to_le_bytes}
use nulla_relay.ScanProof.Storage.{State}
use nulla_relay.ScanProof.Pedersen.{wire_end, read_wire}

take-append : (xs ys : List ℕ) → take (length xs) (xs ++ ys) ≡ xs
take-append [] ys = refl
take-append (x ∷ xs) ys = ap (λ t. x ∷ t) (take-append xs ys)

drop-append : (xs ys : List ℕ) → drop (length xs) (xs ++ ys) ≡ ys
drop-append [] ys = refl
drop-append (x ∷ xs) ys = drop-append xs ys

le→leb : (a b : ℕ) → a ≤ b → leb a b ≡ true
le→leb a b h = ground arith

-- A slice that ends within the list.
slice_lem :
    (start end : ℕ) (xs : List ℕ)
    → start ≤ end
    → end ≤ length xs
    → slice start end xs ≡ some (take (end - start) (drop start xs))
slice_lem start end xs first last = rw (le→leb start end first, le→leb end (length xs) last) refl

-- The middle of three parts.
slice_middle :
    (xs ys zs : List ℕ) (start end : ℕ)
    → start ≡ length xs
    → end ≡ length xs + length ys
    → slice start end (xs ++ (ys ++ zs)) ≡ some ys
slice_middle xs ys zs start end e e' =
    let whole = length-append xs (ys ++ zs) in
    let rest = length-append ys zs in
    let size : end - start ≡ length ys = omega arith in
    slice_lem start end (xs ++ (ys ++ zs)) (omega arith) (omega arith)
    ∙ rw (size, e, drop-append xs (ys ++ zs), take-append ys zs) refl

-- `[1][proof_len: u32][proof][amount: u64]`, as a wallet writes it.
abbrev pub write_wire : (proof : List ℕ) (amount : ℕ) → List ℕ
write_wire proof amount = 1 ∷ to_le_bytes 4 (length proof) ++ (proof ++ to_le_bytes 8 amount)

wire_end-write_wire :
    (proof : List ℕ) (amount : ℕ)
    → length proof + 13 < 2 ^ 32
    → wire_end (write_wire proof amount) ≡ 5 + length proof
unfolding wire_end to_le_bytes
wire_end-write_wire proof amount small =
    let size = from_le_bytes-to_le_bytes 4 (length proof) (omega arith) in rw size (omega arith)

module _ (proof : List ℕ) (amount : ℕ) (small : length proof + 13 < 2 ^ 32) where
  abbrev header : List ℕ
  header = 1 ∷ to_le_bytes 4 (length proof)

  length-header : length header ≡ 5
  length-header = ap suc (length-to_le_bytes 4 (length proof))

  length-write_wire : length (write_wire proof amount) ≡ length proof + 13
  length-write_wire =
      let whole = length-append header (proof ++ to_le_bytes 8 amount) in
      let rest = length-append proof (to_le_bytes 8 amount) in
      let first = length-header in let last = length-to_le_bytes 8 amount in omega arith

  read_proof : slice 5 (5 + length proof) (write_wire proof amount) ≡ some proof
  read_proof =
      let first = length-header in
      slice_middle header proof (to_le_bytes 8 amount) 5 (5 + length proof) (omega arith)
        (omega arith)

  read_amount :
      slice (5 + length proof) (5 + length proof + 8) (write_wire proof amount)
      ≡ some (to_le_bytes 8 amount)
  read_amount =
      let first = length-header in
      let last = length-to_le_bytes 8 amount in
      let both = length-append header proof in
      let parts : write_wire proof amount ≡ (header ++ proof) ++ (to_le_bytes 8 amount ++ []) =
        sym (append_assoc header proof (to_le_bytes 8 amount))
        ∙ ap (λ t. (header ++ proof) ++ t) (sym (append-nil (to_le_bytes 8 amount))) in
      ap (slice (5 + length proof) (5 + length proof + 8)) parts
      ∙ slice_middle (header ++ proof) (to_le_bytes 8 amount) [] (5 + length proof)
          (5 + length proof + 8) (omega arith) (omega arith)

  -- What a wallet writes for a proof of less than 2^32 - 13 bytes and an amount of 64 bits is read
  -- back as that proof and that amount, without an error or a panic.
  pub read_wire-write_wire :
      (s : State)
      → amount < 2 ^ 64
      → read_wire (write_wire proof amount) s ≡ (ok (proof, amount), s)
  unfolding read_wire
  read_wire-write_wire s few =
      let size = length-write_wire in
      let at = wire_end-write_wire proof amount small in
      let long = le→leb 13 (length (write_wire proof amount)) (omega arith) in
      let room =
        le→leb ((5 + length proof + 8) % 2 ^ 32) (length (write_wire proof amount)) (omega arith) in
      rw (long, at, room, read_proof, read_amount, from_le_bytes-to_le_bytes 8 amount few) refl

slice_outside :
    (start end : ℕ) (xs : List ℕ)
    → (leb start end ≡ true → leb end (length xs) ≡ false)
    → slice start end xs ≡ none
slice_outside start end xs out = by_true (leb start end) (λ e. rw e refl) (λ e. rw (e, out e) refl)

-- A length field within 13 of 2^32 gets past the checks of `deposit_public`, since the sum of the
-- lengths wraps around in 32 bits, and the slice that follows panics.
pub length_field_panics :
    (rp : List ℕ) (s : State) (len : ℕ)
    → 13 ≤ length rp
    → length rp ≤ 2 ^ 14
    → get_or rp 0 0 ≡ 1
    → from_le_bytes (take 4 (drop 1 rp)) ≡ len
    → 2 ^ 32 - 13 ≤ len
    → len < 2 ^ 32
    → read_wire rp s ≡ (err panicked, s)
unfolding read_wire wire_end
length_field_panics rp s len long short single field least most =
    let e = le→leb 13 (length rp) long in
    let wraps : ((5 + len) % 2 ^ 32 + 8) % 2 ^ 32 ≤ length rp = omega arith in
    let passes = le→leb (((5 + len) % 2 ^ 32 + 8) % 2 ^ 32) (length rp) wraps in
    let none_there = slice_outside 5 ((5 + len) % 2 ^ 32) rp (λ first. ground arith) in
    rw (e, single, field, passes, none_there) refl
