-- ===== src/ScanProof/Verifier/Rng.antt =====
-- The deterministic generator of ScanProof's verifier (scanproof/verifier/src/lib.rs), from which a
-- wallet draws the nonces of a proof.
use nulla_relay.Prelude.{
  ℕ, zero, suc, ◌+◌, ◌-◌, ◌%◌, ◌^◌, List, [], ◌++◌, ◌==◌, leb, min, if◌then◌else◌, take, drop,
  replicate, to_le_bytes,
}
use nulla_relay.ScanProof.Verifier.Ristretto.{Curve}

pub record DeterministicRng : Type 0 where
  pub seed : ℕ
  pub ctr : ℕ
  pub buf : List ℕ
  pub idx : ℕ

-- `DeterministicRng::new`
unfoldable pub new_rng : ℕ → DeterministicRng
new_rng seed = record { seed = seed; ctr = 0; buf = replicate 64 0; idx = 64 }

module _ (v : Curve) where
  unfoldable pub refill : DeterministicRng → DeterministicRng
  refill g = record g {
    buf = take 64 (v.blake2b512 (to_le_bytes 32 g.seed ++ to_le_bytes 8 g.ctr));
    idx = 0;
    ctr = (g.ctr + 1) % 2 ^ 64;
  }

  abbrev pub refilled : DeterministicRng → DeterministicRng
  refilled g = if leb 64 g.idx then refill g else g

  -- `fill_bytes` of so many bytes, on fuel: each round gives one byte at least.
  unfoldable pub fill_bytes : (fuel count : ℕ) → DeterministicRng → List ℕ × DeterministicRng
  fill_bytes zero count g = ([], g)
  fill_bytes (suc fuel) count g =
      let ready = refilled g in
      let need = min (64 - ready.idx) count in
      let rest = fill_bytes fuel (count - need) (record ready { idx = ready.idx + need }) in
      if count == 0 then ([], g) else (take need (drop ready.idx ready.buf) ++ rest.0, rest.1)

  unfoldable pub scalar_from_rng : DeterministicRng → v.Scalar × DeterministicRng
  scalar_from_rng g = let (bytes, g') = fill_bytes 64 64 g in (v.wide bytes, g')
