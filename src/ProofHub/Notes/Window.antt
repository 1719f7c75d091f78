-- ===== src/ProofHub/Notes/Window.antt =====
-- The window of recent roots of the ProofHub pallet (proofhub/pallets/proofs/src/lib.rs,
-- `push_recent` and `commit_merkle`).
use nulla_relay.Prelude.{
  ℕ, zero, suc, ◌-◌, ◌≤◌, ◌<◌, true, false, List, [], ◌∷◌, ◌++◌, ◌≡◌, refl, sym, ap, ◌∙◌, arith,
  ltb, leb, length, drop, length-append, length-drop, append-nil, append_assoc, by_true, ltb→lt,
}
use nulla_relay.Frame.{dispatch}
use nulla_relay.ProofHub.Storage.{State}
use nulla_relay.ProofHub.Notes.{push_recent, commit_merkle}

abbrev pub last_64 : List ℕ → List ℕ
last_64 xs = drop (length xs - 64) xs

drop_one-drop : (n : ℕ) (xs : List ℕ) → drop 1 (drop n xs) ≡ drop (suc n) xs
drop_one-drop zero xs = refl
drop_one-drop (suc n) [] = refl
drop_one-drop (suc n) (x ∷ xs) = drop_one-drop n xs

drop-append : (n : ℕ) (xs ys : List ℕ) → n ≤ length xs → drop n (xs ++ ys) ≡ drop n xs ++ ys
drop-append zero xs ys l = refl
drop-append (suc n) [] ys l = ground arith
drop-append (suc n) (x ∷ xs) ys l = drop-append n xs ys (omega arith)

push_recent_short : (p : ℕ) (w : List ℕ) → length w < 64 → push_recent p w ≡ w ++ p ∷ []
unfolding push_recent
push_recent_short p w short =
    let not_full : leb 64 (length w) ≡ false = ground arith in
    let room : ltb (length w) 64 ≡ true = ground arith in rw (not_full, room) refl

push_recent_full : (p : ℕ) (w : List ℕ) → length w ≡ 64 → push_recent p w ≡ drop 1 w ++ p ∷ []
unfolding push_recent
push_recent_full p w full =
    let shorter = length-drop 1 w in
    let is_full : leb 64 (length w) ≡ true = ground arith in
    let room : ltb (length (drop 1 w)) 64 ≡ true = ground arith in rw (is_full, room) refl

push_recent-last : (p : ℕ) (xs : List ℕ) → push_recent p (last_64 xs) ≡ last_64 (xs ++ p ∷ [])
push_recent-last p xs =
    let longer = length-append xs (p ∷ []) in
    by_true (ltb (length xs) 64)
      (λ long.
        let kept = length-drop (length xs - 64) xs in
        let full : length (last_64 xs) ≡ 64 = ground arith in
        let next : length (xs ++ p ∷ []) - 64 ≡ suc (length xs - 64) = ground arith in
        push_recent_full p (last_64 xs) full
        ∙ ap (λ w. w ++ p ∷ []) (drop_one-drop (length xs - 64) xs)
        ∙ sym (drop-append (suc (length xs - 64)) xs (p ∷ []) (ground arith))
        ∙ ap (λ n. drop n (xs ++ p ∷ [])) (sym next))
      (λ short.
        let few : length xs < 64 = ltb→lt (length xs) 64 short in
        let all : length xs - 64 ≡ 0 = omega arith in
        let all' : length (xs ++ p ∷ []) - 64 ≡ 0 = omega arith in
        ap (λ n. push_recent p (drop n xs)) all
        ∙ push_recent_short p xs few
        ∙ ap (λ n. drop n (xs ++ p ∷ [])) (sym all'))

-- A sequence of commits, each of leaves and of their root.
abbrev pub commits : List (List ℕ × ℕ) → State → State
commits [] s = s
commits ((leaves, root) ∷ rest) s = commits rest (dispatch (commit_merkle leaves root) s)

-- The roots that each commit of a sequence replaces, the oldest first.
abbrev pub replaced : ℕ → List (List ℕ × ℕ) → List ℕ
replaced current [] = []
replaced current ((leaves, root) ∷ rest) = current ∷ replaced root rest

commits_extend :
    (cs : List (List ℕ × ℕ)) (before : List ℕ) (s : State)
    → s.recent_roots ≡ last_64 before
    → (commits cs s).recent_roots ≡ last_64 (before ++ replaced s.current_root cs)
unfolding commit_merkle
commits_extend [] before s e = rw (append-nil before) e
commits_extend ((leaves, root) ∷ rest) before s e =
    rw (sym (append_assoc before (s.current_root ∷ []) (replaced root rest))) (
      commits_extend rest (before ++ s.current_root ∷ []) (dispatch (commit_merkle leaves root) s)
        (ap (push_recent s.current_root) e ∙ push_recent-last s.current_root before))

-- From an empty window, `RecentRoots` holds after any sequence of commits the last 64 of the roots
-- that the commits replaced, the oldest first, and all of them if they are fewer.
pub recent_roots_window :
    (cs : List (List ℕ × ℕ)) (s : State)
    → s.recent_roots ≡ []
    → (commits cs s).recent_roots ≡ last_64 (replaced s.current_root cs)
recent_roots_window cs s e = commits_extend cs [] s e
