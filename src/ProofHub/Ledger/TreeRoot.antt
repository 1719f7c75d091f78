-- ===== src/ProofHub/Ledger/TreeRoot.antt =====
-- The v2 tree that the ProofHub pallet stores (proofhub/pallets/proofs/src/lib.rs), with the tree
-- of the verifier (proofhub/verifier/src/lib.rs) behind `v2_insert_leaf`.
use mathlib.Core.Path.{subst}
use nulla_relay.Prelude.{
  ℕ, zero, suc, ◌≤◌, ◌^◌, false, Option, none, some, List, [], ◌∷◌, ◌++◌, ◌≡◌, refl, sym, ap, ◌∙◌,
  ◌⊎◌, inl, inr, arith, ◌==◌, ltb, length, get_elem?, by_true, ltb→lt, ==_iff,
}
use nulla_relay.Frame.{Origin, dispatch, StorageMap}
use nulla_relay.Verifier.Tree.{
  Frontier, insert, root, with_root, v2_insert_leaf, reference_root, merkle_depth, default_frontier,
}
use nulla_relay.Verifier.Tree.Refinement.{
  Represents, default-Represents, insert-Represents, root-reference,
}
use nulla_relay.ProofHub.Types.{Config, Balances}
use nulla_relay.ProofHub.Storage.{State, build}
use nulla_relay.ProofHub.Spend.{set_rwa_price, set_access_config}
use nulla_relay.ProofHub.Calls.{Request, perform, run}
use nulla_relay.ProofHub.Effects.{spend, pay, grow}
use nulla_relay.ProofHub.Effects.Membership.{
  deposit_v2_rule, purchase_rwa_v2_rule, withdraw_v2_rule, purchase_access_v2_rule,
}
use nulla_relay.ProofHub.Ledger.Notes.{HasNoNotes, note_call_stops, perform-HasNoNotes}

abbrev pub frontier : State → Frontier
frontier s = record { nodes = s.frontier_nodes_v2; leaf_count = s.leaf_count_v2 }

module _ (hash2 : ℕ → ℕ → ℕ) where
  full_stops :
      (f : Frontier) (leaf : ℕ)
      → ltb f.leaf_count (2 ^ merkle_depth) ≡ false
      → v2_insert_leaf hash2 f.nodes f.leaf_count leaf ≡ none
  unfolding v2_insert_leaf insert
  full_stops f leaf full =
      let stops : insert hash2 f leaf ≡ none = rw full refl in ap (with_root hash2) stops

  goes_on :
      (f f' : Frontier) (leaf : ℕ)
      → insert hash2 f leaf ≡ some f'
      → v2_insert_leaf hash2 f.nodes f.leaf_count leaf
        ≡ some (f'.nodes, f'.leaf_count, root hash2 f')
  unfolding v2_insert_leaf
  goes_on f f' leaf e = ap (with_root hash2) e

  -- What a leaf that the tree takes in makes of it.
  abbrev pub Grown : List ℕ → (List ℕ × ℕ × ℕ) → Type 0
  Grown leaves g =
      Represents hash2 (record { nodes = g.0; leaf_count = g.1 }) leaves
      × (g.2 ≡ root hash2 (record { nodes = g.0; leaf_count = g.1 }))

  v2_insert_leaf-Grown :
      (f : Frontier) (leaves : List ℕ) (leaf : ℕ) (g : List ℕ × ℕ × ℕ)
      → Represents hash2 f leaves
      → v2_insert_leaf hash2 f.nodes f.leaf_count leaf ≡ some g
      → Grown (leaves ++ leaf ∷ []) g
  v2_insert_leaf-Grown f leaves leaf g h e =
      by_true (ltb f.leaf_count (2 ^ merkle_depth))
        (λ full. let none_left = full_stops f leaf full in ground arith)
        λ room.
          let small = ltb→lt f.leaf_count (2 ^ merkle_depth) room in
          let (f', inserted, h') =
            insert-Represents hash2 f leaves leaf h (rw (sym h.count) small) in
          let same : some g ≡ some (f'.nodes, f'.leaf_count, root hash2 f') =
            sym e ∙ goes_on f f' leaf inserted in
          subst (λ o. elim o [ none ↦ Unit {0} | some x ↦ Grown (leaves ++ leaf ∷ []) x ])
            (sym same) (h', refl)

  -- The leaves of the tree, in the order of their insertion: the nodes and the count are those of
  -- their frontier, the root is its root, and the index of a leaf is its place.
  pub record Stores (f : Frontier) (current_root : ℕ) (index : StorageMap (Option ℕ))
      (leaves : List ℕ) : Type 0 where
    pub represents : Represents hash2 f leaves
    pub rooted : (leaves ≡ []) ⊎ (current_root ≡ root hash2 f)
    pub placed : (leaf i : ℕ) → index leaf ≡ some i → get_elem? leaves i ≡ some leaf

  abbrev pub IsTree : State → Type 0
  IsTree s = (leaves : List ℕ) × Stores (frontier s) s.current_root_v2 s.leaf_index_v2 leaves

  get_elem?-append :
      (xs ys : List ℕ) (i x : ℕ) → get_elem? xs i ≡ some x → get_elem? (xs ++ ys) i ≡ some x
  get_elem?-append [] ys i x e = ground arith
  get_elem?-append (y ∷ xs) ys zero x e = e
  get_elem?-append (y ∷ xs) ys (suc i) x e = get_elem?-append xs ys i x e

  get_elem?-length : (xs : List ℕ) (x : ℕ) → get_elem? (xs ++ x ∷ []) (length xs) ≡ some x
  get_elem?-length [] x = refl
  get_elem?-length (y ∷ xs) x = get_elem?-length xs x

  some_injective : {a b : ℕ} → some a ≡ some b → a ≡ b
  some_injective {a = a} e = ap (λ o. elim o [ none ↦ a | some x ↦ x ]) e

-- A leaf with an index stands there.
abbrev pub StandsAt : List ℕ → ℕ → Option ℕ → Type 0
StandsAt leaves leaf none = Unit
StandsAt leaves leaf (some i) = get_elem? leaves i ≡ some leaf

stands :
    (leaves : List ℕ) (leaf : ℕ) (index : Option ℕ)
    → ((i : ℕ) → index ≡ some i → get_elem? leaves i ≡ some leaf)
    → StandsAt leaves leaf index
stands leaves leaf none placed = tt
stands leaves leaf (some i) placed = placed i refl

module _ (hash2 : ℕ → ℕ → ℕ) (c : Config)
    (wired : (nodes : List ℕ) (count leaf : ℕ)
      → c.v2_insert_leaf nodes count leaf ≡ v2_insert_leaf hash2 nodes count leaf) where
  grow-IsTree :
      (leaf : ℕ) (g : List ℕ × ℕ × ℕ) (s : State)
      → IsTree hash2 s
      → c.v2_insert_leaf s.frontier_nodes_v2 s.leaf_count_v2 leaf ≡ some g
      → IsTree hash2 (grow leaf g s)
  grow-IsTree leaf g s (leaves, t) e =
      let (represents, rooted) =
        v2_insert_leaf-Grown hash2 (frontier s) leaves leaf g t.represents
          (sym (wired s.frontier_nodes_v2 s.leaf_count_v2 leaf) ∙ e) in
      (
        leaves ++ leaf ∷ [],
        record {
          represents = represents;
          rooted = inr rooted;
          placed = λ l i.
              by_true (l == leaf)
                (λ other.
                  rw other λ at. get_elem?-append hash2 leaves (leaf ∷ []) i l (t.placed l i at))
                (λ same. rw same λ at.
                  let here = some_injective hash2 at in
                  let l≡leaf = (==_iff l leaf).0 same in
                  rw (sym here, t.represents.count, l≡leaf) (get_elem?-length hash2 leaves leaf));
        },
      )

  -- No note of the first version, and a v2 tree.
  abbrev IsSound : State → Type 0
  IsSound s = HasNoNotes s × IsTree hash2 s

  perform-IsTree :
      (o : Origin) (r : Request) (s : State) → IsSound s → IsTree hash2 (dispatch (perform c o r) s)
  unfolding perform set_rwa_price set_access_config
  perform-IsTree o (Request.deposit_legacy k p rp t hints) s (h, tree) =
      rw (note_call_stops c s h o (Request.deposit_legacy k p rp t hints) refl) tree
  perform-IsTree o (Request.purchase p i) s (h, tree) =
      rw (note_call_stops c s h o (Request.purchase p i) refl) tree
  perform-IsTree o (Request.withdraw p i) s (h, tree) =
      rw (note_call_stops c s h o (Request.withdraw p i) refl) tree
  perform-IsTree o (Request.access p i) s (h, tree) =
      rw (note_call_stops c s h o (Request.access p i) refl) tree
  perform-IsTree o (Request.relist x) s (h, tree) =
      rw (note_call_stops c s h o (Request.relist x) refl) tree
  perform-IsTree Origin.root (Request.price r p) s (h, tree) = tree
  perform-IsTree Origin.unsigned (Request.price r p) s (h, tree) = tree
  perform-IsTree (Origin.signed w) (Request.price r p) s (h, tree) = tree
  perform-IsTree Origin.root (Request.app a p x) s (h, tree) = tree
  perform-IsTree Origin.unsigned (Request.app a p x) s (h, tree) = tree
  perform-IsTree (Origin.signed w) (Request.app a p x) s (h, tree) = tree
  perform-IsTree o (Request.deposit l a p hints) s (h, tree) =
      deposit_v2_rule c (IsTree hash2) s tree o l a p hints
        λ who b g e proved paid grows. grow-IsTree l g (pay b s) tree grows.grown
  perform-IsTree o (Request.purchase_v2 a i p) s (h, tree) =
      purchase_rwa_v2_rule c (IsTree hash2) s tree o a i p
        λ x g e decoded priced signed shown grows.
          grow-IsTree x.change_leaf g (spend x.nullifier s) tree grows.grown
  perform-IsTree o (Request.withdraw_note_v2 a i p) s (h, tree) =
      withdraw_v2_rule c (IsTree hash2) s tree o a i p
        λ x dest b e decoded signed shown account paid. tree
  perform-IsTree o (Request.access_v2 a i p) s (h, tree) =
      purchase_access_v2_rule c (IsTree hash2) s tree o a i p
        λ x cfg g dest b e decoded listed priced signed shown grows account paid.
          grow-IsTree x.change_leaf g (spend x.nullifier s) tree grows.grown

  run-IsTree : (rs : List (Origin × Request)) (s : State) → IsSound s → IsTree hash2 (run c rs s)
  unfolding run
  run-IsTree [] s (h, tree) = tree
  run-IsTree ((o, r) ∷ rs) s (h, tree) =
      run-IsTree rs (dispatch (perform c o r) s)
        (perform-HasNoNotes c s h o r, perform-IsTree o r s (h, tree))

  build-IsTree : (balances : Balances) → IsTree hash2 (build balances)
  unfolding build default_frontier
  build-IsTree balances = (
    [],
    record {
      represents = default-Represents hash2;
      rooted = inl refl;
      placed = λ leaf i e. ground arith;
    },
  )

  -- With the verifier's tree behind `v2_insert_leaf`: on a chain that starts from
  -- `GenesisConfig::build`, whatever calls of the pallet have run, there is a list of leaves such
  -- that `LeafCountV2` is its length, every leaf in `LeafIndexV2` stands at its index in the list,
  -- and, unless the list is empty or has filled the tree, `CurrentRootV2` is the root of the whole
  -- tree over the list.
  pub current_root_refines :
      (balances : Balances) (rs : List (Origin × Request))
      → let s = run c rs (build balances) in
        (leaves : List ℕ) × (s.leaf_count_v2 ≡ length leaves)
        × ((leaf : ℕ) → StandsAt leaves leaf (s.leaf_index_v2 leaf))
        × ((leaves ≡ [])
            ⊎ (2 ^ merkle_depth ≤ length leaves)
            ⊎ (s.current_root_v2 ≡ reference_root hash2 leaves))
  unfolding build
  current_root_refines balances rs =
      let s = run c rs (build balances) in
      let (leaves, t) = run-IsTree rs (build balances) ((λ t. refl), build-IsTree balances) in
      (
        leaves,
        t.represents.count,
        (λ leaf. stands leaves leaf (s.leaf_index_v2 leaf) (t.placed leaf)),
        elim t.rooted [
          | inl empty ↦ inl empty
          | inr rooted ↦ inr (
              by_true (ltb (length leaves) (2 ^ merkle_depth)) (λ full. inl (ground arith))
                λ small. inr (
                  rooted
                  ∙ root-reference hash2 (frontier s) leaves t.represents
                      (ltb→lt (length leaves) (2 ^ merkle_depth) small)))
        ],
      )
