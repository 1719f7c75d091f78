-- ===== src/ScanProof/Ledger.antt =====
-- The ScanProof pallet (scanproof/pallets/proofs/src/lib.rs) as three ledgers, of notes, of coins
-- and of what was spent, and what a request can do to each.
pub mod Requests
pub mod Spends
pub mod Places
pub mod Outcomes
pub mod Tree
pub mod Order
use nulla_relay.Prelude.{
  ℕ, ◌+◌, ◌-◌, ◌%◌, ◌^◌, ◌≤◌, Bool, true, false, Option, none, some, List, [], ◌∷◌, ◌++◌, ◌≡◌, refl,
  sym, ap, ◌∙◌, subst, arith, ◌⊎◌, inl, inr, length, ltb, leb, ltb→lt, by_true, if◌then◌else◌,
}
use nulla_relay.Frame.{Origin, StorageMap, update, dispatch}
use nulla_relay.ScanProof.Types.{Config, Balances, Event, Message}
use nulla_relay.ScanProof.Storage.{State}
use nulla_relay.ScanProof.Notes.{max_leaves, leaf_hash, compute_merkle_root}
use nulla_relay.ScanProof.Pedersen.{set_rwa_price, set_access_config}
use nulla_relay.ScanProof.Submit.{all_fresh, mark_all, outputs_fresh}
use nulla_relay.ScanProof.Coins.{group_capacity, is_present}
use nulla_relay.ScanProof.Calls.{Request, perform}
use nulla_relay.ScanProof.Effects.{
  spend, pay, appended, with_change, Fits, Opens, registered, with_coin, Converts,
}
use nulla_relay.ScanProof.Effects.Openings.{
  Opened, purchase_rwa_rule, withdraw_private_rule, purchase_access_rule, deposit_public_rule,
}
use nulla_relay.ScanProof.Effects.OneOfMany.{
  Spent, deposit_coin_rule, purchase_coin_rule, withdraw_coin_rule, purchase_access_coin_rule,
}
use nulla_relay.ScanProof.Effects.Outputs.{leaf_hashes, index_outputs, Transfers, submit_proof_rule}

pub record Notes : Type 0 where
  pub leaves : List ℕ
  pub commitment_index : StorageMap (Option ℕ)
  pub current_root : ℕ
  pub merkle_root : ℕ
  pub root_leaf_count : StorageMap ℕ

pub record Groups : Type 0 where
  pub coin_groups : StorageMap (Option (List ℕ))
  pub current_group : ℕ
  pub coin_location : StorageMap (Option (ℕ × ℕ))

pub record Spending : Type 0 where
  pub balances : Balances
  pub nullifier_used : StorageMap Bool
  pub serial_used : StorageMap Bool
  pub outbox : List Message

abbrev pub notes : State → Notes
notes s = record {
  leaves = s.leaves;
  commitment_index = s.commitment_index;
  current_root = s.current_root;
  merkle_root = s.merkle_root;
  root_leaf_count = s.root_leaf_count;
}

abbrev pub groups : State → Groups
groups s = record {
  coin_groups = s.coin_groups;
  current_group = s.current_group;
  coin_location = s.coin_location;
}

abbrev pub spending : State → Spending
spending s = record {
  balances = s.balances;
  nullifier_used = s.nullifier_used;
  serial_used = s.serial_used;
  outbox = s.outbox;
}

abbrev pub added : Config → List ℕ → Notes → Notes
added c ks x =
    let grown = x.leaves ++ leaf_hashes c ks in
    let root = compute_merkle_root c grown in
    record {
      leaves = grown;
      commitment_index = index_outputs ks (length x.leaves) x.commitment_index;
      current_root = root;
      merkle_root = root;
      root_leaf_count = update root (length grown % 2 ^ 32) x.root_leaf_count;
    }

-- A group by its number, and the group that accepts deposits.
abbrev pub group_in : ℕ → Groups → List ℕ
group_in gid x = elim (x.coin_groups gid) [ none ↦ [] | some group ↦ group ]

abbrev pub open_group : Groups → ℕ
open_group x =
    if leb group_capacity (length (group_in x.current_group x))
    then (x.current_group + 1) % 2 ^ 32
    else x.current_group

abbrev pub placed : ℕ → Groups → Groups
placed coin x =
    let gid = open_group x in
    let group = group_in gid x in
    record {
      coin_groups = update gid (some (group ++ coin ∷ [])) x.coin_groups;
      current_group = gid;
      coin_location = update coin (some (gid, length group)) x.coin_location;
    }

-- What a spend uses up: a nullifier of a note or a serial of a coin.
pub data Key : Type 0 where
  nullifier serial : ℕ → Key

abbrev pub is_used : Key → Spending → Bool
is_used (nullifier n) x = x.nullifier_used n
is_used (serial n) x = x.serial_used n

abbrev pub use_key : Key → Spending → Spending
use_key (nullifier n) x = record x { nullifier_used = update n true x.nullifier_used }
use_key (serial n) x = record x { serial_used = update n true x.serial_used }

abbrev pub number : Key → ℕ
number (nullifier n) = n
number (serial n) = n

-- The number that a message tells its chain about.
abbrev pub carried : Message → ℕ
carried (Message.rwa_purchase r n t v tx k) = n
carried (Message.access_grant a n tx k) = n

pub data NoteEffect (c : Config) (x : Notes) : Notes → Type 0 where
  notes_kept : NoteEffect c x x
  notes_added :
      (ks : List ℕ)
      → outputs_fresh x.commitment_index [] ks ≡ true
      → length ks ≤ max_leaves - length x.leaves
      → NoteEffect c x (added c ks x)

pub data CoinEffect (x : Groups) : Groups → Type 0 where
  coins_kept : CoinEffect x x
  coin_placed :
      (coin : ℕ)
      → x.coin_location coin ≡ none
      → ltb (length (group_in (open_group x) x)) group_capacity ≡ true
      → CoinEffect x (placed coin x)

pub data SpendEffect (c : Config) (x : Spending) : Spending → Type 0 where
  settled : SpendEffect c x x
  received :
      (who amount : ℕ) (b : Balances)
      → c.transfer x.balances who c.pool_account amount true ≡ some b
      → SpendEffect c x (record x { balances = b })
  transferred :
      (ns : List ℕ)
      → all_fresh x.nullifier_used ns ≡ true
      → SpendEffect c x (record x { nullifier_used = mark_all ns x.nullifier_used })
  bought :
      (k : Key) (m : Message)
      → is_used k x ≡ false
      → carried m ≡ number k
      → SpendEffect c x (record (use_key k x) { outbox = m ∷ x.outbox })
  granted :
      (k : Key) (m : Message) (dest amount : ℕ) (b : Balances)
      → is_used k x ≡ false
      → carried m ≡ number k
      → c.transfer x.balances c.pool_account dest amount false ≡ some b
      → SpendEffect c x (record (use_key k x) { outbox = m ∷ x.outbox; balances = b })
  withdrawn :
      (k : Key) (dest amount : ℕ) (b : Balances)
      → is_used k x ≡ false
      → c.transfer x.balances c.pool_account dest amount false ≡ some b
      → SpendEffect c x (record (use_key k x) { balances = b })

-- A request that is refused has no effect on any of them.
pub record Effect (c : Config) (s s' : State) : Type 0 where
  pub on_notes : NoteEffect c (notes s) (notes s')
  pub on_coins : CoinEffect (groups s) (groups s')
  pub on_spending : SpendEffect c (spending s) (spending s')

abbrev pub refused : (c : Config) (s : State) → Effect c s s
refused c s = record { on_notes = notes_kept; on_coins = coins_kept; on_spending = settled }

module _ (c : Config) where
  pub note_added :
      (k : ℕ) (s : State)
      → s.commitment_index k ≡ none
      → ltb (length s.leaves) max_leaves ≡ true
      → NoteEffect c (notes s) (notes (appended c k s))
  note_added k s new room =
      let below = ltb→lt (length s.leaves) max_leaves room in
      notes_added (k ∷ []) (rw new refl) (omega arith)

  pub change_added :
      (input opened : ℕ) (change : Option ℕ) (s : State)
      → Opens c s input change opened
      → Fits change s.leaves
      → NoteEffect c (notes s) (notes (with_change c change s))
  change_added input opened none s opens fits = notes_kept
  change_added input opened (some k) s opens fits = note_added k s opens.0 fits

  pub groups-with_change :
      (change : Option ℕ) (s : State) → groups (with_change c change s) ≡ groups s
  groups-with_change none s = refl
  groups-with_change (some k) s = refl

  pub spending-with_change :
      (change : Option ℕ) (s : State) → spending (with_change c change s) ≡ spending s
  spending-with_change none s = refl
  spending-with_change (some k) s = refl

  pub coin_added :
      (change coin : ℕ) (g1_pok ctx : List ℕ) (s : State)
      → Converts c change coin g1_pok ctx s
      → CoinEffect (groups s) (groups (with_coin c change coin s))
  coin_added change coin g1_pok ctx s (inl absent) = rw (absent, with_coin) coins_kept
  coin_added change coin g1_pok ctx s (inr (present, new, proved, room)) =
      rw (present, with_coin) (coin_placed coin new room)

  pub notes-with_coin : (change coin : ℕ) (s : State) → notes (with_coin c change coin s) ≡ notes s
  notes-with_coin change coin s =
      by_true (is_present change) (λ e. rw (e, with_coin) refl) (λ e. rw (e, with_coin) refl)

  pub spending-with_coin :
      (change coin : ℕ) (s : State) → spending (with_coin c change coin s) ≡ spending s
  spending-with_coin change coin s =
      by_true (is_present change) (λ e. rw (e, with_coin) refl) (λ e. rw (e, with_coin) refl)
