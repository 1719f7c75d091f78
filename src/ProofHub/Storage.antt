-- ===== src/ProofHub/Storage.antt =====
-- The storage of the ProofHub pallet (proofhub/pallets/proofs/src/lib.rs), with the balances of
-- the chain, the events and the messages sent, the newest first.
use nulla_relay.Prelude.{
  ℕ, Bool, true, false, Option, none, some, List, [], ◌∷◌, replicate, if◌then◌else◌,
}
use nulla_relay.Frame.{token, StorageMap, Exec, gets, fail, modify, ◌>>=◌}
use nulla_relay.ProofHub.Types.{Config, Balances, AppConfig, Event, Error, Message}

pub record State : Type 0 where
  pub balances : Balances
  pub nullifier_used : StorageMap Bool
  pub merkle_root : ℕ
  pub current_root : ℕ
  pub recent_roots : List ℕ
  pub ownership_commitments : StorageMap (Option ℕ)
  pub ownership_used : StorageMap Bool
  pub spend_tag_commitments : StorageMap (Option ℕ)
  pub spend_tag_rp_commitments : StorageMap (Option ℕ)
  pub spend_tag_change_rp_commitments : StorageMap (Option ℕ)
  pub spend_tag_used : StorageMap Bool
  pub rwa_prices : StorageMap ℕ
  pub access_key_configs : StorageMap (Option AppConfig)
  pub genesis_initialized : Bool
  pub leaves : List ℕ
  pub root_leaf_count : StorageMap ℕ
  pub commitment_index : StorageMap (Option ℕ)
  pub frontier_nodes_v2 : List ℕ
  pub leaf_count_v2 : ℕ
  pub current_root_v2 : ℕ
  pub recent_roots_v2 : List ℕ
  pub leaf_index_v2 : StorageMap (Option ℕ)
  pub events : List Event
  pub outbox : List Message

-- `GenesisConfig::build`, over the balances that the chain starts with.
unfoldable pub build : Balances → State
build balances = record {
  balances = balances;
  nullifier_used = λ _. false;
  merkle_root = 0;
  current_root = 0;
  recent_roots = [];
  ownership_commitments = λ _. none;
  ownership_used = λ _. false;
  spend_tag_commitments = λ _. none;
  spend_tag_rp_commitments = λ _. none;
  spend_tag_change_rp_commitments = λ _. none;
  spend_tag_used = λ _. false;
  rwa_prices = λ _. 0;
  access_key_configs = λ _. none;
  genesis_initialized = true;
  leaves = [];
  root_leaf_count = λ _. 0;
  commitment_index = λ _. none;
  frontier_nodes_v2 = replicate 20 0;
  leaf_count_v2 = 0;
  current_root_v2 = 0;
  recent_roots_v2 = [];
  leaf_index_v2 = λ _. none;
  events = [];
  outbox = [];
}

-- `Hooks::on_initialize`
unfoldable pub on_initialize : State → State
on_initialize s = if s.genesis_initialized then s else record s { genesis_initialized = true }

abbrev pub Action : Type 0 → Type 0
Action A = Exec State Error A

abbrev pub Call : Type 0
Call = Action (Unit {0})

abbrev pub deposit_event : Event → Call
deposit_event e = modify (λ s. record s { events = e ∷ s.events })

abbrev pub send : Message → Call
send m = modify (λ s. record s { outbox = m ∷ s.outbox })

-- `T::Currency::transfer(..)?`
abbrev pub transferred : Option Balances → Call
transferred none = fail token
transferred (some b) = modify (λ s. record s { balances = b })

abbrev pub transfer : Config → (from to amount : ℕ) → (keep_alive : Bool) → Call
transfer c from to amount keep_alive = do
  transferred (c.transfer (← gets (λ s. s.balances)) from to amount keep_alive)
