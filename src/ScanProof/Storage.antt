-- ===== src/ScanProof/Storage.antt =====
-- The storage of the ScanProof pallet (scanproof/pallets/proofs/src/lib.rs), with the balances of
-- the chain, the events and the messages sent, the newest first.
use nulla_relay.Prelude.{ℕ, Bool, false, Option, none, some, List, [], ◌∷◌}
use nulla_relay.Frame.{token, StorageMap, Exec, gets, fail, modify, ◌>>=◌}
use nulla_relay.ScanProof.Types.{Config, Balances, AppConfig, Event, Error, Message}

pub record State : Type 0 where
  pub balances : Balances
  pub nullifier_used : StorageMap Bool
  pub merkle_root : ℕ
  pub current_root : ℕ
  pub recent_roots : List ℕ
  pub leaves : List ℕ
  pub root_leaf_count : StorageMap ℕ
  pub commitment_index : StorageMap (Option ℕ)
  pub rwa_prices : StorageMap ℕ
  pub access_key_configs : StorageMap (Option AppConfig)
  pub coin_groups : StorageMap (Option (List ℕ))
  pub current_group : ℕ
  pub serial_used : StorageMap Bool
  pub coin_location : StorageMap (Option (ℕ × ℕ))
  pub events : List Event
  pub outbox : List Message

-- `GenesisConfig::build`, over the balances that the chain starts with.
unfoldable pub build : Balances → State
build balances = record {
  balances = balances;
  nullifier_used = λ _. false;
  merkle_root = 0;
  current_root = 0;
  recent_roots = [];
  leaves = [];
  root_leaf_count = λ _. 0;
  commitment_index = λ _. none;
  rwa_prices = λ _. 0;
  access_key_configs = λ _. none;
  coin_groups = λ _. none;
  current_group = 0;
  serial_used = λ _. false;
  coin_location = λ _. none;
  events = [];
  outbox = [];
}

abbrev pub Action : Type 0 → Type 0
Action A = Exec State Error A

abbrev pub Call : Type 0
Call = Action (Unit {0})

abbrev pub deposit_event : Event → Call
deposit_event e = modify (λ s. record s { events = e ∷ s.events })

abbrev pub send : Message → Call
send m = modify (λ s. record s { outbox = m ∷ s.outbox })

-- `T::Currency::transfer(..)?`
abbrev pub transferred : Option Balances → Call
transferred none = fail token
transferred (some b) = modify (λ s. record s { balances = b })

abbrev pub transfer : Config → (from to amount : ℕ) → (keep_alive : Bool) → Call
transfer c from to amount keep_alive = do
  transferred (c.transfer (← gets (λ s. s.balances)) from to amount keep_alive)
