-- ===== src/Transaction.antt =====
-- src/transaction.rs: the Scroll transaction around revm's `TxEnv`, and its two special kinds.
use dogeos_revm.Prelude.{ℕ, Bool, true, false, List, Option, none, ◌==◌, length}

-- `L1_MESSAGE_TYPE` and `SYSTEM_ADDRESS`
abbrev pub l1_message_type : ℕ
l1_message_type = 0x7e

abbrev pub system_address : ℕ
system_address = 0xfffffffffffffffffffffffffffffffffffffffe

-- `TxKind`
pub data TxKind : Type 0 where
  call : ℕ → TxKind
  create : TxKind

abbrev pub is_create : TxKind → Bool
is_create (call _) = false
is_create create = true

abbrev pub is_call : TxKind → Bool
is_call (call _) = true
is_call create = false

pub record AccessListItem : Type 0 where
  pub address : ℕ
  pub storage_slots : List ℕ

-- What a base transaction answers to the methods of revm's `Transaction`; hashes and
-- authorizations are numbers.
pub record TxEnv : Type 0 where
  pub tx_type : ℕ
  pub caller : ℕ
  pub gas_limit : ℕ
  pub value : ℕ
  pub input : List ℕ
  pub nonce : ℕ
  pub kind : TxKind
  pub chain_id : Option ℕ
  pub gas_price : ℕ
  pub access_list : Option (List AccessListItem)
  pub blob_versioned_hashes : List ℕ
  pub max_fee_per_blob_gas : ℕ
  pub authorization_list : List ℕ
  pub max_priority_fee_per_gas : Option ℕ

pub record ScrollTransaction : Type 0 where
  pub base : TxEnv
  pub rlp_bytes : Option (List ℕ)
  pub compression_ratio : Option ℕ
  pub compressed_size : Option ℕ

-- `ScrollTransaction::new`
unfoldable pub new : TxEnv → Option (List ℕ) → Option ℕ → Option ℕ → ScrollTransaction
new base rlp_bytes compression_ratio compressed_size = record {
  base = base;
  rlp_bytes = rlp_bytes;
  compression_ratio = compression_ratio;
  compressed_size = compressed_size;
}

-- `ScrollTransaction::default`, around revm's default transaction
unfoldable pub default_tx : TxEnv → ScrollTransaction
default_tx default_base = record {
  base = default_base;
  rlp_bytes = none;
  compression_ratio = none;
  compressed_size = none;
}

-- `impl Transaction for ScrollTransaction`: every method is the base's.
module _ (self : ScrollTransaction) where
  abbrev pub tx_type : ℕ
  tx_type = self.base.tx_type

  abbrev pub caller : ℕ
  caller = self.base.caller

  abbrev pub gas_limit : ℕ
  gas_limit = self.base.gas_limit

  abbrev pub value : ℕ
  value = self.base.value

  abbrev pub input : List ℕ
  input = self.base.input

  abbrev pub nonce : ℕ
  nonce = self.base.nonce

  abbrev pub kind : TxKind
  kind = self.base.kind

  abbrev pub chain_id : Option ℕ
  chain_id = self.base.chain_id

  abbrev pub gas_price : ℕ
  gas_price = self.base.gas_price

  abbrev pub access_list : Option (List AccessListItem)
  access_list = self.base.access_list

  abbrev pub blob_versioned_hashes : List ℕ
  blob_versioned_hashes = self.base.blob_versioned_hashes

  abbrev pub max_fee_per_blob_gas : ℕ
  max_fee_per_blob_gas = self.base.max_fee_per_blob_gas

  abbrev pub authorization_list_len : ℕ
  authorization_list_len = length self.base.authorization_list

  abbrev pub authorization_list : List ℕ
  authorization_list = self.base.authorization_list

  abbrev pub max_priority_fee_per_gas : Option ℕ
  max_priority_fee_per_gas = self.base.max_priority_fee_per_gas

  -- `impl ScrollTxTr for ScrollTransaction`
  unfoldable pub is_l1_msg : Bool
  is_l1_msg = tx_type == l1_message_type

  unfoldable pub is_system_tx : Bool
  is_system_tx = caller == system_address

-- `new_system_tx_with_caller`, over the base's function of the same name.
unfoldable pub new_system_tx_with_caller :
    (ℕ → ℕ → List ℕ → TxEnv) → ℕ → ℕ → List ℕ → ScrollTransaction
unfolding new
new_system_tx_with_caller base_system_tx caller system_contract_address input =
    new (base_system_tx caller system_contract_address input) none none none
