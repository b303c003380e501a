-- ===== src/Instructions/Blockhash.antt =====
-- src/instructions.rs: `blockhash`, `eip7709_history_sload` and `compute_block_hash`.
use dogeos_revm.Prelude.{
  ℕ, ◌/◌, ◌%◌, ◌^◌, Bool, true, false, not, List, [], ◌∷◌, ◌++◌, Option, none, some, ltb, ◌==◌,
  if◌then◌else◌, Result, ok, err,
}
use dogeos_revm.Uint.{UintOps}
use dogeos_revm.Action.{Action, ◌>>=◌, ◌>>◌, pure, lift}
use dogeos_revm.Spec.{feynman, tsuki_v2, is_enabled_in}
use dogeos_revm.Instructions.{
  InterpreterOps, HostOps, LoadError, cold_load_skipped, db_error, StateLoad, fatal_external_error,
  finish,
}
pub mod Window
pub mod Preimage
pub mod Price
pub mod Ring

-- `HISTORY_STORAGE_ADDRESS` and `HISTORY_SERVE_WINDOW`
abbrev pub history_storage_address : ℕ
history_storage_address = 0x0000f90827f1c53a10cb7a02335b175320002935

abbrev pub history_serve_window : ℕ
history_serve_window = 8191

-- `u64::to_be_bytes`
abbrev pub to_be_bytes : ℕ → List ℕ
to_be_bytes n =
    (n / 2 ^ 56 % 256)
    ∷ (n / 2 ^ 48 % 256)
    ∷ (n / 2 ^ 40 % 256)
    ∷ (n / 2 ^ 32 % 256)
    ∷ (n / 2 ^ 24 % 256)
    ∷ (n / 2 ^ 16 % 256)
    ∷ (n / 2 ^ 8 % 256)
    ∷ (n % 256)
    ∷ []

module _ {I H : Type 0} (u : UintOps) (it : InterpreterOps I) (host : HostOps H) where
  -- `compute_block_hash`
  unfoldable pub compute_block_hash : ℕ → ℕ → ℕ
  compute_block_hash chain_id block_number =
      host.keccak_word (to_be_bytes chain_id ++ to_be_bytes block_number)

  -- `eip7709_history_sload` after its first load
  unfoldable pub after_first_load :
      ℕ → Bool → Result LoadError StateLoad → Action H LoadError StateLoad
  after_first_load index skip_cold (ok value) h = (ok value, h)
  after_first_load index skip_cold (err db_error) h = (err db_error, h)
  after_first_load index skip_cold (err cold_load_skipped) h =
      let (checkpoint, h₁) = host.checkpoint h in
      let (loaded, h₂) = host.load_account_info_skip_cold_load history_storage_address h₁ in
      let h₃ = host.checkpoint_revert checkpoint h₂ in
      elim loaded [
        | err e ↦ (err e, h₃)
        | ok _ ↦ host.sload_skip_cold_load history_storage_address index skip_cold h₃
      ]

  -- `eip7709_history_sload`
  unfoldable pub eip7709_history_sload : ℕ → Bool → Action H LoadError StateLoad
  eip7709_history_sload index skip_cold h =
      let (first, h') = host.sload_skip_cold_load history_storage_address index skip_cold h in
      after_first_load index skip_cold first h'

  -- The arms on the load, from TsukiV2: the value and the interpreter that has paid.
  abbrev pub price_load : I → Result LoadError StateLoad → Result I (ℕ × I)
  price_load i (ok load) =
      if load.is_cold
      then elim (it.gas host.cold_storage_additional_cost i) [
        | ok i' ↦ ok (load.value, i')
        | err i' ↦ err i'
      ]
      else ok (load.value, i)
  price_load i (err cold_load_skipped) = err (it.halt_oog i)
  price_load i (err db_error) = err (it.halt_fatal i)

  unfoldable pub history_from_tsuki_v2 : ℕ → I → Action H I (ℕ × I)
  history_from_tsuki_v2 index i h = elim (it.gas host.warm_storage_read_cost i) [
    | err i' ↦ (err i', h)
    | ok i' ↦
        let skip_cold = ltb (it.remaining i') host.cold_storage_additional_cost in
        let (loaded, h') = eip7709_history_sload index skip_cold h in (price_load i' loaded, h')
  ]

  -- `let Some(value) = host.sload(…) else { halt }`
  abbrev pub loaded_or_fatal : I → Option ℕ → Result I (ℕ × I)
  loaded_or_fatal i none = err (it.halt fatal_external_error i)
  loaded_or_fatal i (some value) = ok (value, i)

  unfoldable pub history_before_tsuki_v2 : ℕ → I → Action H I (ℕ × I)
  history_before_tsuki_v2 index i h =
      let (present, h') = host.load_account_delegated history_storage_address h in
      if not present
      then (err (it.halt fatal_external_error i), h')
      else (let (value, h'') = host.sload history_storage_address index h' in
          (loaded_or_fatal i value, h''))

  -- The arms of the `match` on the difference.
  unfoldable pub hash_at : ℕ → ℕ → I → Action H I (ℕ × I)
  unfolding is_enabled_in compute_block_hash
  hash_at requested_number diff i =
      if diff == 0
      then pure (0, i)
      else if ltb host.block_hash_history diff
      then pure (0, i)
      else if not (is_enabled_in host.spec feynman)
      then pure (
        compute_block_hash (host.as_u64_saturated host.chain_id)
            (host.as_u64_saturated requested_number),
        i,
      )
      else (let index = host.as_u64_saturated requested_number % history_serve_window in
          if is_enabled_in host.spec tsuki_v2
          then history_from_tsuki_v2 index i
          else history_before_tsuki_v2 index i)

  -- `blockhash` once the number is on top
  unfoldable pub blockhash_of : ℕ → Option ℕ → I → Action H I I
  blockhash_of requested_number none i h = (ok (it.set_top 0 i), h)
  blockhash_of requested_number (some diff) i h =
      let (r, h') = hash_at requested_number (host.as_u64_saturated diff) i h in
      elim r [ err i' ↦ (err i', h') | ok (hash, i') ↦ (ok (it.set_top hash i'), h') ]

  -- `blockhash`
  unfoldable pub blockhash : I → H → I × H
  blockhash i h = elim (it.popn_top i) [
    | err i' ↦ (i', h)
    | ok requested_number ↦
        let (r, h') =
          blockhash_of requested_number (u.checked_sub host.block_number requested_number) i h in
        (finish r, h')
  ]
