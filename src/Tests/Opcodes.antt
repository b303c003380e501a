-- ===== src/Tests/Opcodes.antt =====
-- The tests of src/instructions.rs that run one opcode or function.
use dogeos_revm.Prelude.{
  bit_length, ◌^◌, ℕ, ◌+◌, ◌-◌, ◌*◌, ◌/◌, ◌≡◌, ◌&&◌, List, [], ◌∷◌, some, ok, err, map, refl, ◌==◌,
  if◌then◌else◌, Result,
}
use dogeos_revm.Uint.{native}
use dogeos_revm.Spec.{galileo, ScrollSpecId, euclid, feynman, is_enabled_in, into_eth_spec_id}
use dogeos_revm.Instructions.{InterpreterOps, HostOps}
use dogeos_revm.Instructions.Blockhash.{
  history_storage_address, blockhash, blockhash_of, hash_at, history_before_tsuki_v2,
  compute_block_hash,
}
use dogeos_revm.Instructions.Simple.{
  clz, selfdestruct, basefee, tstore, tstore_popped, tload, mcopy, mcopy_run, mcopy_paid,
  difficulty,
}
use dogeos_revm.Instructions.Table.{
  InstructionTable, make_scroll_instruction_table, blockhash_opcode, basefee_opcode, tstore_opcode,
  tload_opcode, mcopy_opcode, selfdestruct_opcode, difficulty_opcode,
}
use dogeos_revm.Tests.Machine.{Machine, machines, pay, stop, host_at, asking}

abbrev pop3_of : List ℕ → Machine → Result Machine (ℕ × ℕ × ℕ × Machine)
pop3_of (x ∷ y ∷ z ∷ rest) m = ok (x, y, z, record m { stack = rest })
pop3_of _ m = err (stop 4 m)

-- A machine whose memory is empty: growing it by up to a word costs 3.
abbrev growing : InterpreterOps Machine
growing = record machines { popn3 = λ m. pop3_of m.stack m; resize_memory = λ at n m. ok (pay 3 m) }

abbrev eth_table : Unit {0} → InstructionTable Machine ℕ
eth_table spec opcode = record { run = λ m h. (m, h); static_gas = 3 }

-- One round of revm's loop: the static gas of an opcode is charged, and its function is called.
abbrev run_opcode : HostOps ℕ → ScrollSpecId → ℕ → Machine → Machine
run_opcode host spec opcode m =
    let instruction = make_scroll_instruction_table native growing host eth_table tt spec opcode in
    (instruction.run (pay instruction.static_gas m) 0).0

-- Block 1024 of chain 123.
abbrev hash_host : ScrollSpecId → HostOps ℕ
hash_host spec = record (host_at spec) { block_number = 1_024; chain_id = 123 }

-- `test_blockhash_before_feynman`: what is left on the stack.
abbrev hash_before_feynman : List ℕ
hash_before_feynman = (run_opcode (hash_host euclid) euclid blockhash_opcode (asking 1_000)).stack

blockhash_before_feynman :
    hash_before_feynman ≡ compute_block_hash native growing (hash_host euclid) 123 1_000 ∷ []
unfolding make_scroll_instruction_table into_eth_spec_id blockhash blockhash_of hash_at
blockhash_before_feynman = refl

-- The storage of `test_blockhash_after_feynman`, which holds the hash of block 1000 alone.
abbrev history_host : ℕ → HostOps ℕ
history_host expected_block_hash = record (hash_host feynman) {
  sload = λ a index h. (
    some (if (a == history_storage_address) && (index == 1_000) then expected_block_hash else 0),
    h,
  );
}

abbrev hash_after_feynman : ℕ → List ℕ
hash_after_feynman expected_block_hash =
    (run_opcode (history_host expected_block_hash) feynman blockhash_opcode (asking 1_000)).stack

blockhash_after_feynman :
    (expected_block_hash : ℕ) → hash_after_feynman expected_block_hash ≡ expected_block_hash ∷ []
unfolding make_scroll_instruction_table into_eth_spec_id blockhash blockhash_of hash_at
    history_before_tsuki_v2
blockhash_after_feynman expected_block_hash = refl

-- The cases of `test_gas_used`.
abbrev gas_cases : List (ℕ × ℕ)
gas_cases =
    ((blockhash_opcode, 20))
    ∷ ((basefee_opcode, 2))
    ∷ ((tstore_opcode, 100))
    ∷ ((tload_opcode, 100))
    ∷ ((mcopy_opcode, 9))
    ∷ ((selfdestruct_opcode, 0))
    ∷ ((difficulty_opcode, 2))
    ∷ []

-- Its gas, from a stack of 0, 0 and 1, where copying a word costs 3.
abbrev gas_used : ℕ → ℕ
gas_used opcode =
    let host = record (host_at feynman) {
      block_number = 1_024;
      chain_id = 123;
      mcopy_cost = λ n. 3 * ((n + 31) / 32);
    } in
    let start = record (asking 0) { stack = 0 ∷ 0 ∷ 1 ∷ []; gas_left = 10_000 } in
    10_000 - (run_opcode host feynman opcode start).gas_left

gas_cases_hold : map (λ c. gas_used c.0) gas_cases ≡ map (λ c. c.1) gas_cases
unfolding make_scroll_instruction_table into_eth_spec_id blockhash blockhash_of hash_at
    history_before_tsuki_v2 selfdestruct basefee tstore tstore_popped tload mcopy mcopy_run
    mcopy_paid difficulty is_enabled_in
gas_cases_hold = refl

-- `test_clz`: words and their leading zeros.
abbrev clz_cases : List (ℕ × ℕ)
clz_cases =
    ((0x0, 256))
    ∷ ((0x1, 255))
    ∷ ((0x2, 254))
    ∷ ((0x3, 254))
    ∷ ((0x4, 253))
    ∷ ((0x7, 253))
    ∷ ((0x8, 252))
    ∷ ((0xff, 248))
    ∷ ((0x100, 247))
    ∷ ((0xffff, 240))
    ∷ ((2 ^ 256 - 1, 0))
    ∷ ((2 ^ 255, 0))
    ∷ ((2 ^ 254, 1))
    ∷ ((2 ^ 255 - 1, 1))
    ∷ []

-- The binary digits of a number below `2 ^ width`, and its leading zeros as a 256-bit word.
abbrev word_host : HostOps ℕ
word_host = record (host_at galileo) { leading_zeros = λ n. 256 - bit_length 256 n }

clz_cases_hold :
    map (λ c. (clz machines word_host (asking c.0) 0).0.stack) clz_cases
    ≡ map (λ c. c.1 ∷ []) clz_cases
unfolding clz is_enabled_in bit_length
clz_cases_hold = refl
