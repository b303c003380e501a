-- ===== src/Tests/Interpreters.antt =====
-- The instructions over a small interpreter and host.
use dogeos_revm.Prelude.{
  err, ℕ, ◌≡◌, ◌⊎◌, refl, true, false, [], ◌∷◌, List, some, none, ltb, ok, arith,
}
use dogeos_revm.Uint.{native}
use dogeos_revm.Spec.{curie, euclid, feynman, tsuki_v2, is_enabled_in}
use dogeos_revm.Instructions.Blockhash.{eip7709_history_sload, blockhash}
use dogeos_revm.Instructions.Blockhash.Price.{settled, blockhash_from_tsuki_v2}
use dogeos_revm.Instructions.Simple.{selfdestruct, basefee, tstore, tload, mcopy, difficulty, clz}
use dogeos_revm.Instructions.Simple.Activation.{host_changed_by_tstore}
use dogeos_revm.Spec.{into_eth_spec_id}
use dogeos_revm.Instructions.Table.{InstructionTable, make_scroll_instruction_table}
use dogeos_revm.Instructions.Table.Documented.{diffs, ShanghaiGas, only_selfdestruct_differs}
use dogeos_revm.Instructions.Table.Overrides.{lookup}
use dogeos_revm.Tests.Machine.{Machine, machines, pay, host_at, asking}

before_feynman : is_enabled_in euclid feynman ≡ false
unfolding is_enabled_in
before_feynman = refl

from_tsuki_v2_on : is_enabled_in tsuki_v2 tsuki_v2 ≡ true
unfolding is_enabled_in
from_tsuki_v2_on = refl

-- 2150 gas pay for the warm read and the cold slot.
blockhash_from_tsuki_v2_example : blockhash native machines (host_at tsuki_v2) (asking 299) 0 ≡ (
  elim (settled native machines
      (host_at tsuki_v2)
      (pay 100 (asking 299))
      (eip7709_history_sload native machines (host_at tsuki_v2) 299 (ltb 2_050 2_000) 0).0) [
        | err i' ↦ i'
        | ok (hash, i') ↦ machines.set_top hash i'
      ],
  (eip7709_history_sload native machines (host_at tsuki_v2) 299 (ltb 2_050 2_000) 0).1,
)
blockhash_from_tsuki_v2_example =
    blockhash_from_tsuki_v2 native machines (host_at tsuki_v2) (asking 299) 0 299 refl (omega arith)
      (omega arith) (omega arith) from_tsuki_v2_on

abbrev storing : Machine
storing = record { stack = 8 ∷ 9 ∷ []; gas_left = 500; halted = none }

host_changed_by_tstore_example :
    ((selfdestruct machines (host_at curie) storing 0).1 ≡ 0)
    × ((basefee machines (host_at curie) storing 0).1 ≡ 0)
    × ((tload machines (host_at curie) storing 0).1 ≡ 0)
    × ((mcopy machines (host_at curie) storing 0).1 ≡ 0)
    × ((difficulty machines (host_at curie) storing 0).1 ≡ 0)
    × ((clz machines (host_at curie) storing 0).1 ≡ 0)
    × (((tstore machines (host_at curie) storing 0).1 ≡ 0)
        ⊎ ((is_enabled_in curie curie ≡ true)
            × (machines.require_non_staticcall storing ≡ ok tt)
            × (index : ℕ) × (value : ℕ) × (popped : Machine) × (machines.popn2 storing
                ≡ ok (index, value, popped))
            × ((tstore machines (host_at curie) storing 0).1 ≡ 1)))
host_changed_by_tstore_example = host_changed_by_tstore machines (host_at curie) storing 0

-- Ethereum's table, as far as it is overridden; every other opcode costs 3.
abbrev shanghai_gas : List (ℕ × ℕ)
shanghai_gas =
    ((0x40, 20))
    ∷ ((0x48, 2))
    ∷ ((0x5d, 100))
    ∷ ((0x5c, 100))
    ∷ ((0xff, 5_000))
    ∷ ((0x44, 2))
    ∷ ((0x1e, 5))
    ∷ []

abbrev shanghai_table : Unit {0} → InstructionTable Machine ℕ
shanghai_table spec opcode = record {
  run = λ m h. (m, h);
  static_gas = elim (lookup opcode shanghai_gas) [ some gas ↦ gas | none ↦ 3 ];
}

shanghai_costs : ShanghaiGas (shanghai_table tt)
shanghai_costs = record {
  blockhash = refl;
  basefee = refl;
  tstore = refl;
  tload = refl;
  selfdestruct = refl;
  mcopy = refl;
  difficulty = refl;
  clz = refl;
}

only_selfdestruct_differs_example :
    diffs
      (shanghai_table tt)
      (make_scroll_instruction_table native machines (host_at tsuki_v2) shanghai_table tt tsuki_v2)
      256
    ≡ (0xff, 5_000, 0) ∷ []
unfolding into_eth_spec_id
only_selfdestruct_differs_example =
    only_selfdestruct_differs native machines (host_at tsuki_v2) shanghai_table tt shanghai_costs
      tsuki_v2
