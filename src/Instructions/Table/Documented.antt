-- ===== src/Instructions/Table/Documented.antt =====
-- src/instructions.rs, its module `tests`: where the static gas differs from Ethereum's table.
use dogeos_revm.Prelude.{
  ℕ, zero, suc, ◌≤◌, ◌≡◌, List, [], ◌∷◌, ◌++◌, ◌==◌, if◌then◌else◌, arith, refl, map, replicate,
}
use dogeos_revm.Uint.{UintOps}
use dogeos_revm.Spec.{ScrollSpecId, into_eth_spec_id}
use dogeos_revm.Spec.Baseline.{into_eth_spec_id-eq}
use dogeos_revm.Instructions.{InterpreterOps, HostOps}
use dogeos_revm.Instructions.Table.{
  InstructionTable, selfdestruct_opcode, blockhash_opcode, basefee_opcode, tstore_opcode,
  tload_opcode, mcopy_opcode, difficulty_opcode, clz_opcode, make_scroll_instruction_table,
}
use dogeos_revm.Instructions.Table.Overrides.{static_gas_documented}

abbrev call_family : List ℕ
call_family = 0xf1 ∷ 0xf2 ∷ 0xf4 ∷ 0xfa ∷ []

module _ {I H : Type 0} where
  -- The loop of `test_scroll_static_gas_overrides_are_documented` over the opcodes below a bound:
  -- each difference with the gas that Ethereum's table and Scroll's have.
  unfoldable pub diffs : InstructionTable I H → InstructionTable I H → ℕ → List (ℕ × ℕ × ℕ)
  diffs eth_table scroll_table zero = []
  diffs eth_table scroll_table (suc opcode) =
      let expected = (eth_table opcode).static_gas in
      let actual = (scroll_table opcode).static_gas in
      diffs eth_table scroll_table opcode
      ++ (if actual == expected then [] else (opcode, expected, actual) ∷ [])

  -- What revm's Shanghai table charges for the overridden opcodes.
  pub record ShanghaiGas (eth : InstructionTable I H) : Type 0 where
    pub blockhash : (eth blockhash_opcode).static_gas ≡ 20
    pub basefee : (eth basefee_opcode).static_gas ≡ 2
    pub tstore : (eth tstore_opcode).static_gas ≡ 100
    pub tload : (eth tload_opcode).static_gas ≡ 100
    pub selfdestruct : (eth selfdestruct_opcode).static_gas ≡ 5_000
    pub mcopy : (eth mcopy_opcode).static_gas ≡ 3
    pub difficulty : (eth difficulty_opcode).static_gas ≡ 2
    pub clz : (eth clz_opcode).static_gas ≡ 5

module _ {I H SpecId : Type 0} (u : UintOps) (it : InterpreterOps I) (host : HostOps H)
    (eth_table : SpecId → InstructionTable I H) (eth_shanghai : SpecId)
    (gas : ShanghaiGas (eth_table eth_shanghai)) (spec : ScrollSpecId) where
  abbrev scroll_table : InstructionTable I H
  scroll_table = make_scroll_instruction_table u it host eth_table eth_shanghai spec

  static_gas_kept :
      (opcode : ℕ)
      → (scroll_table opcode).static_gas
        ≡ (if opcode == selfdestruct_opcode then 0 else (eth_table eth_shanghai opcode).static_gas)
  static_gas_kept opcode = ground (
    arith,
    static_gas_documented u it host eth_table eth_shanghai spec opcode,
    gas.blockhash,
    gas.basefee,
    gas.tstore,
    gas.tload,
    gas.selfdestruct,
    gas.mcopy,
    gas.difficulty,
    gas.clz,
  )

  no_diffs_below :
      (bound : ℕ)
      → bound ≤ selfdestruct_opcode
      → diffs (eth_table eth_shanghai) scroll_table bound ≡ []
  unfolding diffs
  no_diffs_below zero h = refl
  no_diffs_below (suc bound) h =
      ground (arith, no_diffs_below bound (omega arith), static_gas_kept bound)

  -- The loop of the tests over all 256 opcodes finds one difference under every hardfork: SELFDESTRUCT
  -- costs nothing in place of 5000. revm's Shanghai table has its documented costs for the opcodes
  -- that are overridden.
  pub only_selfdestruct_differs :
      diffs (eth_table (into_eth_spec_id eth_shanghai spec)) scroll_table 256
      ≡ (selfdestruct_opcode, 5_000, 0) ∷ []
  unfolding diffs
  only_selfdestruct_differs = rw (into_eth_spec_id-eq eth_shanghai spec) (
      ground (
        arith,
        no_diffs_below selfdestruct_opcode (omega arith),
        static_gas_kept selfdestruct_opcode,
        gas.selfdestruct,
      ))

  -- `test_call_family_uses_berlin_warm_static_gas`: CALL, CALLCODE, DELEGATECALL and STATICCALL cost
  -- what Ethereum's table has for them.
  call_family_gas :
      map (λ opcode. (eth_table eth_shanghai opcode).static_gas) call_family ≡ replicate 4 100
      → map (λ opcode. (scroll_table opcode).static_gas) call_family ≡ replicate 4 100
  call_family_gas warm = ground (
    arith,
    static_gas_kept 0xf1,
    static_gas_kept 0xf2,
    static_gas_kept 0xf4,
    static_gas_kept 0xfa,
  )
