-- ===== src/Lib.antt =====
-- Verification of dogeos-revm, the DogeOS (Scroll) variant of the revm Ethereum virtual machine.
--
-- The program changes revm at a few points: which hardforks exist, what a transaction must satisfy,
-- the rollup fee that its sender pays for the data posted on L1, the free treatment of L1 messages,
-- eight instructions, and the precompiles of each hardfork. revm itself, alloy-evm and ruint are not
-- part of the repository: what the code calls of them is an interface here, a record of operations
-- with the documented behaviour that the theorems rely on as its laws, and the Tests modules give an
-- instance of every interface.
--
-- How the parts interact: Spec orders the hardforks, and every other part branches on it. For a
-- transaction the handler runs validate_env and validate_initial_tx_gas, then pre_execution, which
-- refreshes the L1 values (L1Block) and charges the caller; the interpreter then runs with the
-- Instructions and Precompile sets of the hardfork; last_frame_result and the steps after it settle
-- gas, refund and the beneficiary's reward, which contains the rollup fee again. Handler/Sequence puts
-- these hooks of many transactions one after another, with revm's execution between them as a
-- relation, and follows the sum of all balances; its Chain does so across the activation of
-- hardforks.
--
-- Files, and the code they model:
--   Prelude     Boolean tests, lists over the native numbers, big-endian bytes, Rust's Result
--   Action      a fallible call that changes a state, with `?` as bind; the state survives an error;
--               Action/Stays has the rules for invariants of such calls
--   Balances    how the specifications speak of a journal, and of the sum of its balances
--   Uint        the U256 operations of ruint: saturating, checked and dividing
--   Spec        src/spec.rs: ScrollSpecId, is_enabled_in, names and parsing
--   L1Block     src/l1block.rs: Fetch has try_fetch_with, try_fetch and try_fetch_from_journal; Cost
--               has the four formulas, try_calculate_tx_l1_cost and its caps, Exact the same fees
--               over the numbers
--   Precompile  src/precompile: addresses in Precompile; Wrapped has hash.rs, bn254.rs, modexp.rs
--               and blake2.rs; Transfer has transfer.rs, with the abstract ledger in Ledger and the
--               token contract's calldata in Calldata; Sets has the sets of mod.rs, Sets/Provider its
--               provider, Sets/Matrix the activation matrix of the tests of mod.rs, and Sets/Plan
--               what those tests assert of a hardfork. What the tests of modexp.rs assert
--               stands in Wrapped/Modexp, with the costs of EIP-2565 and EIP-7883 in its Costs
--   Transaction src/transaction.rs: the transaction, L1 messages, system transactions
--   Gas         src/gas.rs: the gas parameters of a hardfork
--   Builder     src/builder.rs: the configuration of a hardfork, and through a sequence of them
--   Handler     src/handler.rs: Env has validate_env, InitialGas has validate_initial_tx_gas, Charge
--               has pre_execution and the charging of the caller, with what a refusal leaves in
--               its Refusal, the step from Tsuki to TsukiV2 in its Upgrade, what a caller must
--               hold in its Upfront and what is not touched in its Unseen and Cold; Outcome has
--               all steps after execution; Inclusion follows an L1 message through all of them,
--               Sequence any sequence of transactions
--   Instructions src/instructions.rs: Blockhash, with the history contract's ring in Ring, the other
--               seven in Simple, and the Table with its holder ScrollInstructions
--   Evm         src/evm.rs, src/exec.rs and src/system_call.rs: the EVM and its entry points; Access
--               has the accessors of EvmTr and InspectorEvmTr; Build has the builders of
--               src/builder.rs, the default context and src/chain.rs
--   Tests       instances of the interfaces, and the theorems applied to concrete inputs
--
-- State is passed explicitly. The journal of revm is an abstract type with the operations that are
-- called; a function `balance` from journals to balances is a parameter of the theorems on money. A
-- U256, u64 or usize is the natural number that it stands for, and every operation that may leave
-- its range is the saturating, checked or wrapping one of the source; the calldata fold adds in u64
-- and its theorem bounds the length. Early returns are errors of Result. There are no loops but folds
-- over lists, which are structural, so no fuel is needed. A method that lends a part of the EVM by
-- `&mut` is a lens: what it lends, and the EVM after a write.
--
-- Not modelled: the bodies of revm's own methods that src/evm.rs forwards to, which are parameters;
-- the caches that hold a precompile set once it is built, which have no effect on it; the texts that
-- the fee's errors display; the tests that run whole transactions or the oracle's own code. What the other tests beside the code assert
-- is stated for every instance of the interfaces, as records or types named after the tests
-- (Spec/Documented, Gas/Refund, L1Block/Errors, Instructions/Table/Documented, Precompile/Sets/Plan,
-- Precompile/Wrapped/Modexp), and the inputs and numbers that they list stand in Tests/Vectors,
-- Tests/Limits, Tests/Opcodes, Tests/Upfront and Tests/Frames.
pub mod Prelude
pub mod Action
pub mod Balances
pub mod Spec
pub mod Uint
pub mod L1Block
pub mod Precompile
pub mod Transaction
pub mod Gas
pub mod Builder
pub mod Handler
pub mod Instructions
pub mod Evm
pub mod Tests
