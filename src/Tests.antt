-- ===== src/Tests.antt =====
-- Concrete inputs, and the theorems applied to them.
mod Plan
mod Cold
mod Opcodes
mod Upfront
mod Frames
mod Funds
mod Vectors
mod Limits
mod History
mod Verdicts
mod Bystanders
mod Providers
mod Conservation
mod Inclusion
mod Supply
mod Sequence
mod Transient
mod Names
mod Fees
mod Oracle
mod Transfers
mod Precompiles
mod Config
mod Ledger
mod Validation
mod Charging
mod Settling
mod Machine
mod Interpreters
mod Entries
mod PreExecution
