-- ===== src/Instructions/Blockhash/Preimage.antt =====
-- src/instructions.rs: the block hash before Feynman tells chains and blocks apart.
use dogeos_revm.Prelude.{
  ℕ, ◌≤◌, ◌≡◌, ◌∙◌, refl, ap, sym, List, ◌++◌, length, take, drop, be_value, IsBytes, arith,
}
use dogeos_revm.Uint.{UintOps}
use dogeos_revm.L1Block.{u64_max}
use dogeos_revm.Instructions.{InterpreterOps, HostOps}
use dogeos_revm.Instructions.Blockhash.{to_be_bytes, compute_block_hash}

be_value-to_be_bytes : (n : ℕ) → n ≤ u64_max → be_value 0 (to_be_bytes n) ≡ n
be_value-to_be_bytes n h = omega arith

preimage-IsBytes : (a b : ℕ) → IsBytes (to_be_bytes a ++ to_be_bytes b)
preimage-IsBytes a b = ground arith

module _ {I H : Type 0} (u : UintOps) (it : InterpreterOps I) (host : HostOps H) where
  -- Keccak-256 without a collision among inputs of 16 bytes.
  pub record IsCollisionFree : Type 0 where
    pub injective :
        (x y : List ℕ)
        → length x ≡ 16
        → length y ≡ 16
        → IsBytes x
        → IsBytes y
        → host.keccak_word x ≡ host.keccak_word y
        → x ≡ y

  -- If Keccak-256 has no collision among 16-byte inputs, the block hash that is computed from a chain
  -- id and a block number of 64 bits determines both.
  pub compute_block_hash-injective :
      IsCollisionFree
      → (chain chain' number number' : ℕ) → chain ≤ u64_max
      → chain' ≤ u64_max
      → number ≤ u64_max
      → number' ≤ u64_max
      → compute_block_hash u it host chain number ≡ compute_block_hash u it host chain' number'
      → (chain ≡ chain') × (number ≡ number')
  unfolding compute_block_hash
  compute_block_hash-injective free chain chain' number number' h h' k k' e =
      let same =
        free.injective (to_be_bytes chain ++ to_be_bytes number)
          (to_be_bytes chain' ++ to_be_bytes number') refl refl (preimage-IsBytes chain number)
          (preimage-IsBytes chain' number') e in
      (
        sym (be_value-to_be_bytes chain h)
            ∙ ap (λ bytes. be_value 0 (take 8 bytes)) same
            ∙ be_value-to_be_bytes chain' h',
        sym (be_value-to_be_bytes number k)
            ∙ ap (λ bytes. be_value 0 (drop 8 bytes)) same
            ∙ be_value-to_be_bytes number' k',
      )
