-- ===== src/Crates.antt =====
-- What the code takes from the memory_addr and bitflags crates, with the documented behaviour that
-- proofs rely on.
use rust_root_task_demo_mi_d.Prelude.{
  ℕ, zero, suc, ◌+◌, ◌-◌, ◌≤◌, ◌*◌, ◌/◌, ◌%◌, ◌^◌, ◌<◌, ◌≡◌, Bool, List, [], ◌∷◌, Option, some,
}

-- `n` addresses, `step` apart, from `start` on.
abbrev pub steps : ℕ → ℕ → ℕ → List ℕ
steps step start zero = []
steps step start (suc n) = start ∷ steps step (start + step) n

-- `VirtAddr`, a `usize`, and `PageIter4K`.
pub record MemoryAddr : Type 0 where
  pub add : ℕ → ℕ → ℕ
  pub sub : ℕ → ℕ → ℕ
  pub align_down_4k : ℕ → ℕ
  pub align_up_4k : ℕ → ℕ
  pub align_offset_4k : ℕ → ℕ
  pub page_iter_4k : ℕ → ℕ → Option (List ℕ)
  pub add_lem : (a b : ℕ) → a + b < 2 ^ 64 → add a b ≡ a + b
  pub sub_lem : (a b : ℕ) → b ≤ a → sub a b ≡ a - b
  pub align_down_4k_lem : (a : ℕ) → align_down_4k a ≡ a / 4096 * 4096
  pub align_up_4k_lem : (a : ℕ) → a + 4095 < 2 ^ 64 → align_up_4k a ≡ (a + 4095) / 4096 * 4096
  pub align_offset_4k_lem : (a : ℕ) → align_offset_4k a ≡ a % 4096
  pub page_iter_4k_lem :
      (a b n : ℕ) → a % 4096 ≡ 0 → a + n * 4096 ≡ b → page_iter_4k a b ≡ some (steps 4096 a n)

-- A type that `bitflags!` generates, by the union of the flags that it declares.
pub record Bitflags : Type 0 where
  pub from_bits : ℕ → ℕ → Option ℕ
  pub contains : ℕ → ℕ → Bool
