-- ===== src/KernelThread/Copy/Holes.antt =====
-- Pages that are not mapped, in `process_item_list` of crates/kernel-thread/src/utils.rs and
-- `sys_write` of crates/kernel-thread/src/syscall/fs/io.rs.
use rust_root_task_demo_mi_d.Prelude.{
  ℕ, zero, suc, ◌<◌, ◌≡◌, ◌⊎◌, inl, inr, refl, none, arith, ok, ==_false,
}
use rust_root_task_demo_mi_d.BTree.{BTreeMap, get}
use rust_root_task_demo_mi_d.Crates.{MemoryAddr}
use rust_root_task_demo_mi_d.KernelThread.Thread.{align_page}
use rust_root_task_demo_mi_d.KernelThread.Copy.{Seat, write_rounds, write_task}

module _ (mem : MemoryAddr) (k : Seat) (pages : BTreeMap ℕ) (buf count : ℕ) where
  write_rounds-hole :
      (rounds payload_length : ℕ) (s : k.State)
      → 0 < count
      → get pages (align_page buf) ≡ none
      → write_rounds mem k rounds pages buf count payload_length s ≡ (s, ok none)
  unfolding write_rounds
  write_rounds-hole zero payload_length s some_bytes hole = refl
  write_rounds-hole (suc rounds) payload_length s some_bytes hole =
      rw (==_false count 0 (λ e. omega (arith, e, some_bytes)), hole)
        (write_rounds-hole rounds payload_length s some_bytes hole)

  -- Where the first page of its buffer is not mapped, a write to standard output or error has not
  -- ended after any number of rounds, and changes nothing.
  pub write_task-hole :
      (rounds fd : ℕ) (s : k.State)
      → (fd ≡ 1) ⊎ (fd ≡ 2)
      → 0 < count
      → get pages (align_page buf) ≡ none
      → write_task mem k rounds pages fd buf count s ≡ (s, ok none)
  unfolding write_task
  write_task-hole rounds fd s (inl out) some_bytes hole =
      rw out (write_rounds-hole rounds 0 s some_bytes hole)
  write_task-hole rounds fd s (inr error) some_bytes hole =
      rw error (write_rounds-hole rounds 0 s some_bytes hole)
