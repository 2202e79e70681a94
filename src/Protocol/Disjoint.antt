-- ===== src/Protocol/Disjoint.antt =====
-- The four protocols of crates/common/src/lib.rs share endpoints (faults, IRQs and requests arrive
-- on one), so a receiver tells them apart by label alone.
use rust_root_task_demo_mi_d.Prelude.{
  ℕ, ◌+◌, ◌≤◌, ◌<◌, ◌≡◌, ◌⊎◌, Option, none, some, List, arith, Outcome, ok, err, panic,
}
use rust_root_task_demo_mi_d.Ipc.{Ipc}
use rust_root_task_demo_mi_d.Protocol.Custom
use rust_root_task_demo_mi_d.Protocol.Root
use rust_root_task_demo_mi_d.Protocol.Blk
use rust_root_task_demo_mi_d.Protocol.Net

-- 1 where a reader recognised the message.
abbrev pub recognised : {A : Type 0} → Option A → ℕ
recognised none = 0
recognised (some _) = 1

abbrev pub read_as : {S E A : Type 0} → S × Outcome E (Option A) → ℕ
read_as (s, ok o) = recognised o
read_as (s, err e) = 0
read_as (s, panic) = 0

module _ (ipc : Ipc) (message : ipc.MessageInfo) (regs : List ℕ) where
  custom_range :
      (recognised (Custom.try_from ipc message) ≡ 0)
      ⊎ ((0x100 ≤ ipc.label message)
          × (ipc.label message ≤ 0x102)
          × (recognised (Custom.try_from ipc message) ≡ 1))
  unfolding Custom.try_from
  custom_range = ground arith

  root_range :
      (read_as (Root.try_from ipc {E = ⊥} message regs) ≡ 0)
      ⊎ ((0x200 ≤ ipc.label message)
          × (ipc.label message ≤ 0x202)
          × (read_as (Root.try_from ipc {E = ⊥} message regs) ≡ 1))
  unfolding Root.try_from Root.decode
  root_range = ground arith

  blk_range :
      (read_as (Blk.try_from ipc {E = ⊥} message regs) ≡ 0)
      ⊎ ((0x300 ≤ ipc.label message)
          × (ipc.label message ≤ 0x303)
          × (read_as (Blk.try_from ipc {E = ⊥} message regs) ≡ 1))
  unfolding Blk.try_from Blk.decode
  blk_range = ground arith

  net_range :
      (read_as (Net.try_from ipc {E = ⊥} message regs) ≡ 0)
      ⊎ ((0x400 ≤ ipc.label message)
          × (ipc.label message ≤ 0x40b)
          × (read_as (Net.try_from ipc {E = ⊥} message regs) ≡ 1))
  unfolding Net.try_from Net.decode
  net_range = ground arith

  -- Whatever the message and the registers are, at most one of the four protocols recognises it,
  -- and none recognises a message with a label below 8, which seL4 uses for faults.
  pub at_most_one :
      (recognised (Custom.try_from ipc message)
          + read_as (Root.try_from ipc {E = ⊥} message regs)
          + read_as (Blk.try_from ipc {E = ⊥} message regs)
          + read_as (Net.try_from ipc {E = ⊥} message regs)
        ≤ 1)
      × (ipc.label message < 8
          → recognised (Custom.try_from ipc message)
              + read_as (Root.try_from ipc {E = ⊥} message regs)
              + read_as (Blk.try_from ipc {E = ⊥} message regs)
              + read_as (Net.try_from ipc {E = ⊥} message regs)
            ≡ 0)
  at_most_one = omega (arith, custom_range, root_range, blk_range, net_range)
