-- ===== src/Protocol/Root.antt =====
-- `RootMessageLabel` of crates/common/src/lib.rs: requests to the root task.
use rust_root_task_demo_mi_d.Prelude.{
  ℕ, ◌+◌, ◌-◌, ◌≤◌, ◌≡◌, List, [], ◌∷◌, Option, none, some, arith, leb, ◌==◌, if◌then◌else◌, length,
  Exec, pure, ok, ◌>>=◌, ◌>>◌,
}
use rust_root_task_demo_mi_d.Ipc.{Ipc, read_reg, write_reg}

pub data RootMessageLabel : Type 0 where
  register_irq : ℕ → ℕ → RootMessageLabel
  translate_addr : ℕ → RootMessageLabel
  register_irq_with_cap : ℕ → RootMessageLabel

abbrev pub label_start : ℕ
label_start = 0x200

unfoldable pub to_label : RootMessageLabel → ℕ
to_label (register_irq _ _) = label_start + 0
to_label (translate_addr _) = label_start + 1
to_label (register_irq_with_cap _) = label_start + 2

-- The `match label` of `try_from`, on the index in the protocol.
unfoldable pub decode : {E : Type 0} → ℕ → Exec (List ℕ) E (Option RootMessageLabel)
decode n =
    if n == 0
    then (do
      irq_handler ← read_reg 0
      irq_num ← read_reg 1
      pure (some (register_irq irq_handler irq_num)))
    else if n == 1
    then (do addr ← read_reg 0; pure (some (translate_addr addr)))
    else if n == 2
    then (do irq_num ← read_reg 0; pure (some (register_irq_with_cap irq_num)))
    else pure none

-- The registers that `build` writes; the result is `msg_size`.
unfoldable pub write_args : {E : Type 0} → RootMessageLabel → Exec (List ℕ) E ℕ
write_args (register_irq irq_handler irq_num) = do
  write_reg 0 irq_handler
  write_reg 1 irq_num
  pure 2
write_args (translate_addr addr) = do write_reg 0 addr; pure 1
write_args (register_irq_with_cap irq_num) = do write_reg 0 irq_num; pure 1

module _ (ipc : Ipc) where
  open ipc use {MessageInfo, label, new, label-new}

  unfoldable pub try_from : {E : Type 0} → MessageInfo → Exec (List ℕ) E (Option RootMessageLabel)
  try_from message =
      if leb label_start (label message) then decode (label message - label_start) else pure none

  unfoldable pub build : {E : Type 0} → RootMessageLabel → Exec (List ℕ) E MessageInfo
  unfolding write_args to_label
  build request = do msg_size ← write_args request; pure (new (to_label request) 0 0 msg_size)

  -- A request to the root task that is built is read back from the registers by the receiver, and
  -- reading leaves them as they are, if the buffer has at least two registers.
  pub root_round_trip :
      {E : Type 0} (request : RootMessageLabel) (regs : List ℕ)
      → 2 ≤ length regs
      → (build {E = E} request >>= try_from) regs
        ≡ ((build {E = E} request regs).0, ok (some request))
  unfolding build try_from decode
  root_round_trip request [] h = absurd (omega arith)
  root_round_trip request (r ∷ []) h = absurd (omega arith)
  root_round_trip (register_irq a b) (r ∷ s ∷ regs) h = rw (label-new 0x200 0 0 2 (omega arith))
  root_round_trip (translate_addr a) (r ∷ s ∷ regs) h = rw (label-new 0x201 0 0 1 (omega arith))
  root_round_trip (register_irq_with_cap a) (r ∷ s ∷ regs) h =
      rw (label-new 0x202 0 0 1 (omega arith))
