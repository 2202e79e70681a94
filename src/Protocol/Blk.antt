-- ===== src/Protocol/Blk.antt =====
-- `BlkMessageLabel` of crates/common/src/lib.rs: requests to the block thread.
use rust_root_task_demo_mi_d.Prelude.{
  ℕ, ◌+◌, ◌-◌, ◌≤◌, ◌≡◌, List, [], ◌∷◌, Option, none, some, arith, leb, ◌==◌, if◌then◌else◌, length,
  Exec, pure, ok, ◌>>=◌, ◌>>◌,
}
use rust_root_task_demo_mi_d.Ipc.{Ipc, read_reg, write_reg}

pub data BlkMessageLabel : Type 0 where
  ping : BlkMessageLabel
  read_block : ℕ → ℕ → BlkMessageLabel
  write_block : ℕ → ℕ → BlkMessageLabel
  num_block : BlkMessageLabel

abbrev pub label_start : ℕ
label_start = 0x300

unfoldable pub to_label : BlkMessageLabel → ℕ
to_label ping = label_start + 0
to_label (read_block _ _) = label_start + 1
to_label (write_block _ _) = label_start + 2
to_label num_block = label_start + 3

-- The `match label` of `try_from`, on the index in the protocol.
unfoldable pub decode : {E : Type 0} → ℕ → Exec (List ℕ) E (Option BlkMessageLabel)
decode n =
    if n == 0
    then pure (some ping)
    else if n == 1
    then (do idx ← read_reg 0; num ← read_reg 1; pure (some (read_block idx num)))
    else if n == 2
    then (do idx ← read_reg 0; num ← read_reg 1; pure (some (write_block idx num)))
    else if n == 3
    then pure (some num_block)
    else pure none

-- The registers that `build` writes; the result is `msg_size`.
unfoldable pub write_args : {E : Type 0} → BlkMessageLabel → Exec (List ℕ) E ℕ
write_args ping = pure 0
write_args (read_block idx num) = do write_reg 0 idx; write_reg 1 num; pure 2
write_args (write_block idx num) = do write_reg 0 idx; write_reg 1 num; pure 2
write_args num_block = pure 0

module _ (ipc : Ipc) where
  open ipc use {MessageInfo, label, new, label-new}

  unfoldable pub try_from : {E : Type 0} → MessageInfo → Exec (List ℕ) E (Option BlkMessageLabel)
  try_from message =
      if leb label_start (label message) then decode (label message - label_start) else pure none

  unfoldable pub build : {E : Type 0} → BlkMessageLabel → Exec (List ℕ) E MessageInfo
  unfolding write_args to_label
  build request = do msg_size ← write_args request; pure (new (to_label request) 0 0 msg_size)

  -- A block request that is built is read back from the registers by the receiver, and reading
  -- leaves them as they are, if the buffer has at least two registers.
  pub blk_round_trip :
      {E : Type 0} (request : BlkMessageLabel) (regs : List ℕ)
      → 2 ≤ length regs
      → (build {E = E} request >>= try_from) regs
        ≡ ((build {E = E} request regs).0, ok (some request))
  unfolding build try_from decode
  blk_round_trip request [] h = absurd (omega arith)
  blk_round_trip request (r ∷ []) h = absurd (omega arith)
  blk_round_trip ping (r ∷ s ∷ regs) h = rw (label-new 0x300 0 0 0 (omega arith))
  blk_round_trip (read_block a b) (r ∷ s ∷ regs) h = rw (label-new 0x301 0 0 2 (omega arith))
  blk_round_trip (write_block a b) (r ∷ s ∷ regs) h = rw (label-new 0x302 0 0 2 (omega arith))
  blk_round_trip num_block (r ∷ s ∷ regs) h = rw (label-new 0x303 0 0 0 (omega arith))
