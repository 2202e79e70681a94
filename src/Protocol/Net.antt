-- ===== src/Protocol/Net.antt =====
-- `NetRequsetabel` of crates/common/src/lib.rs: requests of the kernel thread to the net thread.
pub mod Frame
use rust_root_task_demo_mi_d.Prelude.{
  ℕ, ◌+◌, ◌-◌, ◌≤◌, ◌≡◌, List, [], ◌∷◌, Option, none, some, arith, leb, ◌==◌, if◌then◌else◌, length,
  Exec, pure, ok, ◌>>=◌, ◌>>◌,
}
use rust_root_task_demo_mi_d.Ipc.{Ipc, read_reg, write_reg}

pub data NetRequsetabel : Type 0 where
  new_socket : NetRequsetabel
  is_non_blocking : ℕ → NetRequsetabel
  set_non_blocking : ℕ → ℕ → NetRequsetabel
  bind : ℕ → ℕ → NetRequsetabel
  send : ℕ → ℕ → ℕ → NetRequsetabel
  recv : ℕ → ℕ → ℕ → NetRequsetabel
  recv_timeout : ℕ → ℕ → ℕ → ℕ → NetRequsetabel
  connect : ℕ → ℕ → NetRequsetabel
  listen : ℕ → NetRequsetabel
  accept : ℕ → NetRequsetabel
  shutdown : ℕ → NetRequsetabel
  close : ℕ → NetRequsetabel

abbrev pub label_start : ℕ
label_start = 0x400

unfoldable pub to_label : NetRequsetabel → ℕ
to_label new_socket = label_start + 0
to_label (is_non_blocking _) = label_start + 1
to_label (set_non_blocking _ _) = label_start + 2
to_label (bind _ _) = label_start + 3
to_label (send _ _ _) = label_start + 4
to_label (recv _ _ _) = label_start + 5
to_label (recv_timeout _ _ _ _) = label_start + 6
to_label (connect _ _) = label_start + 7
to_label (listen _) = label_start + 8
to_label (accept _) = label_start + 9
to_label (shutdown _) = label_start + 10
to_label (close _) = label_start + 11

abbrev one_arg : {E : Type 0} → (ℕ → NetRequsetabel) → Exec (List ℕ) E (Option NetRequsetabel)
one_arg make = do a ← read_reg 0; pure (some (make a))

abbrev two_args : {E : Type 0} → (ℕ → ℕ → NetRequsetabel) → Exec (List ℕ) E (Option NetRequsetabel)
two_args make = do a ← read_reg 0; b ← read_reg 1; pure (some (make a b))

abbrev three_args :
    {E : Type 0} → (ℕ → ℕ → ℕ → NetRequsetabel) → Exec (List ℕ) E (Option NetRequsetabel)
three_args make = do a ← read_reg 0; b ← read_reg 1; c ← read_reg 2; pure (some (make a b c))

abbrev four_args :
    {E : Type 0} → (ℕ → ℕ → ℕ → ℕ → NetRequsetabel) → Exec (List ℕ) E (Option NetRequsetabel)
four_args make = do
  a ← read_reg 0
  b ← read_reg 1
  c ← read_reg 2
  d ← read_reg 3
  pure (some (make a b c d))

-- The `match label` of `try_from`, on the index in the protocol.
unfoldable pub decode : {E : Type 0} → ℕ → Exec (List ℕ) E (Option NetRequsetabel)
decode n =
    if n == 0
    then pure (some new_socket)
    else if n == 1
    then one_arg is_non_blocking
    else if n == 2
    then two_args set_non_blocking
    else if n == 3
    then two_args bind
    else if n == 4
    then three_args send
    else if n == 5
    then three_args recv
    else if n == 6
    then four_args recv_timeout
    else if n == 7
    then two_args connect
    else if n == 8
    then one_arg listen
    else if n == 9
    then one_arg accept
    else if n == 10
    then one_arg shutdown
    else if n == 11
    then one_arg close
    else pure none

-- The registers that `build` writes; the results are `extra_caps` and `msg_size`.
unfoldable pub write_args : {E : Type 0} → NetRequsetabel → Exec (List ℕ) E (ℕ × ℕ)
write_args new_socket = pure (0, 0)
write_args (is_non_blocking id) = do write_reg 0 id; pure (0, 1)
write_args (set_non_blocking id non_blocking) = do
  write_reg 0 id
  write_reg 1 non_blocking
  pure (0, 2)
write_args (bind id local_addr) = do write_reg 0 id; write_reg 1 local_addr; pure (1, 2)
write_args (send id buf buf_len) = do
  write_reg 0 id
  write_reg 1 buf
  write_reg 2 buf_len
  pure (1, 3)
write_args (recv id buf buf_len) = do
  write_reg 0 id
  write_reg 1 buf
  write_reg 2 buf_len
  pure (1, 3)
write_args (recv_timeout id buf buf_len deadline_tick) = do
  write_reg 0 id
  write_reg 1 buf
  write_reg 2 buf_len
  write_reg 3 deadline_tick
  pure (1, 4)
write_args (connect id remote_addr) = do write_reg 0 id; write_reg 1 remote_addr; pure (1, 2)
write_args (listen id) = do write_reg 0 id; pure (0, 1)
write_args (accept id) = do write_reg 0 id; pure (0, 1)
write_args (shutdown id) = do write_reg 0 id; pure (0, 1)
write_args (close id) = do write_reg 0 id; pure (0, 1)

module _ (ipc : Ipc) where
  open ipc use {MessageInfo, label, new}

  unfoldable pub try_from : {E : Type 0} → MessageInfo → Exec (List ℕ) E (Option NetRequsetabel)
  try_from message =
      if leb label_start (label message) then decode (label message - label_start) else pure none

  unfoldable pub build : {E : Type 0} → NetRequsetabel → Exec (List ℕ) E MessageInfo
  unfolding write_args to_label
  build request = do sizes ← write_args request; pure (new (to_label request) 0 sizes.0 sizes.1)
