-- ===== src/Protocol/Custom.antt =====
-- `CustomMessageLabel` of crates/common/src/lib.rs: messages of a user task to the kernel thread.
use rust_root_task_demo_mi_d.Prelude.{
  ℕ, ◌+◌, ◌-◌, ◌≡◌, Option, none, some, arith, leb, ◌==◌, if◌then◌else◌,
}
use rust_root_task_demo_mi_d.Ipc.{Ipc}

pub data CustomMessageLabel : Type 0 where
  test_custom_message sys_call exit : CustomMessageLabel

abbrev pub label_start : ℕ
label_start = 0x100

unfoldable pub to_label : CustomMessageLabel → ℕ
to_label test_custom_message = 0 + label_start
to_label sys_call = 1 + label_start
to_label exit = 2 + label_start

unfoldable pub decode : ℕ → Option CustomMessageLabel
decode n =
    if n == 0
    then some test_custom_message
    else if n == 1
    then some sys_call
    else if n == 2
    then some exit
    else none

module _ (ipc : Ipc) where
  open ipc use {MessageInfo, label, new, label-new}

  unfoldable pub try_from : MessageInfo → Option CustomMessageLabel
  unfolding decode
  try_from message =
      if leb label_start (label message) then decode (label message - label_start) else none

  -- A custom label is read back from any message that carries it, whatever its other fields, and
  -- a label is recognised for no other message.
  pub try_from_iff :
      (message : MessageInfo) (l : CustomMessageLabel)
      → ((label message ≡ to_label l → try_from message ≡ some l)
          × (try_from message ≡ some l → label message ≡ to_label l))
  unfolding try_from to_label
  try_from_iff message test_custom_message = (λ e. ground arith, λ e. ground arith)
  try_from_iff message sys_call = (λ e. ground arith, λ e. ground arith)
  try_from_iff message exit = (λ e. ground arith, λ e. ground arith)
