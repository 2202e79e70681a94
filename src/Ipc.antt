-- ===== src/Ipc.antt =====
-- The seL4 IPC primitives that crates/common/src/lib.rs builds its messages with: the message
-- registers of the IPC buffer, a slice of words, and the packed `MessageInfo` word, which the sel4
-- crate provides and which is an interface here.
use rust_root_task_demo_mi_d.Prelude.{
  ℕ, ◌<◌, ◌^◌, ◌≡◌, List, none, some, Exec, ok, panic, get_elem?, set,
}

-- `sel4::MessageInfo`: a word with fields of 52, 3, 2 and 7 bits.
pub record Ipc : Type 1 where
  pub MessageInfo : Type 0
  pub new : ℕ → ℕ → ℕ → ℕ → MessageInfo
  pub label : MessageInfo → ℕ
  pub extra_caps : MessageInfo → ℕ
  pub length : MessageInfo → ℕ
  pub label-new : (l u c n : ℕ) → l < 2 ^ 52 → label (new l u c n) ≡ l
  pub extra_caps-new : (l u c n : ℕ) → c < 2 ^ 2 → extra_caps (new l u c n) ≡ c
  pub length-new : (l u c n : ℕ) → n < 2 ^ 7 → length (new l u c n) ≡ n

-- `regs[i]`, a panic out of bounds.
abbrev pub read_reg : {E : Type 0} → ℕ → Exec (List ℕ) E ℕ
read_reg i regs = elim (get_elem? regs i) [ none ↦ (regs, panic) | some v ↦ (regs, ok v) ]

-- `regs[i] = v`, a panic out of bounds.
abbrev pub write_reg : {E : Type 0} → ℕ → ℕ → Exec (List ℕ) E (Unit {0})
write_reg i v regs = elim (get_elem? regs i) [
  | none ↦ (regs, panic)
  | some _ ↦ (set regs i v, ok tt)
]
