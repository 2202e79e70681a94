-- ===== src/KernelThread/Dispatch/Reply.antt =====
-- The word that a task gets for a system call, crates/kernel-thread/src/child_test.rs, and the calls
-- that crates/kernel-thread/src/syscall/mod.rs does not serve.
use rust_root_task_demo_mi_d.Prelude.{
  ℕ, ◌-◌, ◌^◌, ◌≤◌, ◌<◌, ◌≡◌, refl, sym, ap, ◌∙◌, List, ◌∷◌, Option, none, some, arith, Outcome, ok,
  err, panic,
}
use rust_root_task_demo_mi_d.Ipc.{Ipc}
use rust_root_task_demo_mi_d.Sel4.{Kernel}
use rust_root_task_demo_mi_d.Crates.{MemoryAddr, Bitflags}
use rust_root_task_demo_mi_d.KernelThread.Server.{Errno, einval, enosys}
use rust_root_task_demo_mi_d.KernelThread.Net.{AxCodes, Wire, Desk}
use rust_root_task_demo_mi_d.KernelThread.Net.Calls.{UserMemory}
use rust_root_task_demo_mi_d.KernelThread.Dispatch.{
  Outside, Args, unserved, dispatch, reply_word, answer, error_word, handle_ipc_call,
}

-- The raw numbers of errors lie between 1 and 4095, and differ.
pub record RawLaws (k : Kernel) (o : Outside k) : Type 0 where
  pub of_raw : ℕ → Option Errno
  pub of_raw-into_raw : (e : Errno) → of_raw (o.into_raw e) ≡ some e
  pub positive : (e : Errno) → 0 < o.into_raw e
  pub small : (e : Errno) → o.into_raw e ≤ 4095

-- A result that a call may have: an error, or a value below the words that stand for errors.
abbrev pub IsResult : Outcome Errno (Option ℕ) → Type 0
IsResult (ok (some n)) = n < 2 ^ 64 - 4095
IsResult (ok none) = ⊥
IsResult (err e) = Unit {0}
IsResult panic = ⊥

module _ {k : Kernel} {ipc : Ipc} (mem : MemoryAddr) (bits : Bitflags) (u : UserMemory k)
    (w : Wire k ipc) (codes : AxCodes) (o : Outside k) where
  -- The word for a result.
  abbrev word_of : Outcome Errno (Option ℕ) → ℕ
  word_of (ok (some n)) = n
  word_of (ok none) = 0
  word_of (err e) = error_word mem bits u w codes o e
  word_of panic = 0

  answer-word :
      (r : Outcome Errno (Option ℕ)) (first : ℕ) (rest : List ℕ) (d : Desk k)
      → IsResult r
      → d.regs ≡ first ∷ rest
      → (answer mem bits u w codes o (d, r)).0.regs ≡ word_of r ∷ rest
  unfolding answer reply_word
  answer-word (ok (some n)) first rest d small regs = simp regs
  answer-word (ok none) first rest d small regs = absurd small
  answer-word (err e) first rest d small regs = simp regs
  answer-word panic first rest d small regs = absurd small

  word_of-injective :
      (laws : RawLaws k o) (a b : Outcome Errno (Option ℕ))
      → IsResult a
      → IsResult b
      → word_of a ≡ word_of b
      → a ≡ b
  word_of-injective laws (ok (some m)) (ok (some n)) ha hb e = ap (λ x. ok (some x)) e
  word_of-injective laws (ok (some m)) (err y) ha hb e =
      absurd (omega (arith, laws.small y, laws.positive y))
  word_of-injective laws (err x) (ok (some n)) ha hb e =
      absurd (omega (arith, laws.small x, laws.positive x))
  word_of-injective laws (err x) (err y) ha hb e =
      let same : o.into_raw x ≡ o.into_raw y = omega (arith, laws.small x, laws.small y) in
      let both : some x ≡ some y =
        sym (laws.of_raw-into_raw x) ∙ ap laws.of_raw same ∙ laws.of_raw-into_raw y in
      cc
  word_of-injective laws (ok none) b ha hb e = absurd ha
  word_of-injective laws panic b ha hb e = absurd ha
  word_of-injective laws (ok (some m)) (ok none) ha hb e = absurd hb
  word_of-injective laws (ok (some m)) panic ha hb e = absurd hb
  word_of-injective laws (err x) (ok none) ha hb e = absurd hb
  word_of-injective laws (err x) panic ha hb e = absurd hb

  -- A task can tell any two results of a system call apart by the register of the reply, whether
  -- they are values below the last 4095 words or errors.
  pub answer-injective :
      (laws : RawLaws k o) (a b : Outcome Errno (Option ℕ)) (first : ℕ) (rest : List ℕ) (d : Desk k)
      → d.regs ≡ first ∷ rest
      → IsResult a
      → IsResult b
      → (answer mem bits u w codes o (d, a)).0.regs ≡ (answer mem bits u w codes o (d, b)).0.regs
      → a ≡ b
  answer-injective laws a b first rest d regs ha hb e =
      let words : word_of a ∷ rest ≡ word_of b ∷ rest =
        sym (answer-word a first rest d ha regs) ∙ e ∙ answer-word b first rest d hb regs in
      word_of-injective laws a b ha hb (cc)

  -- A number that is no system call gets EINVAL, one that is not served gets ENOSYS, and nothing
  -- changes.
  pub handle_ipc_call-unserved :
      (rounds badge sys_id ep : ℕ) (args : Args) (d : Desk k)
      → (o.sysno sys_id ≡ none
          → handle_ipc_call mem bits u w codes o rounds badge sys_id args ep d ≡ (d, err einval))
        × (o.sysno sys_id ≡ some unserved
            → handle_ipc_call mem bits u w codes o rounds badge sys_id args ep d ≡ (d, err enosys))
  unfolding handle_ipc_call dispatch
  handle_ipc_call-unserved rounds badge sys_id ep args d = (λ e. rw e refl, λ e. rw e refl)
