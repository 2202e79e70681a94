-- ===== src/KernelThread/Server.antt =====
-- The state of the kernel thread: its allocator and its tasks by badge (`OBJ_ALLOCATOR` in
-- crates/kernel-thread/src/main.rs, `TASK_MAP` in crates/kernel-thread/src/child_test.rs).
use rust_root_task_demo_mi_d.Prelude.{ℕ, Option, none, some, Exec, Outcome, panic}
use rust_root_task_demo_mi_d.BTree.{BTreeMap, get, insert}
use rust_root_task_demo_mi_d.Sel4.{Kernel}
use rust_root_task_demo_mi_d.Alloc.{Machine}
use rust_root_task_demo_mi_d.KernelThread.Task.{Sel4Task, Context}

-- The errors of the syscalls crate that the code returns.
pub data Errno : Type 0 where
  einval enomem efault enosys : Errno

pub record Server (k : Kernel) : Type 0 where
  pub machine : Machine k
  pub tasks : BTreeMap Sel4Task

module _ {k : Kernel} where
  -- The work on the task of a badge; the task is changed in place in the map.
  abbrev pub on_task :
      {E A : Type 0}
      → ℕ
      → Exec (Context k) E A
      → Server k
      → Option Sel4Task
      → Server k × Outcome E A
  on_task badge op w none = (w, panic)
  on_task badge op w (some t) =
      let (c, r) = op (record { machine = w.machine; task = t }) in
      (record { machine = c.machine; tasks = insert badge c.task w.tasks }, r)

  -- `TASK_MAP.lock()`, then `task_map.get_mut(&badge).unwrap()`.
  unfoldable pub with_task : {E A : Type 0} → ℕ → Exec (Context k) E A → Exec (Server k) E A
  unfolding get insert
  with_task badge op w = on_task badge op w (get w.tasks badge)
