-- ===== src/KernelThread/Thread/Exit.antt =====
-- `sys_exit` of crates/kernel-thread/src/syscall/thread/schedule.rs among several tasks.
use rust_root_task_demo_mi_d.Prelude.{ℕ, ◌≡◌, ◌≢◌, refl, ◌∙◌, some, ok, ==_false, ==_refl, sym}
use rust_root_task_demo_mi_d.BTree.{get, insert, get-insert}
use rust_root_task_demo_mi_d.Sel4.{Kernel}
use rust_root_task_demo_mi_d.KernelThread.Task.{Sel4Task}
use rust_root_task_demo_mi_d.KernelThread.Server.{Server, with_task}
use rust_root_task_demo_mi_d.KernelThread.Thread.{sys_exit}

module _ (k : Kernel) where
  -- Where the kernel suspends its thread, the exit of a task records its code and nothing else of
  -- it, and every other task stays as it was.
  pub sys_exit_lem :
      (badge exit_code : ℕ) (w : Server k) (task : Sel4Task) (kernel : k.State)
      → get w.tasks badge ≡ some task
      → k.tcb_suspend task.tcb w.machine.kernel ≡ (kernel, ok tt)
      → (w' : Server k) × (sys_exit {k = k} badge exit_code w ≡ (w', ok 0))
        × (get w'.tasks badge ≡ some (record task { exit = some exit_code }))
        × ((other : ℕ) → other ≢ badge → get w'.tasks other ≡ get w.tasks other)
  unfolding sys_exit with_task
  sys_exit_lem badge exit_code w task kernel known suspends =
      let after : Sel4Task = record task { exit = some exit_code } in
      (
        record {
          machine = record (w.machine) { kernel = kernel };
          tasks = insert badge after w.tasks;
        },
        rw (known, suspends) refl,
        get-insert badge after w.tasks badge ∙ rw (==_refl badge) refl,
        λ other ne.
            get-insert badge after w.tasks other ∙ rw (==_false badge other (λ e. ne (sym e))) refl,
      )
