-- ===== src/KernelThread/Thread.antt =====
-- The thread system calls, crates/kernel-thread/src/syscall/thread/task.rs and schedule.rs, and the
-- page faults that crates/kernel-thread/src/child_test.rs handles.
pub mod Exit
pub mod Fault
use rust_root_task_demo_mi_d.Prelude.{
  ℕ, ◌*◌, ◌/◌, Option, none, some, Exec, Outcome, ok, panic, pure, ◌>>=◌, ◌>>◌,
}
use rust_root_task_demo_mi_d.BTree.{BTreeMap, get}
use rust_root_task_demo_mi_d.Sel4.{Kernel}
use rust_root_task_demo_mi_d.Alloc.{Machine, call, allocate_and_retyped_fixed_sized}
use rust_root_task_demo_mi_d.KernelThread.Task.{
  Sel4Task, Context, on_machine, update_task, map_page,
}
use rust_root_task_demo_mi_d.KernelThread.Server.{Errno, Server, with_task}

-- `align_bits(addr, 12)`
abbrev pub align_page : ℕ → ℕ
align_page addr = addr / 4096 * 4096

module _ {k : Kernel} where
  -- `OBJ_ALLOCATOR.lock()`.
  abbrev pub on_allocator : {A : Type 0} → Exec (Machine k) Errno A → Exec (Server k) Errno A
  on_allocator op w = let (m, r) = op w.machine in (record w { machine = m }, r)

  -- `TASK_MAP.lock().get(&badge).unwrap()` and a field of the task.
  abbrev pub read_task : (Sel4Task → ℕ) → Server k → Option Sel4Task → Server k × Outcome Errno ℕ
  read_task field w none = (w, panic)
  read_task field w (some task) = (w, ok (field task))

  unfoldable pub sys_getpid : ℕ → Exec (Server k) Errno ℕ
  unfolding get
  sys_getpid badge w = read_task (λ task. task.pid) w (get w.tasks badge)

  unfoldable pub sys_getppid : ℕ → Exec (Server k) Errno ℕ
  unfolding get
  sys_getppid badge w = read_task (λ task. task.pid) w (get w.tasks badge)

  unfoldable pub sys_getuid : ℕ → Exec (Server k) Errno ℕ
  unfolding get
  sys_getuid badge w = read_task (λ task. task.id) w (get w.tasks badge)

  unfoldable pub sys_geteuid : ℕ → Exec (Server k) Errno ℕ
  unfolding get
  sys_geteuid badge w = read_task (λ task. task.id) w (get w.tasks badge)

  unfoldable pub sys_gettid : ℕ → Exec (Server k) Errno ℕ
  sys_gettid badge = pure badge

  unfoldable pub sys_set_tid_address : ℕ → ℕ → Exec (Server k) Errno ℕ
  unfolding with_task
  sys_set_tid_address badge tidptr =
      with_task badge
        (do update_task (λ task. record task { clear_child_tid = some tidptr }); pure badge)

  unfoldable pub sys_exit : ℕ → ℕ → Exec (Server k) Errno ℕ
  unfolding with_task
  sys_exit badge exit_code = with_task badge (do
    update_task (λ task. record task { exit = some exit_code })
    λ c. on_machine (call (k.tcb_suspend c.task.tcb)) c
    pure 0)

  -- The same body as `sys_exit`.
  unfoldable pub sys_exit_group : ℕ → ℕ → Exec (Server k) Errno ℕ
  unfolding with_task
  sys_exit_group badge exit_code = with_task badge (do
    update_task (λ task. record task { exit = some exit_code })
    λ c. on_machine (call (k.tcb_suspend c.task.tcb)) c
    pure 0)

  -- The page of a fault is mapped and the task resumed.
  unfoldable pub fault_task : ℕ → ℕ → Exec (Context k) Errno (Unit {0})
  fault_task page_cap addr = do
    map_page (align_page addr) page_cap
    λ c. on_machine (call (k.tcb_resume c.task.tcb)) c

  -- A page is allocated before the task is looked up.
  unfoldable pub vm_fault : ℕ → ℕ → Exec (Server k) Errno (Unit {0})
  unfolding with_task fault_task
  vm_fault badge addr = do
    page_cap ← on_allocator (allocate_and_retyped_fixed_sized k.granule)
    with_task badge (fault_task page_cap addr)
