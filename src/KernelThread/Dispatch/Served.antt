-- ===== src/KernelThread/Dispatch/Served.antt =====
-- What the calls of the kernel thread's server change, crates/kernel-thread/src/syscall/mm and
-- crates/kernel-thread/src/syscall/thread: the task of the badge, and no other.
use rust_root_task_demo_mi_d.Prelude.{
  >>=-Keeps, ℕ, ◌≡◌, ◌≢◌, ◌∙◌, refl, sym, ap, Option, none, some, Exec, ==_false, Keeps,
}
use rust_root_task_demo_mi_d.Alloc.{allocate_and_retyped_fixed_sized}
use rust_root_task_demo_mi_d.BTree.{get, get-insert}
use rust_root_task_demo_mi_d.Sel4.{Kernel}
use rust_root_task_demo_mi_d.Crates.{MemoryAddr, Bitflags}
use rust_root_task_demo_mi_d.KernelThread.Task.{Sel4Task, Context}
use rust_root_task_demo_mi_d.KernelThread.Server.{Server, Errno, on_task, with_task}
use rust_root_task_demo_mi_d.KernelThread.Mm.{
  brk_task, mmap_task, unmap_task, sys_brk, sys_mmap, sys_unmap,
}
use rust_root_task_demo_mi_d.KernelThread.Spawn.{Spawner, exec_task, sys_exec}
use rust_root_task_demo_mi_d.KernelThread.Thread.{
  on_allocator, read_task, fault_task, sys_getpid, sys_getppid, sys_getuid, sys_geteuid, sys_gettid,
  sys_set_tid_address, sys_exit, sys_exit_group, vm_fault,
}

-- The task of another badge.
abbrev pub other_task : {k : Kernel} → ℕ → Server k → Option Sel4Task
other_task other s = get s.tasks other

read_task-server :
    {k : Kernel} (field : Sel4Task → ℕ) (s : Server k) (t : Option Sel4Task)
    → (read_task field s t).0 ≡ s
read_task-server field s none = refl
read_task-server field s (some t) = refl

module _ {k : Kernel} (badge other : ℕ) where
  read_task-Keeps :
      (field : Sel4Task → ℕ)
      → Keeps (other_task {k = k} other) (λ s. read_task field s (get s.tasks badge))
  read_task-Keeps field s = ap (other_task other) (read_task-server field s (get s.tasks badge))

  pub sys_getpid-Keeps : Keeps (other_task other) (sys_getpid {k = k} badge)
  unfolding sys_getpid
  sys_getpid-Keeps = read_task-Keeps (λ task. task.pid)

  pub sys_getppid-Keeps : Keeps (other_task other) (sys_getppid {k = k} badge)
  unfolding sys_getppid
  sys_getppid-Keeps = read_task-Keeps (λ task. task.pid)

  pub sys_getuid-Keeps : Keeps (other_task other) (sys_getuid {k = k} badge)
  unfolding sys_getuid
  sys_getuid-Keeps = read_task-Keeps (λ task. task.id)

  pub sys_geteuid-Keeps : Keeps (other_task other) (sys_geteuid {k = k} badge)
  unfolding sys_geteuid
  sys_geteuid-Keeps = read_task-Keeps (λ task. task.id)

  pub sys_gettid-Keeps : Keeps (other_task other) (sys_gettid {k = k} badge)
  unfolding sys_gettid
  sys_gettid-Keeps s = refl

module _ {k : Kernel} (badge other : ℕ) (apart : other ≢ badge) where
  on_task-others :
      {A : Type 0} (op : Exec (Context k) Errno A) (s : Server k) (t : Option Sel4Task)
      → other_task other (on_task badge op s t).0 ≡ other_task other s
  on_task-others op s none = refl
  on_task-others op s (some t) =
      let (c, r) = op (record { machine = s.machine; task = t }) in
      get-insert badge c.task s.tasks other ∙ rw (==_false badge other (λ e. apart (sym e)))

  with_task-Keeps :
      {A : Type 0} (op : Exec (Context k) Errno A) → Keeps (other_task other) (with_task badge op)
  unfolding with_task
  with_task-Keeps op s = on_task-others op s (get s.tasks badge)

  pub sys_brk-Keeps : (addr : ℕ) → Keeps (other_task other) (sys_brk {k = k} badge addr)
  unfolding sys_brk
  sys_brk-Keeps addr = with_task-Keeps (brk_task addr)

  pub sys_exit-Keeps : (code : ℕ) → Keeps (other_task other) (sys_exit {k = k} badge code)
  unfolding sys_exit
  sys_exit-Keeps code = search (with_task-Keeps)

  pub sys_exit_group-Keeps :
      (code : ℕ) → Keeps (other_task other) (sys_exit_group {k = k} badge code)
  unfolding sys_exit_group
  sys_exit_group-Keeps code = search (with_task-Keeps)

  pub sys_set_tid_address-Keeps :
      (ptr : ℕ) → Keeps (other_task other) (sys_set_tid_address {k = k} badge ptr)
  unfolding sys_set_tid_address
  sys_set_tid_address-Keeps ptr = search (with_task-Keeps)

  pub vm_fault-Keeps : (addr : ℕ) → Keeps (other_task other) (vm_fault {k = k} badge addr)
  unfolding vm_fault
  vm_fault-Keeps addr =
      >>=-Keeps (other_task other) (on_allocator (allocate_and_retyped_fixed_sized k.granule))
        (λ page_cap. with_task badge (fault_task page_cap addr)) (λ s. refl)
        (λ page_cap. with_task-Keeps (fault_task page_cap addr))

  module _ (mem : MemoryAddr) (bits : Bitflags) where
    pub sys_mmap-Keeps :
        (addr length prot flags : ℕ)
        → Keeps (other_task other) (sys_mmap {k = k} mem bits badge addr length prot flags)
    unfolding sys_mmap
    sys_mmap-Keeps addr length prot flags =
        with_task-Keeps (mmap_task mem bits addr length prot flags)

    pub sys_unmap-Keeps :
        (addr length : ℕ) → Keeps (other_task other) (sys_unmap {k = k} mem bits badge addr length)
    unfolding sys_unmap
    sys_unmap-Keeps addr length = with_task-Keeps (unmap_task mem bits addr length)

  pub sys_exec-Keeps : (sp : Spawner k) (ep : ℕ) → Keeps (other_task other) (sys_exec sp badge ep)
  unfolding sys_exec
  sys_exec-Keeps sp ep = with_task-Keeps (exec_task sp ep)
