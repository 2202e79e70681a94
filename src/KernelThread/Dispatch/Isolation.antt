-- ===== src/KernelThread/Dispatch/Isolation.antt =====
-- A system call, by crates/kernel-thread/src/syscall/mod.rs, works on the task of its badge.
use rust_root_task_demo_mi_d.Prelude.{
  ℕ, ◌≡◌, ◌≢◌, Outcome, ok, err, panic, ◌∙◌, refl, ap, Option, some, Exec, pure, Keeps, >>=-Keeps,
  continue_with, Option-cases, inl, inr,
}
use rust_root_task_demo_mi_d.BTree.{BTreeMap, get}
use rust_root_task_demo_mi_d.Ipc.{Ipc}
use rust_root_task_demo_mi_d.Sel4.{Kernel}
use rust_root_task_demo_mi_d.Crates.{MemoryAddr, Bitflags}
use rust_root_task_demo_mi_d.KernelThread.Task.{Sel4Task}
use rust_root_task_demo_mi_d.KernelThread.Server.{Server, Errno}
use rust_root_task_demo_mi_d.KernelThread.Mm.{sys_brk, sys_mmap, sys_unmap}
use rust_root_task_demo_mi_d.KernelThread.Thread.{
  sys_getpid, sys_getppid, sys_getuid, sys_geteuid, sys_gettid, sys_set_tid_address, sys_exit,
  sys_exit_group,
}
use rust_root_task_demo_mi_d.KernelThread.Copy.{write_task}
use rust_root_task_demo_mi_d.KernelThread.Copy.Keeps.{write_task-Keeps}
use rust_root_task_demo_mi_d.KernelThread.Net.{AxCodes, Wire, Desk, low32}
use rust_root_task_demo_mi_d.KernelThread.Net.Calls.{
  UserMemory, desk_seat, dropped, sys_socket, sys_bind, sys_connect, sys_listen, sys_accept,
  sys_shutdown, sys_sendto, sys_recvfrom,
}
use rust_root_task_demo_mi_d.KernelThread.Net.Keeps.{
  tasks_of, desk_seat-SeatKeeps, pages_of-Keeps, sys_socket-Keeps, sys_bind-Keeps,
  sys_connect-Keeps, sys_listen-Keeps, sys_shutdown-Keeps, sys_accept-Keeps, sys_sendto-Keeps,
  sys_recvfrom-Keeps,
}
use rust_root_task_demo_mi_d.KernelThread.Spawn.{sys_exec, sys_clone}
use rust_root_task_demo_mi_d.KernelThread.Spawn.Others.{LeavesOld, sys_clone-LeavesOld}
use rust_root_task_demo_mi_d.KernelThread.Dispatch.Served.{
  sys_exec-Keeps, sys_brk-Keeps, sys_mmap-Keeps, sys_unmap-Keeps, sys_exit-Keeps,
  sys_exit_group-Keeps, sys_getpid-Keeps, sys_getppid-Keeps, sys_getuid-Keeps, sys_geteuid-Keeps,
  sys_gettid-Keeps, sys_set_tid_address-Keeps,
}
use rust_root_task_demo_mi_d.KernelThread.Dispatch.{
  Sysno, write, brk, mmap, munmap, exit, exit_group, getpid, execve, clone, gettid, sched_yield,
  getppid, set_tid_address, getuid, geteuid, socket, accept, bind, connect, listen, sendto,
  recvfrom, shutdown, unserved, Outside, Args, on_server, returning, sys_write, dispatch,
  handle_ipc_call,
}

-- The task that a badge names.
abbrev pub task_of : {k : Kernel} → ℕ → Desk k → Option Sel4Task
task_of other d = get d.server.tasks other

module _ {k : Kernel} {ipc : Ipc} (mem : MemoryAddr) (bits : Bitflags) (u : UserMemory k)
    (w : Wire k ipc) (codes : AxCodes) (o : Outside k) (badge other : ℕ)
    (apart : other ≢ badge) where
  -- A call that leaves the task of the other badge.
  abbrev Leaves : {A : Type 0} → Exec (Desk k) Errno A → Type 0
  Leaves op = Keeps (task_of other) op

  returning-Leaves :
      (op : Exec (Desk k) Errno ℕ) → Leaves op → Leaves (returning mem bits u w codes o op)
  returning-Leaves op h = >>=-Keeps (task_of other) op (λ n. pure (some n)) h (λ n d. refl)

  -- A call of the server, and one that leaves all tasks.
  served :
      (op : Exec (Server k) Errno ℕ)
      → Keeps (λ s. get s.tasks other) op
      → LeavesOld other (returning mem bits u w codes o (on_server mem bits u w codes o op))
  served op h d fresh = returning-Leaves (on_server mem bits u w codes o op) (λ d. h d.server) d

  quiet :
      (op : Exec (Desk k) Errno ℕ)
      → Keeps tasks_of op
      → LeavesOld other (returning mem bits u w codes o op)
  quiet op h d fresh = returning-Leaves op (λ e. ap (λ m. get m other) (h e)) d

  returning-task : (p : Desk k × Outcome Errno ℕ) → (continue_with (λ n. pure (some n)) p).0 ≡ p.0
  returning-task (d, ok n) = refl
  returning-task (d, err e) = refl
  returning-task (d, panic) = refl

  cloned :
      (op : Exec (Desk k) Errno ℕ)
      → LeavesOld other op
      → LeavesOld other (returning mem bits u w codes o op)
  cloned op h d fresh = ap (task_of other) (returning-task (op d)) ∙ h d fresh

  written-Keeps :
      (rounds fd buf count : ℕ) (pages : BTreeMap ℕ)
      → Keeps tasks_of (λ d.
        dropped mem u w codes
          (write_task mem (desk_seat mem u w codes (Unit {0})) rounds pages fd buf count (d, tt)))
  written-Keeps rounds fd buf count pages d =
      write_task-Keeps mem (desk_seat mem u w codes (Unit {0})) (BTreeMap Sel4Task)
        (λ (e, x). tasks_of e) (desk_seat-SeatKeeps w codes mem u (Unit {0})) rounds pages fd buf
        count (d, tt)

  sys_write-Keeps :
      (rounds fd buf count : ℕ)
      → Keeps tasks_of (sys_write mem bits u w codes o rounds badge fd buf count)
  unfolding sys_write
  sys_write-Keeps rounds fd buf count = search (>>=-Keeps, pages_of-Keeps, written-Keeps)

  dispatch-LeavesOld :
      (rounds : ℕ) (sys_no : Sysno) (args : Args) (ep : ℕ)
      → LeavesOld other (dispatch mem bits u w codes o rounds badge sys_no args ep)
  unfolding dispatch
  dispatch-LeavesOld rounds write args ep =
      λ d fresh. ap (λ m. get m other) (sys_write-Keeps rounds _ _ _ d)
  dispatch-LeavesOld rounds brk args ep =
      served (sys_brk badge args.a0) (sys_brk-Keeps badge other apart args.a0)
  dispatch-LeavesOld rounds mmap args ep =
      served (sys_mmap mem bits badge args.a0 args.a1 (low32 args.a2) (low32 args.a3))
        (sys_mmap-Keeps badge other apart mem bits _ _ _ _)
  dispatch-LeavesOld rounds munmap args ep =
      served (sys_unmap mem bits badge args.a0 args.a1)
        (sys_unmap-Keeps badge other apart mem bits _ _)
  dispatch-LeavesOld rounds exit args ep =
      served (sys_exit badge (low32 args.a0)) (sys_exit-Keeps badge other apart _)
  dispatch-LeavesOld rounds exit_group args ep =
      served (sys_exit_group badge (low32 args.a0)) (sys_exit_group-Keeps badge other apart _)
  dispatch-LeavesOld rounds getpid args ep =
      served (sys_getpid badge) (sys_getpid-Keeps badge other)
  dispatch-LeavesOld rounds execve args ep =
      served (sys_exec o.spawner badge ep) (sys_exec-Keeps badge other apart o.spawner ep)
  dispatch-LeavesOld rounds clone args ep =
      cloned (sys_clone o.spawner mem bits u w codes badge ep args.a0)
        (sys_clone-LeavesOld other o.spawner mem bits u w codes badge ep args.a0)
  dispatch-LeavesOld rounds gettid args ep =
      served (sys_gettid badge) (sys_gettid-Keeps badge other)
  dispatch-LeavesOld rounds sched_yield args ep = quiet (pure 0) (λ d. refl)
  dispatch-LeavesOld rounds getppid args ep =
      served (sys_getppid badge) (sys_getppid-Keeps badge other)
  dispatch-LeavesOld rounds set_tid_address args ep =
      served (sys_set_tid_address badge args.a0) (sys_set_tid_address-Keeps badge other apart _)
  dispatch-LeavesOld rounds getuid args ep =
      served (sys_getuid badge) (sys_getuid-Keeps badge other)
  dispatch-LeavesOld rounds geteuid args ep =
      served (sys_geteuid badge) (sys_geteuid-Keeps badge other)
  dispatch-LeavesOld rounds socket args ep =
      quiet (sys_socket mem u w codes) (sys_socket-Keeps w codes mem u)
  dispatch-LeavesOld rounds accept args ep =
      quiet (sys_accept mem u w codes badge (low32 args.a0) args.a1)
        (sys_accept-Keeps w codes mem u badge _ _)
  dispatch-LeavesOld rounds bind args ep =
      quiet (sys_bind mem u w codes badge (low32 args.a0) args.a1)
        (sys_bind-Keeps w codes mem u badge _ _)
  dispatch-LeavesOld rounds connect args ep =
      quiet (sys_connect mem u w codes badge (low32 args.a0) args.a1)
        (sys_connect-Keeps w codes mem u badge _ _)
  dispatch-LeavesOld rounds listen args ep =
      quiet (sys_listen mem u w codes (low32 args.a0)) (sys_listen-Keeps w codes mem u _)
  dispatch-LeavesOld rounds sendto args ep =
      quiet (sys_sendto mem u w codes badge (low32 args.a0) args.a1 args.a2 args.a4)
        (sys_sendto-Keeps w codes mem u badge _ _ _ _)
  dispatch-LeavesOld rounds recvfrom args ep =
      quiet (sys_recvfrom mem u w codes badge (low32 args.a0) args.a1 args.a2)
        (sys_recvfrom-Keeps w codes mem u badge _ _ _)
  dispatch-LeavesOld rounds shutdown args ep =
      quiet (sys_shutdown mem u w codes (low32 args.a0)) (sys_shutdown-Keeps w codes mem u _)
  dispatch-LeavesOld rounds unserved args ep = λ d fresh. refl

  -- A system call, with whatever number and arguments and whatever its outcome, leaves every task
  -- as it is, but for that of its badge and the one that a clone starts under the next identifier.
  pub handle_ipc_call-isolates :
      (rounds sys_id ep : ℕ) (args : Args) (d : Desk k)
      → other ≢ d.id_counter
      → task_of other (handle_ipc_call mem bits u w codes o rounds badge sys_id args ep d).0
        ≡ task_of other d
  unfolding handle_ipc_call
  handle_ipc_call-isolates rounds sys_id ep args d fresh = elim (Option-cases (o.sysno sys_id)) [
    | inl unknown ↦ rw unknown refl
    | inr (sys_no, e) ↦ rw e (dispatch-LeavesOld rounds sys_no args ep d fresh)
  ]
