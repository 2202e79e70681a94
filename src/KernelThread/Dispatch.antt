-- ===== src/KernelThread/Dispatch.antt =====
-- The dispatch of system calls, crates/kernel-thread/src/syscall/mod.rs, and a round of the service
-- loop of crates/kernel-thread/src/child_test.rs.
pub mod Served
pub mod Isolation
pub mod Reply
use rust_root_task_demo_mi_d.Prelude.{
  ℕ, ◌+◌, ◌-◌, ◌*◌, ◌%◌, ◌^◌, ◌<◌, ◌≡◌, Bool, true, false, List, [], ◌∷◌, ◌++◌, Option, none, some,
  ltb, if◌then◌else◌, length, Outcome, ok, err, panic, Exec, pure, fail, abort, unwrap, ok_or,
  ◌>>=◌, ◌>>◌,
}
use rust_root_task_demo_mi_d.Ipc.{Ipc, read_reg, write_reg}
use rust_root_task_demo_mi_d.Sel4.{Kernel}
use rust_root_task_demo_mi_d.Crates.{MemoryAddr, Bitflags}
use rust_root_task_demo_mi_d.Protocol.Custom
use rust_root_task_demo_mi_d.KernelThread.Server.{Server, Errno, einval, enosys}
use rust_root_task_demo_mi_d.KernelThread.Mm.{sys_brk, sys_mmap, sys_unmap}
use rust_root_task_demo_mi_d.KernelThread.Thread.{
  sys_getpid, sys_getppid, sys_getuid, sys_geteuid, sys_gettid, sys_set_tid_address, sys_exit,
  sys_exit_group, vm_fault,
}
use rust_root_task_demo_mi_d.KernelThread.Copy.{write_task}
use rust_root_task_demo_mi_d.KernelThread.Spawn.{Spawner, sys_exec, sys_clone}
use rust_root_task_demo_mi_d.KernelThread.Net.{AxCodes, Wire, Desk, low32}
use rust_root_task_demo_mi_d.KernelThread.Net.Calls.{
  UserMemory, desk_seat, dropped, pages_of, sys_socket, sys_bind, sys_connect, sys_listen,
  sys_accept, sys_shutdown, sys_sendto, sys_recvfrom,
}

-- The system calls of the syscalls crate that the code names; `unserved` is any other.
pub data Sysno : Type 0 where
  write brk mmap munmap exit exit_group getpid execve clone gettid sched_yield getppid : Sysno
  set_tid_address getuid geteuid socket accept bind connect listen sendto recvfrom : Sysno
  shutdown unserved : Sysno

-- The syscalls crate, with the raw number of an error, and what new tasks are made of.
pub record Outside (k : Kernel) : Type 0 where
  pub sysno : ℕ → Option Sysno
  pub into_raw : Errno → ℕ
  -- `Fault::new`, on a label and the registers: the address of a `VmFault`.
  pub vm_fault_addr : ℕ → List ℕ → Option ℕ
  pub spawner : Spawner k

-- `args: [usize; 6]`.
pub record Args : Type 0 where
  pub a0 : ℕ
  pub a1 : ℕ
  pub a2 : ℕ
  pub a3 : ℕ
  pub a4 : ℕ
  pub a5 : ℕ

-- What a round of the loop comes to: a reply, none, the end of the loop, or a write that has not
-- ended.
pub data Round (M : Type 0) : Type 0 where
  replied : M → Round M
  silent : Round M
  breaks : Round M
  hangs : Round M

module _ {k : Kernel} {ipc : Ipc} (mem : MemoryAddr) (bits : Bitflags) (u : UserMemory k)
    (w : Wire k ipc) (codes : AxCodes) (o : Outside k) where
  abbrev pub on_server : {A : Type 0} → Exec (Server k) Errno A → Exec (Desk k) Errno A
  on_server op d = let (s, r) = op d.server in (record d { server = s }, r)

  abbrev pub returning : Exec (Desk k) Errno ℕ → Exec (Desk k) Errno (Option ℕ)
  returning op = do n ← op; pure (some n)

  -- `sys_write`, by the rounds of its loop: `none` where it has not ended by then.
  unfoldable pub sys_write : ℕ → ℕ → ℕ → ℕ → ℕ → Exec (Desk k) Errno (Option ℕ)
  unfolding write_task
  sys_write rounds badge fd buf count = do
    pages ← pages_of mem u w codes badge
    λ d.
        dropped mem u w codes
          (write_task mem (desk_seat mem u w codes (Unit {0})) rounds pages fd buf count (d, tt))

  -- `match sys_no`.
  unfoldable pub dispatch : ℕ → ℕ → Sysno → Args → ℕ → Exec (Desk k) Errno (Option ℕ)
  dispatch rounds badge write args fault_ep = sys_write rounds badge (low32 args.a0) args.a1 args.a2
  dispatch rounds badge brk args fault_ep = returning (on_server (sys_brk badge args.a0))
  dispatch rounds badge mmap args fault_ep =
      returning
        (on_server (sys_mmap mem bits badge args.a0 args.a1 (low32 args.a2) (low32 args.a3)))
  dispatch rounds badge munmap args fault_ep =
      returning (on_server (sys_unmap mem bits badge args.a0 args.a1))
  dispatch rounds badge exit args fault_ep = returning (on_server (sys_exit badge (low32 args.a0)))
  dispatch rounds badge exit_group args fault_ep =
      returning (on_server (sys_exit_group badge (low32 args.a0)))
  dispatch rounds badge getpid args fault_ep = returning (on_server (sys_getpid badge))
  dispatch rounds badge execve args fault_ep =
      returning (on_server (sys_exec o.spawner badge fault_ep))
  dispatch rounds badge clone args fault_ep =
      returning (sys_clone o.spawner mem bits u w codes badge fault_ep args.a0)
  dispatch rounds badge gettid args fault_ep = returning (on_server (sys_gettid badge))
  dispatch rounds badge sched_yield args fault_ep = returning (pure 0)
  dispatch rounds badge getppid args fault_ep = returning (on_server (sys_getppid badge))
  dispatch rounds badge set_tid_address args fault_ep =
      returning (on_server (sys_set_tid_address badge args.a0))
  dispatch rounds badge getuid args fault_ep = returning (on_server (sys_getuid badge))
  dispatch rounds badge geteuid args fault_ep = returning (on_server (sys_geteuid badge))
  dispatch rounds badge socket args fault_ep = returning (sys_socket mem u w codes)
  dispatch rounds badge accept args fault_ep =
      returning (sys_accept mem u w codes badge (low32 args.a0) args.a1)
  dispatch rounds badge bind args fault_ep =
      returning (sys_bind mem u w codes badge (low32 args.a0) args.a1)
  dispatch rounds badge connect args fault_ep =
      returning (sys_connect mem u w codes badge (low32 args.a0) args.a1)
  dispatch rounds badge listen args fault_ep = returning (sys_listen mem u w codes (low32 args.a0))
  dispatch rounds badge sendto args fault_ep =
      returning (sys_sendto mem u w codes badge (low32 args.a0) args.a1 args.a2 args.a4)
  dispatch rounds badge recvfrom args fault_ep =
      returning (sys_recvfrom mem u w codes badge (low32 args.a0) args.a1 args.a2)
  dispatch rounds badge shutdown args fault_ep =
      returning (sys_shutdown mem u w codes (low32 args.a0))
  dispatch rounds badge unserved args fault_ep = fail enosys

  unfoldable pub handle_ipc_call : ℕ → ℕ → ℕ → Args → ℕ → Exec (Desk k) Errno (Option ℕ)
  handle_ipc_call rounds badge sys_id args fault_ep = do
    sys_no ← ok_or (o.sysno sys_id) einval
    dispatch rounds badge sys_no args fault_ep

  abbrev pub on_regs : {A : Type 0} → Exec (List ℕ) Errno A → Exec (Desk k) Errno A
  on_regs op d = let (regs, r) = op d.regs in (record d { regs = regs }, r)

  -- `msg_regs()[1..7]`, in front of which stands the number of the call.
  unfoldable pub read_call : Exec (Desk k) Errno (ℕ × Args)
  read_call = do
    sys_id ← on_regs (read_reg 0)
    a0 ← on_regs (read_reg 1)
    a1 ← on_regs (read_reg 2)
    a2 ← on_regs (read_reg 3)
    a3 ← on_regs (read_reg 4)
    a4 ← on_regs (read_reg 5)
    a5 ← on_regs (read_reg 6)
    pure (sys_id, record { a0 = a0; a1 = a1; a2 = a2; a3 = a3; a4 = a4; a5 = a5 })

  -- `reply_with` on one word, and on none.
  unfoldable pub reply_word : ℕ → Exec (Desk k) Errno (Round (ipc.MessageInfo))
  reply_word word = do on_regs (write_reg 0 word); pure (replied (ipc.new 0 0 0 8))

  -- `-e.into_raw() as isize`, by its bits.
  abbrev pub error_word : Errno → ℕ
  error_word e = 2 ^ 64 - o.into_raw e

  -- The word that the task gets.
  unfoldable pub answer :
      Desk k × Outcome Errno (Option ℕ) → Desk k × Outcome Errno (Round (ipc.MessageInfo))
  answer (d, ok (some n)) = reply_word n d
  answer (d, ok none) = (d, ok hangs)
  answer (d, err e) = reply_word (error_word e) d
  answer (d, panic) = (d, panic)

  -- `match fault`.
  unfoldable pub serve_fault : ℕ → Option ℕ → Exec (Desk k) Errno (Round (ipc.MessageInfo))
  serve_fault badge (some addr) = do on_server (vm_fault badge addr); pure silent
  serve_fault badge none = pure silent

  -- `match CustomMessageLabel::try_from(&message)`.
  unfoldable pub serve_custom :
      ℕ → ℕ → ℕ → Option Custom.CustomMessageLabel → Exec (Desk k) Errno (Round (ipc.MessageInfo))
  serve_custom rounds badge ep (some Custom.test_custom_message) = pure (replied (ipc.new 0 0 0 0))
  serve_custom rounds badge ep (some Custom.sys_call) = do
    words ← read_call
    λ d. answer (handle_ipc_call rounds badge (words.0) (words.1) ep d)
  serve_custom rounds badge ep (some Custom.exit) = pure breaks
  serve_custom rounds badge ep none = pure silent

  -- A round of the loop, on a message with its badge.
  unfoldable pub serve : ℕ → ipc.MessageInfo → ℕ → ℕ → Exec (Desk k) Errno (Round (ipc.MessageInfo))
  serve rounds message badge ep d =
      if ltb (ipc.label message) 8
      then serve_fault badge (o.vm_fault_addr (ipc.label message) d.regs) d
      else serve_custom rounds badge ep (Custom.try_from ipc message) d
