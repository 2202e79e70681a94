-- ===== src/Tests/Calls.antt =====
-- System calls of a task, on the toy kernel and a net thread that answers each message alike.
use rust_root_task_demo_mi_d.Prelude.{
  ℕ, ◌^◌, ◌≤◌, ◌<◌, ◌≡◌, refl, [], ◌∷◌, Option, none, some, arith, ok, err, ◌==◌, if◌then◌else◌,
  Outcome,
}
use rust_root_task_demo_mi_d.NetThread.ListenTable.{
  AxError, addr_in_use, already_exists, bad_state, connection_refused, connection_reset,
  invalid_input, not_connected, would_block,
}
use rust_root_task_demo_mi_d.Uspace.{default_libc}
use rust_root_task_demo_mi_d.KernelThread.Server.{Errno, einval, enomem, efault, enosys}
use rust_root_task_demo_mi_d.KernelThread.Net.{AxCodes, Wire, Desk}
use rust_root_task_demo_mi_d.KernelThread.Net.Calls.{UserMemory, sys_listen}
use rust_root_task_demo_mi_d.KernelThread.Net.Replies.{CodesLaws, errno_of, sys_listen_lem}
use rust_root_task_demo_mi_d.KernelThread.Dispatch.{
  Sysno, brk, unserved, Outside, Args, handle_ipc_call,
}
use rust_root_task_demo_mi_d.KernelThread.Dispatch.Isolation.{task_of, handle_ipc_call-isolates}
use rust_root_task_demo_mi_d.KernelThread.Dispatch.Reply.{RawLaws, answer-injective}
use rust_root_task_demo_mi_d.KernelThread.Spawn.{
  Spawner, ElfImage, default_context, default_clone_args,
}
use rust_root_task_demo_mi_d.Tests.Stacks.{toy_desktop}
use rust_root_task_demo_mi_d.Tests.Images.{toy_loader}
use rust_root_task_demo_mi_d.Tests.ToyKernel.{toy}
use rust_root_task_demo_mi_d.Tests.ToyMapping.{toy_memory_addr, toy_flags}
use rust_root_task_demo_mi_d.Tests.Protocols.{words}
use rust_root_task_demo_mi_d.Tests.Threads.{two_tasks, empty_kernel}

abbrev number : AxError → ℕ
number addr_in_use = 1
number already_exists = 2
number bad_state = 3
number connection_refused = 4
number connection_reset = 5
number invalid_input = 6
number not_connected = 7
number would_block = 8

abbrev error_of : ℕ → Option AxError
error_of n =
    if n == 1
    then some addr_in_use
    else if n == 2
    then some already_exists
    else if n == 3
    then some bad_state
    else if n == 4
    then some connection_refused
    else if n == 5
    then some connection_reset
    else if n == 6
    then some invalid_input
    else if n == 7
    then some not_connected
    else if n == 8
    then some would_block
    else none

abbrev codes : AxCodes
codes = record { code = number; of_code = error_of }

number-small : (e : AxError) → number e < 2 ^ 31
number-small e = ground arith

number-positive : (e : AxError) → 0 < number e
number-positive e = ground arith

error_of-number : (e : AxError) → error_of (number e) ≡ some e
error_of-number addr_in_use = refl
error_of-number already_exists = refl
error_of-number bad_state = refl
error_of-number connection_refused = refl
error_of-number connection_reset = refl
error_of-number invalid_input = refl
error_of-number not_connected = refl
error_of-number would_block = refl

codes-CodesLaws : CodesLaws codes
codes-CodesLaws = record {
  small = number-small;
  positive = number-positive;
  of_code-code = error_of-number;
}

-- A net thread that answers `first`, and nothing behind it.
abbrev answering : ℕ → Wire toy words
answering first = record {
  page_seat_vaddr = 0x9000;
  vspace = 1;
  write_seat = λ bytes s. s;
  read_seat = λ n s. [];
  call = λ message cap regs s. (s, first ∷ 0 ∷ 0 ∷ 0 ∷ 0 ∷ []);
  local_addr_ptr = 0x8000;
  addr_bytes = λ addr. [];
}

abbrev user_memory : UserMemory toy
user_memory = record {
  page_seat_vaddr = 0x9000;
  copy_cap = λ c s. (s, ok tt);
  map_seat = λ s. (s, ok tt);
  unmap_seat = λ s. (s, ok tt);
  delete_cap = λ s. (s, ok tt);
  put_chars = λ from n s. (s, ok tt);
  load_addr = λ from s. default_libc;
  store_addr = λ to item n s. s;
  load_bytes = λ from n s. [];
  store_bytes = λ to bytes s. s;
  heap_ptr = λ n. 0x7000;
}

abbrev desk : Desk toy
desk = record { server = two_tasks; id_counter = 3; regs = 5 ∷ 6 ∷ 7 ∷ []; cap = 0 }

sys_listen_example :
    (sys_listen toy_memory_addr user_memory (answering 1) codes 3 desk).1
    ≡ errno_of (some addr_in_use)
sys_listen_example =
    sys_listen_lem (answering 1) codes toy_memory_addr user_memory codes-CodesLaws 3 5
      (some addr_in_use) (6 ∷ 7 ∷ []) (0 ∷ 0 ∷ 0 ∷ 0 ∷ []) empty_kernel desk refl refl

abbrev raw : Errno → ℕ
raw einval = 22
raw enomem = 12
raw efault = 14
raw enosys = 38

abbrev of_raw : ℕ → Option Errno
of_raw n =
    if n == 22
    then some einval
    else if n == 12
    then some enomem
    else if n == 14
    then some efault
    else if n == 38
    then some enosys
    else none

abbrev numbers : ℕ → Option Sysno
numbers n = if n == 214 then some brk else if n == 1000 then none else some unserved

abbrev no_image : ElfImage
no_image = record {
  bytes = [];
  headers = [];
  segments = [];
  entry_point = 0;
  tbss = none;
  sections = [];
}

abbrev toy_spawner : Spawner toy
toy_spawner = record {
  desk = toy_desktop;
  loader = toy_loader;
  test_thread = no_image;
  shim = no_image;
  test_args = [];
  shim_args = [];
  free_page_addr = 0xa000;
  ext_free_page_addr = 0xb000;
  own_tcb = 1;
  cnode_data = 52;
  copy_into = λ cnode slot source s. (s, ok tt);
  mint_into = λ cnode slot source badge s. (s, ok tt);
  copy_here = λ slot source s. (s, ok tt);
  copy_page = λ from to s. s;
  tcb_configure = λ tcb ep cnode guard vspace addr frame s. (s, ok tt);
  tcb_set_sched_params = λ tcb authority mcp priority s. (s, ok tt);
  tcb_read_all_registers = λ tcb s. (s, ok default_context);
  tcb_write_all_registers = λ tcb regs s. (s, ok tt);
  load_clone_args = λ src s. default_clone_args;
}

abbrev outside : Outside toy
outside = record {
  sysno = numbers;
  into_raw = raw;
  vm_fault_addr = λ label regs. none;
  spawner = toy_spawner;
}

raw-positive : (e : Errno) → 0 < raw e
raw-positive e = ground arith

raw-small : (e : Errno) → raw e ≤ 4095
raw-small e = ground arith

of_raw-raw : (e : Errno) → of_raw (raw e) ≡ some e
of_raw-raw einval = refl
of_raw-raw enomem = refl
of_raw-raw efault = refl
of_raw-raw enosys = refl

outside-RawLaws : RawLaws toy outside
outside-RawLaws = record {
  of_raw = of_raw;
  of_raw-into_raw = of_raw-raw;
  positive = raw-positive;
  small = raw-small;
}

answer_example : ◌≡◌ {A = Outcome Errno (Option ℕ)} (err einval) (err einval)
answer_example =
    answer-injective toy_memory_addr toy_flags user_memory (answering 0) codes outside
      outside-RawLaws (err einval) (err einval) 5 (6 ∷ 7 ∷ []) desk refl tt tt refl

abbrev no_args : Args
no_args = record { a0 = 0; a1 = 0; a2 = 0; a3 = 0; a4 = 0; a5 = 0 }

isolation_example :
    task_of 2
      (handle_ipc_call toy_memory_addr toy_flags user_memory
        (answering 0)
        codes
        outside
        9
        1
        214
        no_args
        0
        desk).0
    ≡ task_of 2 desk
isolation_example =
    handle_ipc_call-isolates toy_memory_addr toy_flags user_memory (answering 0) codes outside 1 2
      (omega arith) 9 214 0 no_args desk (omega arith)
