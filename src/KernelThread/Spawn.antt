-- ===== src/KernelThread/Spawn.antt =====
-- New and replaced tasks: `sys_exec`, `sys_clone` and `clone_vspace` of
-- crates/kernel-thread/src/syscall/thread/task.rs, and the first task, by `test_child` of
-- crates/kernel-thread/src/child_test.rs.
mod Program
pub mod Others
pub use rust_root_task_demo_mi_d.KernelThread.Spawn.Program.{
  UserContext, default_context, CloneArgs, default_clone_args, clone_args_size, clone_vm,
  clone_flags, uspace_stack_top, uspace_stack_size, ElfImage, max_end, ipc_buffer_addr, or_zero,
  Spawner,
}
use rust_root_task_demo_mi_d.Prelude.{
  ℕ, ◌+◌, ◌-◌, ◌*◌, ◌/◌, ◌^◌, max, Bool, List, [], ◌∷◌, Option, none, some, ◌==◌, if◌then◌else◌,
  wrap64, Outcome, ok, err, panic, Exec, pure, fail, unwrap, unwrapped, ok_or, ◌>>=◌, ◌>>◌,
}
use rust_root_task_demo_mi_d.BTree.{BTreeMap, get, insert}
use rust_root_task_demo_mi_d.Ipc.{Ipc}
use rust_root_task_demo_mi_d.Sel4.{Kernel}
use rust_root_task_demo_mi_d.Crates.{MemoryAddr, Bitflags}
use rust_root_task_demo_mi_d.Alloc.{Machine, call, allocate_slot, allocate_and_retyped_fixed_sized}
use rust_root_task_demo_mi_d.Image.{Loader, Space, Segment, footprint, map_image}
use rust_root_task_demo_mi_d.KernelThread.Task.{
  Sel4Task, Context, on_machine, update_task, map_page, new_task,
}
use rust_root_task_demo_mi_d.KernelThread.Server.{Server, Errno, einval, enomem, with_task}
use rust_root_task_demo_mi_d.KernelThread.Stack.{
  Desktop, ProgramHeader, map_stack, load_elf, drop_task,
}
use rust_root_task_demo_mi_d.KernelThread.Copy.{process_item_list}
use rust_root_task_demo_mi_d.KernelThread.Net.{AxCodes, Wire, Desk}
use rust_root_task_demo_mi_d.KernelThread.Net.Calls.{UserMemory, desk_seat, kept}

module _ {k : Kernel} (sp : Spawner k) where
  open sp use {
    desk, copy_into, mint_into, tcb_configure, tcb_set_sched_params, tcb_write_all_registers,
  }

  -- Work on the kernel, the allocator and the pages of the task.
  abbrev pub on_space : {E A : Type 0} → Exec (Space k) E A → Exec (Context k) E A
  on_space op c =
      let (s, r) = op (record { machine = c.machine; mapped_page = c.task.mapped_page }) in
      (record { machine = s.machine; task = record (c.task) { mapped_page = s.mapped_page } }, r)

  -- A call whose error is `?`, as it is or as another error.
  abbrev pub try_call :
      {E : Type 0} → (k.Error → E) → Exec k.State k.Error (Unit {0}) → Exec (Context k) E (Unit {0})
  try_call f op c = tried f c (op c.machine.kernel)
    where
      tried :
          {E : Type 0}
          → (k.Error → E)
          → Context k
          → k.State × Outcome k.Error (Unit {0})
          → Context k × Outcome E (Unit {0})
      tried f c (s, ok _) = (record c { machine = record (c.machine) { kernel = s } }, ok tt)
      tried f c (s, err e) = (record c { machine = record (c.machine) { kernel = s } }, err (f e))
      tried f c (s, panic) = (record c { machine = record (c.machine) { kernel = s } }, panic)

  -- `sys_exec` on its task.
  unfoldable pub exec_task : ℕ → Exec (Context k) Errno ℕ
  exec_task fault_ep = do
    update_task (λ t. record t { mapped_page = []; mapped_pt = [] })
    range ← footprint (sp.shim.segments)
    λ c.
        on_space
          (map_image sp.loader c.task.vspace range sp.shim.segments desk.own_vspace
            sp.free_page_addr)
          c
    sp_ptr ← map_stack desk 0 (uspace_stack_top - uspace_stack_size) uspace_stack_top sp.shim_args
    ipc_buffer_cap ← on_machine (allocate_and_retyped_fixed_sized k.granule)
    let addr = ipc_buffer_addr sp.shim
    map_page addr ipc_buffer_cap
    λ c.
        on_machine
          (call (
            tcb_configure c.task.tcb fault_ep c.task.cnode sp.cnode_data c.task.vspace addr
              ipc_buffer_cap))
          c
    λ c. on_machine (call (tcb_set_sched_params c.task.tcb sp.own_tcb 0 255)) c
    λ c.
        on_machine
          (call (
            tcb_write_all_registers c.task.tcb (record {
              pc = sp.shim.entry_point;
              sp = sp_ptr;
              tpidr = or_zero sp.shim.tbss;
              gpr = λ i. if i == 1 then addr else 0;
            })))
          c
    update_task (λ t. record t { exit = some 0 })
    λ c. on_machine (call (k.tcb_resume c.task.tcb)) c
    pure 0

  unfoldable pub sys_exec : ℕ → ℕ → Exec (Server k) Errno ℕ
  sys_exec badge fault_ep = with_task badge (exec_task fault_ep)

  -- The loop of `clone_vspace` over the pages of the source.
  unfoldable pub clone_vspace : {E : Type 0} → BTreeMap ℕ → Exec (Context k) E (Unit {0})
  clone_vspace [] = pure tt
  clone_vspace ((vaddr, page_cap) ∷ rest) = do
    new_page_cap ← on_machine (allocate_and_retyped_fixed_sized k.granule)
    on_machine (call (k.frame_map new_page_cap desk.own_vspace sp.ext_free_page_addr k.all_rights))
    on_machine (call (sp.copy_here 0 page_cap))
    on_machine (call (k.frame_map 0 desk.own_vspace desk.page_seat_vaddr k.all_rights))
    on_machine (λ m. (
      record m { kernel = sp.copy_page desk.page_seat_vaddr sp.ext_free_page_addr m.kernel },
      ok tt,
    ))
    on_machine (call (k.frame_unmap 0))
    on_machine (call (desk.delete 0))
    on_machine (call (k.frame_unmap new_page_cap))
    map_page vaddr new_page_cap
    clone_vspace rest

  -- The parent's address space, by a copy of its capability.
  unfoldable pub share_vspace : {E : Type 0} → ℕ → Exec (Context k) E (Unit {0})
  share_vspace vspace = do
    (_, _, new_vspace) ← on_machine allocate_slot
    on_machine (call (sp.copy_here new_vspace vspace))
    update_task (λ t. record t { vspace = new_vspace })

  -- The registers of the child, from those of the parent.
  unfoldable pub child_context : CloneArgs → UserContext → UserContext
  child_context args regs =
      let started : UserContext =
        if args.init_fn == 0 then record regs { pc = wrap64 (regs.pc + 4) } else record regs {
          pc = args.init_fn;
          gpr = λ i. if i == 0 then args.init_argv else regs.gpr i;
        } in
      if args.stack == 0 then started else record started { sp = args.stack }

  abbrev pub read_registers : {E : Type 0} → ℕ → Exec (Machine k) E UserContext
  read_registers tcb m =
      let (s, r) = unwrapped (sp.tcb_read_all_registers tcb) m.kernel in
      (record m { kernel = s }, r)

  -- `sys_clone` on the new task, from the copy of the TCB to the start.
  unfoldable pub clone_task : ℕ → Sel4Task → CloneArgs → Bool → Exec (Context k) Errno (Unit {0})
  clone_task fault_ep parent args shares = do
    λ c. on_machine (call (copy_into c.task.cnode 1 parent.tcb)) c
    λ c. try_call (λ _. enomem) (mint_into c.task.cnode 18 fault_ep c.task.id) c
    (if shares then share_vspace parent.vspace else clone_vspace parent.mapped_page)
    ipc_buffer_cap ← on_machine (allocate_and_retyped_fixed_sized k.granule)
    map_page 0x4_0000 ipc_buffer_cap
    λ c.
        try_call (λ _. enomem)
          (tcb_configure c.task.tcb fault_ep c.task.cnode sp.cnode_data c.task.vspace 0x4_0000
            ipc_buffer_cap)
          c
    λ c. try_call (λ _. enomem) (tcb_set_sched_params c.task.tcb sp.own_tcb 0 255) c
    regs ← on_machine (read_registers parent.tcb)
    λ c. on_machine (call (tcb_write_all_registers c.task.tcb (child_context args regs))) c
    λ c. on_machine (call (k.tcb_resume c.task.tcb)) c

  -- `test_child` on the new task, up to the start.
  unfoldable pub first_task : ℕ → Exec (Context k) k.Error (Unit {0})
  first_task ep = do
    λ c. on_machine (call (copy_into c.task.cnode 1 c.task.tcb)) c
    λ c. try_call (λ e. e) (mint_into c.task.cnode 18 ep c.task.id) c
    load_elf desk (sp.test_thread.bytes) (sp.test_thread.headers)
    sp_ptr ← map_stack desk 0 (uspace_stack_top - 16 * 4096) uspace_stack_top sp.test_args
    ipc_buffer_cap ← on_machine (allocate_and_retyped_fixed_sized k.granule)
    let addr = ipc_buffer_addr sp.test_thread
    map_page addr ipc_buffer_cap
    λ c.
        try_call (λ e. e)
          (tcb_configure c.task.tcb ep c.task.cnode sp.cnode_data c.task.vspace addr ipc_buffer_cap)
          c
    λ c. try_call (λ e. e) (tcb_set_sched_params c.task.tcb sp.own_tcb 0 255) c
    λ c.
        on_machine
          (call (
            tcb_write_all_registers c.task.tcb (record {
              pc = sp.test_thread.entry_point;
              sp = sp_ptr;
              tpidr = or_zero sp.test_thread.tbss;
              gpr = λ i. if i == 0 then ep else 0;
            })))
          c
    λ c. on_machine (call (k.tcb_resume c.task.tcb)) c

  abbrev pub put_machine : Desk k → Machine k → Desk k
  put_machine d m = record d { server = record (d.server) { machine = m } }

  -- A task that an error gave up is dropped.
  abbrev pub given_up :
      {E A : Type 0} → Desk k → E → Machine k × Outcome E (Unit {0}) → Desk k × Outcome E A
  given_up d e (m, ok _) = (put_machine d m, err e)
  given_up d e (m, err _) = (put_machine d m, err e)
  given_up d e (m, panic) = (put_machine d m, panic)

  -- The new task goes to the map, under its identifier.
  abbrev pub enrolled :
      {E : Type 0} → Desk k → ℕ → Context k × Outcome E (Unit {0}) → Desk k × Outcome E ℕ
  enrolled d id (c, ok _) = (
    record d { server = record { machine = c.machine; tasks = insert id c.task d.server.tasks } },
    ok id,
  )
  enrolled d id (c, err e) = given_up d e (drop_task desk c.task c.machine)
  enrolled d id (c, panic) = (put_machine d c.machine, panic)

  abbrev pub made :
      {E : Type 0}
      → Exec (Context k) E (Unit {0})
      → Desk k
      → Machine k × Outcome E (Sel4Task × ℕ)
      → Desk k × Outcome E ℕ
  made work d (m, ok (task, counter)) =
      enrolled (record d { id_counter = counter }) task.id
        (work (record { machine = m; task = task }))
  made work d (m, err e) = (put_machine d m, err e)
  made work d (m, panic) = (put_machine d m, panic)

  -- A new task, the work that sets it up, and its entry in the map.
  unfoldable pub spawn : {E : Type 0} → Exec (Context k) E (Unit {0}) → Exec (Desk k) E ℕ
  spawn work d = made work d (new_task d.id_counter d.server.machine)

  -- `test_child` before its loop.
  unfoldable pub start_child : ℕ → Exec (Desk k) k.Error ℕ
  start_child ep = spawn (first_task ep)

  module _ {ipc : Ipc} (mem : MemoryAddr) (bits : Bitflags) (u : UserMemory k) (w : Wire k ipc)
      (codes : AxCodes) where
    -- `read_item` of the arguments.
    unfoldable pub read_clone_args : BTreeMap ℕ → ℕ → Exec (Desk k) Errno CloneArgs
    read_clone_args pages addr d = kept mem u w codes (
        process_item_list mem (desk_seat mem u w codes CloneArgs) clone_args_size pages addr none
          (λ src offset n (e, item). ((e, sp.load_clone_args src e.server.machine.kernel), ok tt))
          (d, default_clone_args))

    abbrev pub clone_from : ℕ → ℕ → Sel4Task → Exec (Desk k) Errno ℕ
    clone_from fault_ep addr task = if addr == 0 then fail einval else (do
      args ← read_clone_args task.mapped_page addr
      flags ← ok_or (bits.from_bits clone_flags args.flags) einval
      spawn (clone_task fault_ep task args (bits.contains flags clone_vm)))

    unfoldable pub sys_clone : ℕ → ℕ → ℕ → Exec (Desk k) Errno ℕ
    sys_clone badge fault_ep clone_args d =
        (do task ← unwrap (get d.server.tasks badge); clone_from fault_ep clone_args task) d
