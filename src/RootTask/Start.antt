-- ===== src/RootTask/Start.antt =====
-- How the root task starts its tasks: crates/root-task/src/task.rs, and the two loops of
-- crates/root-task/src/main.rs that map the memory of the device.
use rust_root_task_demo_mi_d.Prelude.{
  ℕ, zero, suc, ◌+◌, ◌*◌, List, [], ◌∷◌, Option, none, some, wrap64, if◌then◌else◌, Outcome, ok,
  err, panic, Exec, pure, abort, ◌>>=◌, ◌>>◌,
}
use rust_root_task_demo_mi_d.BTree.{insert}
use rust_root_task_demo_mi_d.Sel4.{Kernel}
use rust_root_task_demo_mi_d.Alloc.{
  Machine, call, allocate_variable_sized_origin, allocate_and_retyped_fixed_sized,
  allocate_and_retyped_variable_sized,
}
use rust_root_task_demo_mi_d.Image.{
  Loader, Segment, Space, on_machine, granule_size, footprint, map_intermediate_translation_tables,
  map_image,
}
use rust_root_task_demo_mi_d.TaskHelper.{
  Sel4TaskHelper, Helper, SetUp, ElfFile, root_helper, configure, map_stack, with_context, run,
  attempt, add_table,
}

-- The bits of a CNode, and the slot of the null capability.
abbrev pub cnode_radix_bits : ℕ
cnode_radix_bits = 12

-- The further calls of the kernel, between slots of the root CNode and of another one, with the data
-- of a CNode and the slots that the sel4 crate names.
pub record Boot (k : Kernel) : Type 0 where
  pub cnode_slot : ℕ
  pub tcb_slot : ℕ
  pub vspace_slot : ℕ
  pub skip : ℕ → ℕ
  pub skip_high_bits : ℕ → ℕ
  -- Into slot 0 of a new CNode.
  pub mint_first : ℕ → ℕ → ℕ → Exec k.State k.Error (Unit {0})
  pub mutate_first : ℕ → ℕ → ℕ → Exec k.State k.Error (Unit {0})
  -- From a slot of the root CNode to another.
  pub mutate : ℕ → ℕ → ℕ → Exec k.State k.Error (Unit {0})
  -- The same, through the CNode in slot 0.
  pub mint_through : ℕ → ℕ → ℕ → Exec k.State k.Error (Unit {0})
  pub delete : ℕ → Exec k.State k.Error (Unit {0})
  pub tcb_set_space : ℕ → ℕ → ℕ → ℕ → ℕ → Exec k.State k.Error (Unit {0})
  pub tcb_set_sched_params : ℕ → ℕ → ℕ → ℕ → Exec k.State k.Error (Unit {0})

module _ {k : Kernel} (b : Boot k) where
  -- The root CNode goes below a new one, whose guard makes the old paths stay valid.
  unfoldable pub rebuild_cspace : {E : Type 0} → Exec (Machine k) E (Unit {0})
  rebuild_cspace = do
    cnode ← allocate_variable_sized_origin (k.cnode_blueprint cnode_radix_bits)
    call (b.mint_first cnode b.cnode_slot (b.skip 0))
    call (b.mutate 0 b.cnode_slot (b.skip_high_bits cnode_radix_bits))
    call (b.mint_through b.cnode_slot cnode (b.skip_high_bits (cnode_radix_bits * 2)))
    call (b.delete 0)
    call
        (b.tcb_set_space b.tcb_slot 0 cnode (b.skip_high_bits (2 * cnode_radix_bits)) b.vspace_slot)

  -- The two levels of the CSpace of a task.
  unfoldable pub build_cspace : {E : Type 0} → ℕ → ℕ → Exec (Machine k) E (Unit {0})
  build_cspace cnode inner_cnode = do
    call (b.mutate_first cnode inner_cnode (b.skip 0))
    call (b.mutate 0 cnode (b.skip_high_bits (2 * cnode_radix_bits)))
    call (b.mutate cnode 0 (b.skip_high_bits (2 * cnode_radix_bits)))

  -- The page behind the image, for the IPC buffer.
  unfoldable pub map_ipc_buffer : {E : Type 0} → ℕ → ℕ → Exec (Space k) E ℕ
  map_ipc_buffer vspace addr = do
    cap ← on_machine (allocate_and_retyped_fixed_sized k.granule)
    on_machine (call (k.frame_map cap vspace addr k.all_rights))
    λ s. (record s { mapped_page = insert addr cap s.mapped_page }, ok cap)

  -- The address space, the address of the IPC buffer and its page.
  unfoldable pub make_child_vspace :
      {E : Type 0} → Loader k → ℕ → List Segment → ℕ → ℕ → Exec (Space k) E (ℕ × ℕ × ℕ)
  make_child_vspace l cnode segments caller_vspace free_page_addr = do
    inner_cnode ←
        on_machine (allocate_and_retyped_variable_sized k.cnode_blueprint cnode_radix_bits)
    child_vspace ← on_machine (allocate_and_retyped_fixed_sized k.vspace)
    on_machine (build_cspace cnode inner_cnode)
    on_machine (call (k.asid_pool_assign child_vspace))
    range ← footprint segments
    on_machine (
        map_intermediate_translation_tables l child_vspace
          (record range { end = wrap64 (range.end + granule_size) }))
    map_image l child_vspace range segments caller_vspace free_page_addr
    cap ← map_ipc_buffer child_vspace (range.end)
    pure (child_vspace, range.end, cap)

  -- The start of `build_kernel_thread`, up to the new task; the pages go into it.
  unfoldable pub child_space :
      Loader k → List Segment → ℕ → ℕ → Exec (Space k) k.Error (ℕ × ℕ × ℕ × ℕ)
  child_space l segments caller_vspace free_page_addr = do
    cnode ← on_machine (allocate_and_retyped_variable_sized k.cnode_blueprint cnode_radix_bits)
    (vspace, addr, cap) ← make_child_vspace l cnode segments caller_vspace free_page_addr
    pure (cnode, vspace, addr, cap)

  -- A call whose error is returned.
  abbrev pub try_call : Exec k.State k.Error (Unit {0}) → Exec (Helper k) k.Error (Unit {0})
  try_call op = do res ← attempt op; λ h. (h, res)

  -- The rest of it, on the new task.
  unfoldable pub set_up_task : SetUp k → ElfFile → ℕ → ℕ → Exec (Helper k) k.Error (Unit {0})
  set_up_task set_up image ipc_buffer_addr ipc_buffer_cap = do
    configure (root_helper k) set_up (2 * cnode_radix_bits) ipc_buffer_addr ipc_buffer_cap
    map_stack (root_helper k) 10
    λ h. try_call (b.tcb_set_sched_params h.task.tcb b.tcb_slot 255 255) h
    with_context (root_helper k) set_up image

  -- The tasks one after the other.
  unfoldable pub run_tasks : List Sel4TaskHelper → Exec (Helper k) k.Error (Unit {0})
  run_tasks [] = pure tt
  run_tasks (task ∷ tasks) = do λ h. (record h { task = task }, ok tt); run; run_tasks tasks

  abbrev pub device_step :
      Exec (Helper k) k.Error (Option (Unit {0}))
      → ℕ
      → Outcome k.Error (Unit {0})
      → Exec (Helper k) k.Error (Option (Unit {0}))
  device_step again vaddr (ok _) = pure (some tt)
  device_step again vaddr (err e) =
      if k.is_failed_lookup e then (do add_table (root_helper k) vaddr; again) else abort
  device_step again vaddr panic = abort

  -- The loop that maps the device's memory, by rounds: `none` where it has not ended by then.
  unfoldable pub map_device : ℕ → ℕ → ℕ → Exec (Helper k) k.Error (Option (Unit {0}))
  map_device zero frame vaddr = pure none
  map_device (suc rounds) frame vaddr = λ h.
      (do
        res ← attempt (k.frame_map frame h.task.vspace vaddr k.all_rights)
        device_step (map_device rounds frame vaddr) vaddr res)
        h
