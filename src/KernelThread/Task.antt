-- ===== src/KernelThread/Task.antt =====
-- `Sel4Task` of crates/kernel-thread/src/task.rs: a user task and its address space.
pub mod FreeArea
pub mod Tables
pub mod Mapping
use rust_root_task_demo_mi_d.Prelude.{
  ℕ, zero, suc, ◌+◌, ◌-◌, ◌/◌, ◌%◌, max, Bool, true, false, List, [], ◌∷◌, ◌++◌, Option, none, some,
  leb, ltb, ◌==◌, if◌then◌else◌, wrap64, Outcome, ok, err, panic, Exec, pure, abort, assert, gets,
  modify, ◌>>=◌, ◌>>◌,
}
use rust_root_task_demo_mi_d.BTree.{BTreeMap, insert, remove}
use rust_root_task_demo_mi_d.Sel4.{Kernel}
use rust_root_task_demo_mi_d.Crates.{steps}
use rust_root_task_demo_mi_d.Alloc.{
  Machine, call, allocate_and_retyped_fixed_sized, allocate_and_retyped_variable_sized,
}

-- `exit` holds an `i32` by its bits.
pub record Sel4Task : Type 0 where
  pub pid : ℕ
  pub id : ℕ
  pub tcb : ℕ
  pub cnode : ℕ
  pub vspace : ℕ
  pub mapped_pt : List ℕ
  pub mapped_page : BTreeMap ℕ
  pub heap : ℕ
  pub exit : Option ℕ
  pub clear_child_tid : Option ℕ

abbrev pub page_size : ℕ
page_size = 4096

abbrev pub uspace_base : ℕ
uspace_base = 0x1000

-- `(from..to).step_by(PAGE_SIZE)`.
abbrev pub page_steps : ℕ → ℕ → List ℕ
page_steps from to = steps page_size from ((to - from + (page_size - 1)) / page_size)

-- The loop of `find_free_area` over the mapped pages.
unfoldable pub free_from : BTreeMap ℕ → ℕ → ℕ → ℕ
free_from [] last_addr size = last_addr
free_from ((vaddr, _) ∷ rest) last_addr size =
    if leb (wrap64 (last_addr + size)) vaddr
    then last_addr
    else free_from rest (wrap64 (vaddr + page_size)) size

unfoldable pub find_free_area : Sel4Task → ℕ → ℕ → Option ℕ
find_free_area task start size = some (free_from task.mapped_page (max uspace_base start) size)

-- The kernel, the allocator and the task that an operation works on.
pub record Context (k : Kernel) : Type 0 where
  pub machine : Machine k
  pub task : Sel4Task

module _ {k : Kernel} where
  abbrev pub on_machine : {E A : Type 0} → Exec (Machine k) E A → Exec (Context k) E A
  on_machine op c = let (m, r) = op c.machine in (record c { machine = m }, r)

  abbrev pub update_task : {E : Type 0} → (Sel4Task → Sel4Task) → Exec (Context k) E (Unit {0})
  update_task f c = (record c { task = f c.task }, ok tt)

  -- A call of the kernel whose result the code looks at.
  abbrev pub attempt :
      {E : Type 0}
      → Exec k.State k.Error (Unit {0})
      → Exec (Machine k) E (Outcome k.Error (Unit {0}))
  attempt op m = let (s, r) = op m.kernel in (record m { kernel = s }, ok r)

  -- `pt_cap.pt_map(...).unwrap(); self.mapped_pt.push(pt_cap)` on a fresh page table.
  unfoldable pub add_table : {E : Type 0} → ℕ → Exec (Context k) E (Unit {0})
  add_table vaddr c =
      (do
        pt_cap ← on_machine (allocate_and_retyped_fixed_sized k.page_table)
        on_machine (call (k.pt_map pt_cap c.task.vspace vaddr))
        update_task (λ t. record t { mapped_pt = t.mapped_pt ++ pt_cap ∷ [] }))
        c

  -- `match res` in `map_page`, where `retry` is the next round.
  unfoldable pub mapped :
      {E : Type 0}
      → Exec (Context k) E (Unit {0})
      → ℕ
      → ℕ
      → Outcome k.Error (Unit {0})
      → Exec (Context k) E (Unit {0})
  mapped retry vaddr page (ok _) =
      update_task (λ t. record t { mapped_page = insert vaddr page t.mapped_page })
  mapped retry vaddr page (err e) =
      if k.is_failed_lookup e then (do add_table vaddr; retry) else abort
  mapped retry vaddr page panic = abort

  -- The rounds of `map_page`; where none is left the loop falls through.
  unfoldable pub map_rounds : {E : Type 0} → ℕ → ℕ → ℕ → Exec (Context k) E (Unit {0})
  map_rounds zero vaddr page = pure tt
  map_rounds (suc n) vaddr page = λ c.
      (do
        res ← on_machine (attempt (k.frame_map page c.task.vspace vaddr k.all_rights))
        mapped (map_rounds n vaddr page) vaddr page res)
        c

  unfoldable pub map_page : {E : Type 0} → ℕ → ℕ → Exec (Context k) E (Unit {0})
  map_page vaddr page = do assert (vaddr % page_size == 0); map_rounds k.num_levels vaddr page

  unfoldable pub unmap_page : {E : Type 0} → ℕ → ℕ → Exec (Context k) E (Unit {0})
  unmap_page vaddr page = do
    assert (vaddr % page_size == 0)
    on_machine (call (k.frame_unmap page))
    update_task (λ t. record t { mapped_page = remove vaddr t.mapped_page })

  -- A fresh page, mapped at an address.
  unfoldable pub map_new_page : {E : Type 0} → ℕ → Exec (Context k) E (Unit {0})
  map_new_page vaddr = do
    page_cap ← on_machine (allocate_and_retyped_fixed_sized k.granule)
    map_page vaddr page_cap

  unfoldable pub map_new_pages : {E : Type 0} → List ℕ → Exec (Context k) E (Unit {0})
  map_new_pages [] = pure tt
  map_new_pages (vaddr ∷ rest) = do map_new_page vaddr; map_new_pages rest

  unfoldable pub brk : {E : Type 0} → ℕ → Exec (Context k) E ℕ
  brk value c =
      if value == 0
      then (c, ok c.task.heap)
      else (do map_new_pages (page_steps c.task.heap value); pure value) c

  -- `Sel4Task::new`; the static counter of identifiers goes in and out.
  unfoldable pub new_task : {E : Type 0} → ℕ → Exec (Machine k) E (Sel4Task × ℕ)
  new_task id_counter = do
    vspace ← allocate_and_retyped_fixed_sized k.vspace
    call (k.asid_pool_assign vspace)
    tcb ← allocate_and_retyped_fixed_sized k.tcb
    cnode ← allocate_and_retyped_variable_sized k.cnode_blueprint 12
    pure (
      record {
        pid = 0;
        id = id_counter;
        tcb = tcb;
        cnode = cnode;
        vspace = vspace;
        mapped_pt = [];
        mapped_page = [];
        heap = 0x2_0000_0000;
        exit = none;
        clear_child_tid = none;
      },
      wrap64 (id_counter + 1),
    )
