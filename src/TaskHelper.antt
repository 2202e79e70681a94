-- ===== src/TaskHelper.antt =====
-- `Sel4TaskHelper` of crates/task-helper/src/lib.rs: the tasks that the root task starts, over the
-- kernel and the allocator of a `Machine`. The vector of page tables is behind an `Arc`, so a task
-- holds a reference to it and clones of the task share it.
pub mod Agree
pub mod Stack
use rust_root_task_demo_mi_d.Prelude.{
  ℕ, zero, suc, ◌+◌, ◌-◌, ◌*◌, ◌%◌, List, [], ◌∷◌, ◌++◌, Option, none, some, wrap64, ◌==◌, ◌^◌,
  if◌then◌else◌, Outcome, ok, err, panic, Exec, pure, abort, assert, unwrapped, ◌>>=◌, ◌>>◌,
}
use rust_root_task_demo_mi_d.BTree.{BTreeMap, insert}
use rust_root_task_demo_mi_d.Sel4.{Kernel}
use rust_root_task_demo_mi_d.Alloc.{Machine, call, allocate_and_retyped_fixed_sized}

-- `phantom` carries no value.
pub record Sel4TaskHelper : Type 0 where
  pub tcb : ℕ
  pub cnode : ℕ
  pub vspace : ℕ
  pub mapped_pt : ℕ
  pub mapped_page : BTreeMap ℕ
  pub stack_bottom : ℕ

-- The machine, the vectors behind the `Arc`s by reference, and the task that a method works on.
pub record Helper (k : Kernel) : Type 0 where
  pub machine : Machine k
  pub vectors : ℕ → List ℕ
  pub task : Sel4TaskHelper

-- `TaskHelperTrait`.
pub record TaskHelperTrait (k : Kernel) : Type 0 where
  pub default_stack_top : ℕ
  pub allocate_pt : Exec (Helper k) k.Error ℕ
  pub allocate_page : Exec (Helper k) k.Error ℕ

-- The further calls of the kernel that set a task up, and the slots that the sel4 crate names.
pub record SetUp (k : Kernel) : Type 0 where
  pub cnode_slot : ℕ
  pub vspace_slot : ℕ
  pub tcb_slot : ℕ
  pub asid_pool_slot : ℕ
  pub asid_control_slot : ℕ
  -- `mint` and `copy` into a slot of a CNode, from a slot of the own one.
  pub mint : ℕ → ℕ → ℕ → k.Rights → ℕ → Exec k.State k.Error (Unit {0})
  pub copy : ℕ → ℕ → ℕ → k.Rights → Exec k.State k.Error (Unit {0})
  pub skip_high_bits : ℕ → ℕ
  pub tcb_configure : ℕ → ℕ → ℕ → ℕ → ℕ → ℕ → ℕ → Exec k.State k.Error (Unit {0})
  -- The program counter, the stack pointer and the thread pointer.
  pub tcb_write_all_registers : ℕ → ℕ → ℕ → ℕ → Exec k.State k.Error (Unit {0})

-- What `with_context` reads of an ELF image.
pub record ElfFile : Type 0 where
  pub entry_point : ℕ
  pub tls : Option ℕ

abbrev pub default_thread_fault_ep : ℕ
default_thread_fault_ep = 18

abbrev pub default_thread_irq_ep : ℕ
default_thread_irq_ep = 20

abbrev pub stack_align_size : ℕ
stack_align_size = 16

abbrev pub page_size : ℕ
page_size = 4096

abbrev pub tls_address : Option ℕ → ℕ
tls_address none = 0
tls_address (some address) = address

module _ {k : Kernel} where
  abbrev pub on_machine : {A : Type 0} → Exec (Machine k) k.Error A → Exec (Helper k) k.Error A
  on_machine op h = let (m, r) = op h.machine in (record h { machine = m }, r)

  -- A call of the kernel whose result the code looks at.
  abbrev pub attempt :
      Exec k.State k.Error (Unit {0}) → Exec (Helper k) k.Error (Outcome k.Error (Unit {0}))
  attempt op h =
      let (s, r) = op h.machine.kernel in
      (record h { machine = record (h.machine) { kernel = s } }, ok r)

  abbrev pub update_task : (Sel4TaskHelper → Sel4TaskHelper) → Exec (Helper k) k.Error (Unit {0})
  update_task f h = (record h { task = f h.task }, ok tt)

  -- `self.mapped_pt.lock().push(pt_cap)`.
  abbrev pub push_table : ℕ → ℕ → Exec (Helper k) k.Error (Unit {0})
  push_table reference pt_cap h = (
    record h {
      vectors = λ i. if i == reference then h.vectors reference ++ pt_cap ∷ [] else h.vectors i;
    },
    ok tt,
  )

  module _ (trait : TaskHelperTrait k) where
    unfoldable pub add_table : ℕ → Exec (Helper k) k.Error (Unit {0})
    add_table vaddr h =
        (do
          pt_cap ← trait.allocate_pt
          on_machine (call (k.pt_map pt_cap h.task.vspace vaddr))
          push_table h.task.mapped_pt pt_cap)
          h

    -- `match res` in `map_page`, where `retry` is the next round.
    unfoldable pub mapped :
        Exec (Helper k) k.Error (Unit {0})
        → ℕ
        → ℕ
        → Outcome k.Error (Unit {0})
        → Exec (Helper k) k.Error (Unit {0})
    mapped retry vaddr page (ok _) =
        update_task (λ t. record t { mapped_page = insert vaddr page t.mapped_page })
    mapped retry vaddr page (err e) =
        if k.is_failed_lookup e then (do add_table vaddr; retry) else abort
    mapped retry vaddr page panic = abort

    -- The rounds of `map_page`; behind the last one stands `unreachable!`.
    unfoldable pub map_rounds : ℕ → ℕ → ℕ → Exec (Helper k) k.Error (Unit {0})
    map_rounds zero vaddr page = abort
    map_rounds (suc n) vaddr page = λ h.
        (do
          res ← attempt (k.frame_map page h.task.vspace vaddr k.all_rights)
          mapped (map_rounds n vaddr page) vaddr page res)
          h

    unfoldable pub map_page : ℕ → ℕ → Exec (Helper k) k.Error (Unit {0})
    map_page vaddr page = do assert (vaddr % page_size == 0); map_rounds k.num_levels vaddr page

    -- The loop of `map_stack`, over the pages that are left from an address on.
    unfoldable pub map_stack_pages : ℕ → ℕ → Exec (Helper k) k.Error (Unit {0})
    map_stack_pages zero vaddr = pure tt
    map_stack_pages (suc n) vaddr = do
      page_cap ← trait.allocate_page
      map_page vaddr page_cap
      map_stack_pages n (wrap64 (vaddr + page_size))

    unfoldable pub map_stack : ℕ → Exec (Helper k) k.Error (Unit {0})
    map_stack page_count = do
      update_task (λ t. record t {
        stack_bottom = wrap64 (t.stack_bottom + 2 ^ 64 - wrap64 (page_count * page_size));
      })
      λ h. map_stack_pages page_count h.task.stack_bottom h

  module _ (trait : TaskHelperTrait k) (set_up : SetUp k) where
    open set_up use {mint, copy, skip_high_bits, tcb_configure, tcb_write_all_registers}

    -- `new`, with the reference of the fresh vector; the capabilities are set up in this order.
    unfoldable pub new_helper :
        ℕ → ℕ → ℕ → ℕ → BTreeMap ℕ → ℕ → ℕ → ℕ → Exec (Machine k) k.Error Sel4TaskHelper
    new_helper tcb cnode fault_ep vspace mapped_page badge irq_ep reference = do
      call (mint cnode default_thread_fault_ep fault_ep k.all_rights badge)
      call (mint cnode default_thread_irq_ep irq_ep k.all_rights badge)
      call (copy cnode set_up.asid_pool_slot set_up.asid_pool_slot k.all_rights)
      call (copy cnode set_up.asid_control_slot set_up.asid_control_slot k.all_rights)
      pure (record {
        tcb = tcb;
        cnode = cnode;
        vspace = vspace;
        mapped_pt = reference;
        mapped_page = mapped_page;
        stack_bottom = trait.default_stack_top;
      })

    -- The last call's error is returned.
    unfoldable pub configure : ℕ → ℕ → ℕ → Exec (Helper k) k.Error (Unit {0})
    configure radix_bits ipc_buffer_addr ipc_buffer_cap h =
        (do
          on_machine (
              call (
                mint h.task.cnode set_up.cnode_slot h.task.cnode k.all_rights
                  (skip_high_bits radix_bits)))
          on_machine (call (copy h.task.cnode set_up.tcb_slot h.task.tcb k.all_rights))
          on_machine (call (copy h.task.cnode set_up.vspace_slot h.task.vspace k.all_rights))
          res ← attempt (
              tcb_configure h.task.tcb default_thread_fault_ep h.task.cnode
                (skip_high_bits radix_bits) h.task.vspace ipc_buffer_addr ipc_buffer_cap)
          λ g. (g, res))
          h

    unfoldable pub with_context : ElfFile → Exec (Helper k) k.Error (Unit {0})
    with_context image h =
        on_machine
          (call (
            tcb_write_all_registers h.task.tcb image.entry_point
              (trait.default_stack_top - stack_align_size) (tls_address image.tls)))
          h

  unfoldable pub run : Exec (Helper k) k.Error (Unit {0})
  run h = on_machine (call (k.tcb_resume h.task.tcb)) h

-- The clone has its own map of pages, and the same vector of page tables.
unfoldable pub clone_thread : Sel4TaskHelper → ℕ → Sel4TaskHelper
clone_thread task tcb = record task { tcb = tcb }

-- `TaskHelperTrait` as crates/root-task/src/task.rs implements it.
abbrev pub root_default_stack_top : ℕ
root_default_stack_top = 0x1_0000_0000

unfoldable pub root_allocate_pt : {k : Kernel} → Exec (Helper k) k.Error ℕ
root_allocate_pt {k} = on_machine (allocate_and_retyped_fixed_sized k.page_table)

unfoldable pub root_allocate_page : {k : Kernel} → Exec (Helper k) k.Error ℕ
root_allocate_page {k} = on_machine (allocate_and_retyped_fixed_sized k.granule)

abbrev pub root_helper : (k : Kernel) → TaskHelperTrait k
root_helper k = record {
  default_stack_top = root_default_stack_top;
  allocate_pt = root_allocate_pt;
  allocate_page = root_allocate_page;
}
