-- ===== src/KernelThread/Thread/Fault.antt =====
-- The page faults of crates/kernel-thread/src/child_test.rs.
use rust_root_task_demo_mi_d.Prelude.{
  ℕ, suc, ◌+◌, ◌<◌, ◌≡◌, ◌≢◌, refl, sym, ap, subst, ◌∙◌, none, some, ok, arith,
}
use rust_root_task_demo_mi_d.BTree.{get, insert}
use rust_root_task_demo_mi_d.Sel4.{Kernel, MapLaws}
use rust_root_task_demo_mi_d.KernelThread.Task.{Sel4Task, Context}
use rust_root_task_demo_mi_d.KernelThread.Task.Tables.{Budget, Budget-mono, allocate_lem}
use rust_root_task_demo_mi_d.KernelThread.Task.Mapping.{
  IsConsistent, Allocates-IsConsistent, map_page_lem,
}
use rust_root_task_demo_mi_d.KernelThread.Server.{Server, Errno, with_task}
use rust_root_task_demo_mi_d.KernelThread.Mm.Ranges.{per_page}
use rust_root_task_demo_mi_d.KernelThread.Thread.{align_page, fault_task, vm_fault}

-- Resuming a thread, by the capability of a TCB, succeeds: the thread runs, and no address space has
-- changed.
pub record ResumeLaws (k : Kernel) (laws : MapLaws k) : Type 1 where
  pub Running : k.State → ℕ → Type 0
  pub resume :
      (tcb : ℕ) (s : k.State)
      → laws.Holds s tcb k.tcb
      → (s' : k.State) × (k.tcb_resume tcb s ≡ (s', ok tt))
        × Running s' tcb
        × ((v b : ℕ) → laws.page_at s' v b ≡ laws.page_at s v b)
        × ((v b : ℕ) → laws.missing s' v b ≡ laws.missing s v b)

module _ (k : Kernel) (laws : MapLaws k) (running : ResumeLaws k laws) where
  -- The work on the task, with the page that was allocated.
  fault_task_lem :
      (page addr : ℕ) (c : Context k)
      → addr < laws.user_top
      → page < c.machine.allocator.next
      → laws.Holds c.machine.kernel page k.granule
      → c.task.tcb < c.machine.allocator.next
      → page ≢ c.task.tcb
      → laws.Holds c.machine.kernel c.task.tcb k.tcb
      → get c.task.mapped_page (align_page addr) ≡ none
      → IsConsistent k laws c
      → Budget k laws (k.num_levels + 0) c.machine
      → (c' : Context k) × (fault_task {k = k} page addr c ≡ (c', ok tt))
        × (c'.task ≡ record (c.task) {
          mapped_pt = c'.task.mapped_pt;
          mapped_page = insert (align_page addr) page c.task.mapped_page;
        })
        × IsConsistent k laws c'
        × running.Running c'.machine.kernel c.task.tcb
  unfolding fault_task
  fault_task_lem page addr c user old held older other thread free before budget =
      let (c₁, e, maps, after, _) =
        map_page_lem k laws Errno 0 (align_page addr) page c (omega arith) (omega arith) old held
          free before budget in
      let tcb : c₁.task.tcb ≡ c.task.tcb = ap (λ t. t.tcb) maps.task in
      let held₁ : laws.Holds c₁.machine.kernel c₁.task.tcb k.tcb =
        subst (λ i. laws.Holds c₁.machine.kernel i k.tcb) (sym tcb)
          (maps.holds c.task.tcb k.tcb older (λ h. other (sym h)) thread) in
      let (s, resumed, runs, pages, missing) = running.resume c₁.task.tcb c₁.machine.kernel held₁ in
      (
        record c₁ { machine = record (c₁.machine) { kernel = s } },
        rw (e, resumed) refl,
        maps.task,
        record {
          synced = λ b. pages c₁.task.vspace b ∙ after.synced b;
          shallow = λ b u. omega (arith, missing c₁.task.vspace b, after.shallow b u);
          rising = after.rising;
        },
        subst (running.Running s) tcb runs,
      )

  -- A fault of a task at an address of user space whose page is not mapped: the page gets the frame
  -- in the allocator's next slot, every other page and every other task stays, the task's pages are
  -- still those of the kernel, and its thread runs; while slots and memory last, and where the
  -- task's TCB is in a slot that was handed out.
  pub vm_fault_lem :
      (badge addr : ℕ) (t : Sel4Task) (w : Server k)
      → get w.tasks badge ≡ some t
      → addr < laws.user_top
      → t.tcb < w.machine.allocator.next
      → laws.Holds w.machine.kernel t.tcb k.tcb
      → get t.mapped_page (align_page addr) ≡ none
      → IsConsistent k laws (record { machine = w.machine; task = t })
      → Budget k laws (per_page k + 0) w.machine
      → (c' : Context k) × (vm_fault {k = k} badge addr w
          ≡ (record { machine = c'.machine; tasks = insert badge c'.task w.tasks }, ok tt))
        × (c'.task ≡ record t {
          mapped_pt = c'.task.mapped_pt;
          mapped_page = insert (align_page addr) w.machine.allocator.next t.mapped_page;
        })
        × IsConsistent k laws c'
        × running.Running c'.machine.kernel t.tcb
  unfolding vm_fault with_task
  vm_fault_lem badge addr t w here user older thread free before budget =
      let (m₁, e₁, budget₁, made) =
        allocate_lem k laws Errno (k.num_levels + 0) t.vspace w.machine k.granule (
          Budget-mono k laws (suc (k.num_levels + 0)) (per_page k + 0) w.machine (omega arith)
            budget) in
      let (c', e, task, after, runs) =
        fault_task_lem w.machine.allocator.next addr (record { machine = m₁; task = t }) user
          (omega (arith, made.next)) made.made (omega (arith, made.next)) (omega arith)
          (made.holds t.tcb k.tcb thread) free
          (Allocates-IsConsistent k laws Errno k.granule (record { machine = w.machine; task = t })
            m₁ made before)
          budget₁ in
      (c', rw (e₁, here, e) refl, task, after, runs)
