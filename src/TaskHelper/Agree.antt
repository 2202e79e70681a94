-- ===== src/TaskHelper/Agree.antt =====
-- `Sel4TaskHelper::map_page` of crates/task-helper/src/lib.rs beside its copy in the kernel thread,
-- `Sel4Task::map_page` of crates/kernel-thread/src/task.rs.
use rust_root_task_demo_mi_d.Prelude.{
  ℕ, zero, suc, ◌%◌, ◌≡◌, refl, ◌⊎◌, inl, inr, arith, ◌==◌, ==_refl, Bool-cases, Outcome, ok, err,
  panic, continue_with,
}
use rust_root_task_demo_mi_d.Sel4.{Kernel}
use rust_root_task_demo_mi_d.KernelThread.Task
use rust_root_task_demo_mi_d.KernelThread.Task.{Sel4Task, Context}
use rust_root_task_demo_mi_d.TaskHelper.{
  Helper, root_helper, root_allocate_pt, add_table, mapped, map_rounds, map_page,
}

module _ (k : Kernel) (t : Sel4Task) where
  -- The helper's task as a task of the kernel thread that shares the other fields of `t`.
  abbrev pub as_context : Helper k → Context k
  as_context h = record {
    machine = h.machine;
    task = record t {
      vspace = h.task.vspace;
      mapped_pt = h.vectors h.task.mapped_pt;
      mapped_page = h.task.mapped_page;
    };
  }

  -- Both reach the same state with the same outcome, and the helper's task changes in its pages only;
  -- but where the kernel thread's loop runs out of rounds and returns as if it had mapped the
  -- page, the helper panics.
  abbrev pub Agree :
      Helper k
      → Context k × Outcome k.Error (Unit {0})
      → Helper k × Outcome k.Error (Unit {0})
      → Type 0
  Agree h (c', q) (h', r) =
      (c' ≡ as_context h')
      × (h'.task ≡ record (h.task) { mapped_page = h'.task.mapped_page })
      × ((r ≡ q) ⊎ ((r ≡ panic) × (q ≡ ok tt) × (h'.task ≡ h.task)))

  -- Both add the same table, or stop in the same way.
  add_table_same :
      (vaddr : ℕ) (h : Helper k)
      → let q : Helper k × Outcome k.Error (Unit {0}) = add_table (root_helper k) vaddr h in
        (Task.add_table vaddr (as_context h) ≡ (as_context q.0, q.1)) × (q.0.task ≡ h.task)
  unfolding Task.add_table add_table root_allocate_pt
  add_table_same vaddr h = ground (arith, ==_refl h.task.mapped_pt)

  abbrev RoundsAgree : ℕ → ℕ → ℕ → Type 0
  RoundsAgree n vaddr page =
      (g : Helper k)
      → Agree g (Task.map_rounds n vaddr page (as_context g))
          (map_rounds (root_helper k) n vaddr page g)

  -- What follows a table on both sides.
  next_round :
      (n vaddr page : ℕ) (h : Helper k) (q : Helper k × Outcome k.Error (Unit {0}))
      → q.0.task ≡ h.task
      → RoundsAgree n vaddr page
      → Agree h
          (continue_with (λ _. Task.map_rounds n vaddr page) (as_context q.0, q.1))
          (continue_with (λ _. map_rounds (root_helper k) n vaddr page) q)
  next_round n vaddr page h (g, ok _) same ih = ground (arith, ih g)
  next_round n vaddr page h (g, err e) same ih = (refl, ground arith, inl refl)
  next_round n vaddr page h (g, panic) same ih = (refl, ground arith, inl refl)

  -- What follows an attempt to map the page.
  after_attempt :
      (n vaddr page : ℕ) (h : Helper k) (r : Outcome k.Error (Unit {0}))
      → RoundsAgree n vaddr page
      → Agree h
          (Task.mapped (Task.map_rounds n vaddr page) vaddr page r (as_context h))
          (mapped (root_helper k) (map_rounds (root_helper k) n vaddr page) vaddr page r h)
  unfolding Task.mapped mapped
  after_attempt n vaddr page h (ok _) ih = (refl, refl, inl refl)
  after_attempt n vaddr page h (err e) ih = elim (Bool-cases (k.is_failed_lookup e)) [
    | inl lookup ↦
        let (same, task) = add_table_same vaddr h in
        rw (lookup, same) (next_round n vaddr page h _ task ih)
    | inr other ↦ rw other (refl, refl, inl refl)
  ]
  after_attempt n vaddr page h panic ih = (refl, refl, inl refl)

  pub map_rounds-Agree : (n vaddr page : ℕ) → RoundsAgree n vaddr page
  unfolding Task.map_rounds map_rounds
  map_rounds-Agree zero vaddr page h = (refl, refl, inr (refl, refl, refl))
  map_rounds-Agree (suc n) vaddr page h =
      let tried : k.State × Outcome k.Error (Unit {0}) =
        k.frame_map page h.task.vspace vaddr k.all_rights h.machine.kernel in
      after_attempt n vaddr page (record h { machine = record (h.machine) { kernel = tried.0 } })
        (tried.1) (map_rounds-Agree n vaddr page)

  -- On the same kernel, allocator, address space and pages, the root task's `map_page` and the
  -- kernel thread's reach the same state with the same outcome; but where the rounds run out, the
  -- kernel thread returns as if it had mapped the page, and the helper panics, its task unchanged.
  pub map_page-Agree :
      (vaddr page : ℕ) (h : Helper k)
      → Agree h (Task.map_page vaddr page (as_context h)) (map_page (root_helper k) vaddr page h)
  unfolding Task.map_page map_page
  map_page-Agree vaddr page h = elim (Bool-cases (vaddr % 4096 == 0)) [
    | inl aligned ↦ rw aligned (map_rounds-Agree k.num_levels vaddr page h)
    | inr unaligned ↦ rw unaligned (refl, refl, inl refl)
  ]
