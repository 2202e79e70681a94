-- ===== src/TaskHelper/Stack.antt =====
-- `map_stack` of crates/task-helper/src/lib.rs, through the laws of the kernel thread's copy of
-- `map_page`.
use rust_root_task_demo_mi_d.Prelude.{
  ℕ, zero, suc, ◌+◌, ◌-◌, ◌*◌, ◌%◌, ◌^◌, ◌≤◌, ◌<◌, ◌≡◌, refl, sym, ap, ◌∙◌, subst, inl, inr, none,
  some, arith, ==_refl, ==_false, wrap64, ok, Outcome,
}
use rust_root_task_demo_mi_d.BTree.{get, get-insert}
use rust_root_task_demo_mi_d.Sel4.{Kernel, MapLaws}
use rust_root_task_demo_mi_d.KernelThread.Task.{Sel4Task}
use rust_root_task_demo_mi_d.KernelThread.Task.Tables.{Budget, Budget-mono, MapsPage, allocate_lem}
use rust_root_task_demo_mi_d.KernelThread.Task.Mapping.{
  IsConsistent, Allocates-IsConsistent, map_page_lem,
}
use rust_root_task_demo_mi_d.KernelThread.Mm.Ranges.{
  per_page, MapsRange, AddsPage, get-AddsPage, none-MapsRange, add-MapsRange,
}
use rust_root_task_demo_mi_d.TaskHelper.{
  Helper, root_helper, root_allocate_page, map_page, map_stack_pages, map_stack,
}
use rust_root_task_demo_mi_d.TaskHelper.Agree.{as_context, Agree, map_page-Agree}

module _ (k : Kernel) (laws : MapLaws k) (t : Sel4Task) where
  -- The helper's map of a page succeeds where the kernel thread's maps it.
  helper_map_page :
      (j a page : ℕ) (h : Helper k)
      → a % 4096 ≡ 0
      → a < laws.user_top
      → page < h.machine.allocator.next
      → laws.Holds h.machine.kernel page k.granule
      → get h.task.mapped_page a ≡ none
      → IsConsistent k laws (as_context k t h)
      → Budget k laws (k.num_levels + j) h.machine
      → (h' : Helper k) × (map_page (root_helper k) a page h ≡ (h', ok tt))
        × MapsPage k laws a page (as_context k t h) (as_context k t h')
        × (h'.task.stack_bottom ≡ h.task.stack_bottom)
        × IsConsistent k laws (as_context k t h')
        × Budget k laws j h'.machine
  helper_map_page j a page h aligned user old held free before budget =
      let (c', e, maps, after, left) =
        map_page_lem k laws k.Error j a page (as_context k t h) aligned user old held free before
          budget in
      let (same, task, outcome) =
        subst (λ p. Agree k t h p (map_page (root_helper k) a page h)) e
          (map_page-Agree k t a page h) in
      let q : Helper k × Outcome k.Error (Unit {0}) = map_page (root_helper k) a page h in
      let there : get q.0.task.mapped_page a ≡ some page =
        ap (λ c. get c.task.mapped_page a) (sym same)
        ∙ ap (λ x. get x.mapped_page a) maps.task
        ∙ get-insert a page h.task.mapped_page a
        ∙ rw (==_refl a) in
      let succeeds : q.1 ≡ ok tt = elim outcome [
        | inl e₁ ↦ e₁
        | inr (p, o, stays) ↦ cc (there, ap (λ x. get x.mapped_page a) stays, free)
      ] in
      let (maps', after', left') =
        subst
          (λ c.
            MapsPage k laws a page (as_context k t h) c
            × IsConsistent k laws c
            × Budget k laws j c.machine)
          same (maps, after, left) in
      (q.0, ap (λ r. (q.0, r)) succeeds, maps', ap (λ x. x.stack_bottom) task, after', left')

  -- The loop of `map_stack`, over a range where nothing is mapped.
  pub map_stack_pages_lem :
      (n j a : ℕ) (h : Helper k)
      → a % 4096 ≡ 0
      → a + n * 4096 < 2 ^ 64
      → a + n * 4096 ≤ laws.user_top
      → ((b : ℕ) → a ≤ b → b < a + n * 4096 → get h.task.mapped_page b ≡ none)
      → IsConsistent k laws (as_context k t h)
      → Budget k laws (n * per_page k + j) h.machine
      → (h' : Helper k) × (map_stack_pages (root_helper k) n a h ≡ (h', ok tt))
        × MapsRange a n (as_context k t h).task (as_context k t h').task
        × (h'.task.stack_bottom ≡ h.task.stack_bottom)
        × IsConsistent k laws (as_context k t h')
  unfolding map_stack_pages root_allocate_page
  map_stack_pages_lem zero j a h aligned fits user fresh before budget =
      (h, refl, none-MapsRange a _, refl, before)
  map_stack_pages_lem (suc n) j a h aligned fits user fresh before budget =
      let free : get h.task.mapped_page a ≡ none = fresh a (omega arith) (omega arith) in
      let (m₁, e₁, budget₁, made) =
        allocate_lem k laws k.Error (k.num_levels + (n * per_page k + j)) h.task.vspace h.machine
          k.granule
          (Budget-mono k laws (suc (k.num_levels + (n * per_page k + j))) (suc n * per_page k + j)
            h.machine (omega arith) budget) in
      let (h₁, e₂, maps, bottom, between, budget₂) =
        helper_map_page (n * per_page k + j) a h.machine.allocator.next (record h { machine = m₁ })
          aligned (omega arith) (omega (arith, made.next)) made.made free
          (Allocates-IsConsistent k laws k.Error k.granule (as_context k t h) m₁ made before)
          budget₁ in
      let adds : AddsPage a (as_context k t h).task (as_context k t h₁).task = record {
        frame = h.machine.allocator.next;
        task = maps.task;
      } in
      let (h', e₃, range, bottom', after) =
        map_stack_pages_lem n j (a + 4096) h₁ (omega arith) (omega arith) (omega arith)
          (λ b l u.
            get-AddsPage a (as_context k t h).task (as_context k t h₁).task adds b
            ∙ rw (==_false a b (omega arith)) (fresh b (omega arith) (omega arith)))
          between budget₂ in
      let next : wrap64 (a + 4096) ≡ a + 4096 = omega arith in
      (
        h',
        rw (e₁, e₂, next) e₃,
        add-MapsRange a n (as_context k t h).task (as_context k t h₁).task (as_context k t h').task
            aligned free adds range,
        bottom' ∙ bottom,
        after,
      )

  -- Growing the stack by `n` pages succeeds, where the new bottom is aligned, the range is in
  -- user space, its pages are free and slots and memory last: the bottom moves down by `n` pages, each page from the new
  -- bottom to the old one is mapped, no other page changes, and the task's pages are still those
  -- of the kernel.
  pub map_stack_lem :
      (n bottom : ℕ) (h : Helper k)
      → bottom % 4096 ≡ 0
      → h.task.stack_bottom ≡ bottom + n * 4096
      → bottom + n * 4096 < 2 ^ 64
      → bottom + n * 4096 ≤ laws.user_top
      → ((b : ℕ) → bottom ≤ b → b < bottom + n * 4096 → get h.task.mapped_page b ≡ none)
      → IsConsistent k laws (as_context k t h)
      → Budget k laws (n * per_page k + 0) h.machine
      → (h' : Helper k) × (map_stack (root_helper k) n h ≡ (h', ok tt))
        × MapsRange bottom n (as_context k t h).task (as_context k t h').task
        × (h'.task.stack_bottom ≡ bottom)
        × IsConsistent k laws (as_context k t h')
  unfolding map_stack
  map_stack_lem n bottom h aligned top fits user fresh before budget =
      let lower : wrap64 (h.task.stack_bottom + 2 ^ 64 - wrap64 (n * 4096)) ≡ bottom =
        omega arith in
      let h₀ : Helper k = record h { task = record (h.task) { stack_bottom = bottom } } in
      let (h', e, range, same, after) =
        map_stack_pages_lem n 0 bottom h₀ aligned fits user fresh before budget in
      (h', rw lower e, range, same, after)
