-- ===== src/KernelThread/Mm/Brk.antt =====
-- `sys_brk` of crates/kernel-thread/src/syscall/mm/brk.rs with `Sel4Task::brk`.
use rust_root_task_demo_mi_d.Prelude.{
  ℕ, suc, ◌+◌, ◌-◌, ◌*◌, ◌/◌, ◌%◌, ◌≤◌, ◌<◌, ◌≡◌, ◌≢◌, refl, ap, subst, inl, inr, false, none,
  arith, ltb, lt→ltb, ==_false, Bool-cases, ok, err, panic, ◌||◌,
}
use rust_root_task_demo_mi_d.BTree.{get}
use rust_root_task_demo_mi_d.Sel4.{Kernel, MapLaws}
use rust_root_task_demo_mi_d.KernelThread.Task.{
  Sel4Task, Context, brk, map_page, map_new_page, map_new_pages,
}
use rust_root_task_demo_mi_d.KernelThread.Task.Tables.{Budget, allocate_lem}
use rust_root_task_demo_mi_d.KernelThread.Task.Mapping.{IsConsistent}
use rust_root_task_demo_mi_d.KernelThread.Server.{Errno, enomem}
use rust_root_task_demo_mi_d.KernelThread.Mm.{
  uspace_heap_base, uspace_heap_size, grow_heap, brk_task,
}
use rust_root_task_demo_mi_d.KernelThread.Mm.Ranges.{per_page, MapsRange, map_new_pages_lem}

-- The break lies in the heap window.
abbrev pub InWindow : ℕ → Type 0
InWindow addr = (uspace_heap_base ≤ addr) × (addr ≤ uspace_heap_base + uspace_heap_size)

-- The pages from the old break to the new one; none where the break does not grow.
abbrev pub pages_to : ℕ → ℕ → ℕ
pages_to heap addr = (addr - heap + 4095) / 4096

InWindow-tests :
    (addr : ℕ)
    → InWindow addr
    → (ltb addr uspace_heap_base || ltb (uspace_heap_base + uspace_heap_size) addr) ≡ false
InWindow-tests addr h = ground arith

-- A break outside the heap window is refused, and nothing changes.
pub brk_task_outside :
    {k : Kernel} (addr : ℕ) (c : Context k)
    → ¬ InWindow addr
    → brk_task {k = k} addr c ≡ (c, err enomem)
unfolding brk_task
brk_task_outside addr c h =
    elim (Bool-cases
      (ltb addr uspace_heap_base || ltb (uspace_heap_base + uspace_heap_size) addr)) [
        | inl out ↦ rw out
        | inr within ↦ absurd (h (ground arith))
      ]

-- The break is beside what `MapsRange` speaks of.
MapsRange-heap :
    (a n : ℕ) (t t' : Sel4Task) → MapsRange a n t t' → MapsRange a n t (record t' { heap = t.heap })
MapsRange-heap a n t t' r =
    subst (MapsRange a n t) (λ i. record t' { heap = ap (λ (x : Sel4Task). x.heap) r.task i }) r

module _ (k : Kernel) (laws : MapLaws k) where
  IsConsistent-heap :
      (c : Context k) (addr : ℕ)
      → IsConsistent k laws c
      → IsConsistent k laws (record c { task = record (c.task) { heap = addr } })
  IsConsistent-heap c addr v = record { synced = v.synced; shallow = v.shallow; rising = v.rising }

  -- A larger break in the window, from an aligned break with nothing mapped behind it, succeeds where
  -- the pages up to it are in user space and slots and memory last: the break moves, every page from
  -- the old break to the new one is mapped, other pages stay as they are, and the task's pages are
  -- still those of the kernel.
  pub brk_task_grow :
      (addr : ℕ) (c : Context k)
      → InWindow addr
      → c.task.heap < addr
      → c.task.heap % 4096 ≡ 0
      → c.task.heap + pages_to c.task.heap addr * 4096 ≤ laws.user_top
      → ((b : ℕ)
          → c.task.heap ≤ b
          → b < c.task.heap + pages_to c.task.heap addr * 4096
          → get c.task.mapped_page b ≡ none)
      → IsConsistent k laws c
      → Budget k laws (pages_to c.task.heap addr * per_page k + 0) c.machine
      → (c' : Context k) × (brk_task {k = k} addr c ≡ (c', ok 0))
        × (c'.task.heap ≡ addr)
        × MapsRange c.task.heap
            (pages_to c.task.heap addr)
            c.task
            (record (c'.task) { heap = c.task.heap })
        × IsConsistent k laws c'
  unfolding brk_task grow_heap brk
  brk_task_grow addr c h grows aligned user fresh before budget =
      let n : ℕ = pages_to c.task.heap addr in
      let (c₁, e, range, after, left) =
        map_new_pages_lem k laws Errno n 0 c.task.heap c aligned user fresh before budget in
      (
        record c₁ { task = record (c₁.task) { heap = addr } },
        rw (InWindow-tests addr h, lt→ltb _ _ grows, ==_false addr 0 (omega arith), e) refl,
        refl,
        MapsRange-heap c.task.heap n c.task c₁.task range,
        IsConsistent-heap c₁ addr after,
      )

  -- A larger break from a break that is not a multiple of the page size panics.
  pub brk_task_unaligned :
      (addr : ℕ) (c : Context k)
      → InWindow addr
      → c.task.heap < addr
      → c.task.heap % 4096 ≢ 0
      → Budget k laws 1 c.machine
      → (brk_task {k = k} addr c).1 ≡ panic
  unfolding brk_task grow_heap brk map_new_pages map_new_page map_page
  brk_task_unaligned addr c h grows crooked budget =
      let (m₁, e, budget₁, same) =
        allocate_lem k laws Errno 0 c.task.vspace c.machine k.granule budget in
      let n : ℕ = (addr - c.task.heap + 4095) / 4096 - 1 in
      let some_page : (addr - c.task.heap + 4095) / 4096 ≡ suc n = omega arith in
      rw
        (
          InWindow-tests addr h,
          lt→ltb _ _ grows,
          ==_false addr 0 (omega arith),
          some_page,
          e,
          ==_false _ _ crooked,
        )
        refl
