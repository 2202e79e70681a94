-- ===== src/KernelThread/Mm/Unmap.antt =====
-- `sys_unmap` of crates/kernel-thread/src/syscall/mm/mmap.rs.
use rust_root_task_demo_mi_d.Prelude.{
  ℕ, zero, suc, ◌+◌, ◌*◌, ◌%◌, ◌^◌, ◌≤◌, ◌<◌, ◌≡◌, refl, sym, ap, ◌∙◌, subst, ◌⊎◌, inl, inr, false,
  none, some, arith, ◌==◌, ==_iff, ==_true, Bool-cases, Option-cases, if◌then◌else◌, ok,
}
use rust_root_task_demo_mi_d.BTree.{get, remove, get-remove, remove-Rising}
use rust_root_task_demo_mi_d.Crates.{steps, MemoryAddr, Bitflags}
use rust_root_task_demo_mi_d.Sel4.{Kernel, MapLaws, UnmapLaws}
use rust_root_task_demo_mi_d.KernelThread.Task.Mapping.{IsConsistent}
use rust_root_task_demo_mi_d.KernelThread.Task.{Sel4Task, Context, unmap_page}
use rust_root_task_demo_mi_d.KernelThread.Server.{Errno}
use rust_root_task_demo_mi_d.KernelThread.Mm.{unmap_present_page, unmap_pages, unmap_task}
use rust_root_task_demo_mi_d.KernelThread.Mm.Mmap.{first_page, page_count, area_pages_lem}

-- No page of a range of `n` pages is mapped, and nothing else changes.
pub record UnmapsRange (a n : ℕ) (t t' : Sel4Task) : Type 0 where
  pub task : t' ≡ record t { mapped_page = t'.mapped_page }
  pub inside : (b : ℕ) → a ≤ b → b < a + n * 4096 → b % 4096 ≡ 0 → get t'.mapped_page b ≡ none
  pub outside : (b : ℕ) → (b < a) ⊎ (a + n * 4096 ≤ b) → get t'.mapped_page b ≡ get t.mapped_page b

-- A page that is gone, and the range behind it.
gone-UnmapsRange :
    (a n : ℕ) (t t₁ t' : Sel4Task)
    → a % 4096 ≡ 0
    → t₁ ≡ record t { mapped_page = t₁.mapped_page }
    → ((b : ℕ) → get t₁.mapped_page b ≡ (if a == b then none else get t.mapped_page b))
    → UnmapsRange (a + 4096) n t₁ t'
    → UnmapsRange a (suc n) t t'
gone-UnmapsRange a n t t₁ t' aligned same gone r = record {
  task = r.task ∙ ap (λ (x : Sel4Task). record x { mapped_page = t'.mapped_page }) same;
  inside = λ b h l z. elim (Bool-cases (a == b)) [
    | inl here ↦ r.outside b (ground arith) ∙ gone b ∙ rw here
    | inr other ↦ r.inside b (ground arith) (omega arith) z
  ];
  outside = λ b h. r.outside b (omega arith) ∙ gone b ∙ rw (away b h);
}
  where
    away : (b : ℕ) → (b < a) ⊎ (a + suc n * 4096 ≤ b) → (a == b) ≡ false
    away b h = ground arith

-- A page that was not there is gone.
none-gone :
    (a : ℕ) (t : Sel4Task) (b : ℕ)
    → get t.mapped_page a ≡ none
    → get t.mapped_page b ≡ (if a == b then none else get t.mapped_page b)
none-gone a t b e = elim (Bool-cases (a == b)) [
  | inl here ↦ rw here (subst (λ x. get t.mapped_page x ≡ none) ((==_iff a b).0 here) e)
  | inr other ↦ rw other
]

module _ (k : Kernel) (laws : MapLaws k) (unmapping : UnmapLaws k laws) (E : Type 0) where
  -- A page of the task is unmapped, in the kernel and in the task's map.
  unmap_page_lem :
      (a page : ℕ) (c : Context k)
      → a % 4096 ≡ 0
      → get c.task.mapped_page a ≡ some page
      → IsConsistent k laws c
      → (c' : Context k) × (unmap_page {k = k} {E = E} a page c ≡ (c', ok tt))
        × (c'.task ≡ record (c.task) { mapped_page = remove a c.task.mapped_page })
        × IsConsistent k laws c'
  unfolding unmap_page
  unmap_page_lem a page c aligned present before =
      let (s', e, gone, elsewhere, depth) =
        unmapping.frame_unmap-mapped c.machine.kernel page c.task.vspace a
          (before.synced a ∙ present) in
      (
        record {
          machine = record (c.machine) { kernel = s' };
          task = record (c.task) { mapped_page = remove a c.task.mapped_page };
        },
        rw (==_true _ _ aligned, e) refl,
        refl,
        record {
          synced = λ b. elim (Bool-cases (a == b)) [
            | inl here ↦
                subst (λ x. laws.page_at s' c.task.vspace x ≡ none) ((==_iff a b).0 here) gone
                ∙ sym (get-remove a c.task.mapped_page 0 b before.rising ∙ rw here)
            | inr other ↦
                elsewhere b (ground arith)
                ∙ before.synced b
                ∙ sym (get-remove a c.task.mapped_page 0 b before.rising ∙ rw other)
          ];
          shallow = λ b user. omega (arith, depth b, before.shallow b user);
          rising = remove-Rising a c.task.mapped_page 0 before.rising;
        },
      )

  -- The loop of `sys_unmap` over a range.
  unmap_pages_lem :
      (n a : ℕ) (c : Context k)
      → a % 4096 ≡ 0
      → IsConsistent k laws c
      → (c' : Context k) × (unmap_pages {k = k} {E = E} (steps 4096 a n) c ≡ (c', ok tt))
        × UnmapsRange a n c.task c'.task
        × IsConsistent k laws c'
  unfolding unmap_pages unmap_present_page
  unmap_pages_lem zero a c aligned before = (
    c,
    refl,
    record { task = refl; inside = λ b h l z. absurd (omega arith); outside = λ b h. refl },
    before,
  )
  unmap_pages_lem (suc n) a c aligned before = elim (Option-cases (get c.task.mapped_page a)) [
    | inl absent ↦
        let (c', e, range, after) = unmap_pages_lem n (a + 4096) c (omega arith) before in
        (
          c',
          rw (absent, unmap_present_page) e,
          gone-UnmapsRange a n c.task c.task c'.task aligned refl (λ b. none-gone a c.task b absent)
              range,
          after,
        )
    | inr (page, present) ↦
        let (c₁, e₁, task₁, between) = unmap_page_lem a page c aligned present before in
        let pages : c₁.task.mapped_page ≡ remove a c.task.mapped_page =
          ap (λ t. t.mapped_page) task₁ in
        let (c', e, range, after) = unmap_pages_lem n (a + 4096) c₁ (omega arith) between in
        (
          c',
          rw (present, unmap_present_page, e₁) e,
          gone-UnmapsRange a n c.task c₁.task c'.task aligned
              (task₁ ∙ ap (λ m. record (c.task) { mapped_page = m }) (sym pages))
              (λ b. ap (λ m. get m b) pages ∙ get-remove a c.task.mapped_page 0 b before.rising)
              range,
          after,
        )
  ]

module _ (k : Kernel) (laws : MapLaws k) (unmapping : UnmapLaws k laws) (mem : MemoryAddr)
    (bits : Bitflags) where
  -- Where the task's pages are those of the kernel, unmapping an area that does not pass the end of
  -- the address space succeeds: no page that a byte of the area lies in is mapped afterwards, in
  -- the task's map or in the kernel, nothing else changes, and the task's pages are still those of
  -- the kernel.
  pub unmap_task_lem :
      (addr length : ℕ) (c : Context k)
      → addr + length + 4095 < 2 ^ 64
      → IsConsistent k laws c
      → (c' : Context k) × (unmap_task {k = k} mem bits addr length c ≡ (c', ok 0))
        × UnmapsRange (first_page addr) (page_count addr length) c.task c'.task
        × IsConsistent k laws c'
  unfolding unmap_task
  unmap_task_lem addr length c fits before =
      let (c', e, range, after) =
        unmap_pages_lem k laws unmapping Errno (page_count addr length) (first_page addr) c
          (omega arith) before in
      (c', rw (area_pages_lem mem bits addr length c fits, e) refl, range, after)
