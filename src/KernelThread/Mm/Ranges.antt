-- ===== src/KernelThread/Mm/Ranges.antt =====
-- The loops that map a range of pages (`Sel4Task::brk` in crates/kernel-thread/src/task.rs,
-- `sys_mmap` in crates/kernel-thread/src/syscall/mm/mmap.rs).
use rust_root_task_demo_mi_d.Prelude.{
  ℕ, zero, suc, ◌+◌, ◌*◌, ◌%◌, ◌≤◌, ◌<◌, ◌≡◌, refl, ap, ◌∙◌, subst, ◌⊎◌, inl, inr, none, some,
  arith, ◌==◌, if◌then◌else◌, false, ok, Bool-cases, Option-cases, ==_iff, ==_false,
}
use rust_root_task_demo_mi_d.BTree.{get, insert, get-insert}
use rust_root_task_demo_mi_d.Crates.{steps}
use rust_root_task_demo_mi_d.Sel4.{Kernel, MapLaws}
use rust_root_task_demo_mi_d.KernelThread.Task.{Sel4Task, Context, map_new_page, map_new_pages}
use rust_root_task_demo_mi_d.KernelThread.Task.Tables.{Budget, Budget-mono, allocate_lem}
use rust_root_task_demo_mi_d.KernelThread.Task.Mapping.{
  IsConsistent, Allocates-IsConsistent, map_page_lem,
}
use rust_root_task_demo_mi_d.KernelThread.Mm.{map_missing_page, map_missing_pages}

-- The objects that a page may take: itself, and a table for each level.
abbrev pub per_page : Kernel → ℕ
per_page k = suc k.num_levels

-- Every page of a range of `n` pages is mapped, all pages that were mapped keep their frames, and
-- nothing changes outside the range and beside the page tables.
pub record MapsRange (a n : ℕ) (t t' : Sel4Task) : Type 0 where
  pub task : t' ≡ record t { mapped_pt = t'.mapped_pt; mapped_page = t'.mapped_page }
  pub inside :
      (b : ℕ)
      → a ≤ b
      → b < a + n * 4096
      → b % 4096 ≡ 0
      → (page : ℕ) × (get t'.mapped_page b ≡ some page)
  pub kept : (b page : ℕ) → get t.mapped_page b ≡ some page → get t'.mapped_page b ≡ some page
  pub outside : (b : ℕ) → (b < a) ⊎ (a + n * 4096 ≤ b) → get t'.mapped_page b ≡ get t.mapped_page b

-- One page is mapped anew.
pub record AddsPage (a : ℕ) (t t' : Sel4Task) : Type 0 where
  pub frame : ℕ
  pub task : t' ≡ record t { mapped_pt = t'.mapped_pt; mapped_page = insert a frame t.mapped_page }

pub get-AddsPage :
    (a : ℕ) (t t' : Sel4Task) (adds : AddsPage a t t') (b : ℕ)
    → get t'.mapped_page b ≡ (if a == b then some adds.frame else get t.mapped_page b)
get-AddsPage a t t' adds b =
    ap (λ x. get x.mapped_page b) adds.task ∙ get-insert a adds.frame t.mapped_page b

pub none-MapsRange : (a : ℕ) (t : Sel4Task) → MapsRange a 0 t t
none-MapsRange a t = record {
  task = refl;
  inside = λ b h l e. absurd (omega arith);
  kept = λ b page e. e;
  outside = λ b h. refl;
}

-- A page that was there, and the range behind it.
skip-MapsRange :
    (a n page : ℕ) (t t' : Sel4Task)
    → a % 4096 ≡ 0
    → get t.mapped_page a ≡ some page
    → MapsRange (a + 4096) n t t'
    → MapsRange a (suc n) t t'
skip-MapsRange a n page t t' aligned e r = record {
  task = r.task;
  inside = λ b h l z. elim (Bool-cases (a == b)) [
    | inl here ↦
        (page, r.kept b page (subst (λ x. get t.mapped_page x ≡ some page) ((==_iff a b).0 here) e))
    | inr other ↦ r.inside b (ground arith) (omega arith) z
  ];
  kept = r.kept;
  outside = λ b h. r.outside b (omega arith);
}

-- A page that is mapped anew, and the range behind it.
pub add-MapsRange :
    (a n : ℕ) (t t₁ t' : Sel4Task)
    → a % 4096 ≡ 0
    → get t.mapped_page a ≡ none
    → AddsPage a t t₁
    → MapsRange (a + 4096) n t₁ t'
    → MapsRange a (suc n) t t'
add-MapsRange a n t t₁ t' aligned free adds r = record {
  task =
      r.task
      ∙ ap (λ (x : Sel4Task). record x { mapped_pt = t'.mapped_pt; mapped_page = t'.mapped_page })
          adds.task;
  inside = λ b h l z. elim (Bool-cases (a == b)) [
    | inl here ↦ (adds.frame, r.kept b adds.frame (get-AddsPage a t t₁ adds b ∙ rw here))
    | inr other ↦ r.inside b (ground arith) (omega arith) z
  ];
  kept = λ b page e. r.kept b page (get-AddsPage a t t₁ adds b ∙ still b page e);
  outside = λ b h. r.outside b (omega arith) ∙ get-AddsPage a t t₁ adds b ∙ rw (away b h);
}
  where
    still :
        (b page : ℕ)
        → get t.mapped_page b ≡ some page
        → (if a == b then some adds.frame else get t.mapped_page b) ≡ some page
    still b page e = elim (Bool-cases (a == b)) [
      | inl here ↦
          let gone : get t.mapped_page b ≡ none =
            subst (λ x. get t.mapped_page x ≡ none) ((==_iff a b).0 here) free in
          cc
      | inr other ↦ rw other e
    ]

    away : (b : ℕ) → (b < a) ⊎ (a + suc n * 4096 ≤ b) → (a == b) ≡ false
    away b h = ground arith

module _ (k : Kernel) (laws : MapLaws k) (E : Type 0) where
  -- A fresh page is mapped at an aligned address that is not mapped.
  pub map_new_page_lem :
      (j a : ℕ) (c : Context k)
      → a % 4096 ≡ 0
      → a < laws.user_top
      → get c.task.mapped_page a ≡ none
      → IsConsistent k laws c
      → Budget k laws (per_page k + j) c.machine
      → (c' : Context k) × (map_new_page {k = k} {E = E} a c ≡ (c', ok tt))
        × AddsPage a c.task c'.task
        × IsConsistent k laws c'
        × Budget k laws j c'.machine
  unfolding map_new_page
  map_new_page_lem j a c aligned user free before budget =
      let (m₁, e₁, budget₁, made) =
        allocate_lem k laws E (k.num_levels + j) c.task.vspace c.machine k.granule
          (Budget-mono k laws _ (per_page k + j) c.machine (omega arith) budget) in
      let (c', e, maps, after, left) =
        map_page_lem k laws E j a c.machine.allocator.next (record c { machine = m₁ }) aligned user
          (omega (arith, made.next)) made.made free
          (Allocates-IsConsistent k laws E k.granule c m₁ made before) budget₁ in
      (
        c',
        rw (e₁, e) refl,
        record { frame = c.machine.allocator.next; task = maps.task },
        after,
        left,
      )

  -- The loop of `sys_mmap` over a range: it succeeds while slots and memory last.
  pub map_missing_pages_lem :
      (n j a : ℕ) (c : Context k)
      → a % 4096 ≡ 0
      → a + n * 4096 ≤ laws.user_top
      → IsConsistent k laws c
      → Budget k laws (n * per_page k + j) c.machine
      → (c' : Context k) × (map_missing_pages {k = k} {E = E} (steps 4096 a n) c ≡ (c', ok tt))
        × MapsRange a n c.task c'.task
        × IsConsistent k laws c'
        × Budget k laws j c'.machine
  unfolding map_missing_pages map_missing_page
  map_missing_pages_lem zero j a c aligned user before budget = (
    c,
    refl,
    none-MapsRange a c.task,
    before,
    (Budget-mono k laws _ _ c.machine (omega arith) budget),
  )
  map_missing_pages_lem (suc n) j a c aligned user before budget =
      elim (Option-cases (get c.task.mapped_page a)) [
        | inr (page, there) ↦
            let (c', e, range, after, left) =
              map_missing_pages_lem n j (a + 4096) c (omega arith) (omega arith) before (
                Budget-mono k laws (n * per_page k + j) (suc n * per_page k + j) c.machine
                  (omega arith) budget) in
            (
              c',
              rw (there, map_missing_page) e,
              skip-MapsRange a n page c.task c'.task aligned there range,
              after,
              left,
            )
        | inl free ↦
            let (c₁, e₁, adds, between, budget₁) =
              map_new_page_lem (n * per_page k + j) a c aligned (omega arith) free before
                (Budget-mono k laws _ _ c.machine (omega arith) budget) in
            let (c', e, range, after, left) =
              map_missing_pages_lem n j (a + 4096) c₁ (omega arith) (omega arith) between budget₁ in
            (
              c',
              rw (free, map_missing_page, e₁) e,
              add-MapsRange a n c.task c₁.task c'.task aligned free adds range,
              after,
              left,
            )
      ]

  -- The loop of `brk` over a range where nothing is mapped: it is the loop of `sys_mmap`.
  pub map_new_pages_lem :
      (n j a : ℕ) (c : Context k)
      → a % 4096 ≡ 0
      → a + n * 4096 ≤ laws.user_top
      → ((b : ℕ) → a ≤ b → b < a + n * 4096 → get c.task.mapped_page b ≡ none)
      → IsConsistent k laws c
      → Budget k laws (n * per_page k + j) c.machine
      → (c' : Context k) × (map_new_pages {k = k} {E = E} (steps 4096 a n) c ≡ (c', ok tt))
        × MapsRange a n c.task c'.task
        × IsConsistent k laws c'
        × Budget k laws j c'.machine
  unfolding map_new_pages
  map_new_pages_lem zero j a c aligned user fresh before budget = (
    c,
    refl,
    none-MapsRange a c.task,
    before,
    (Budget-mono k laws _ _ c.machine (omega arith) budget),
  )
  map_new_pages_lem (suc n) j a c aligned user fresh before budget =
      let free : get c.task.mapped_page a ≡ none = fresh a (omega arith) (omega arith) in
      let (c₁, e₁, adds, between, budget₁) =
        map_new_page_lem (n * per_page k + j) a c aligned (omega arith) free before
          (Budget-mono k laws _ _ c.machine (omega arith) budget) in
      let (c', e, range, after, left) =
        map_new_pages_lem n j (a + 4096) c₁ (omega arith) (omega arith)
          (λ b h l.
            get-AddsPage a c.task c₁.task adds b
            ∙ rw (==_false a b (omega arith)) (fresh b (omega arith) (omega arith)))
          between budget₁ in
      (c', rw e₁ e, add-MapsRange a n c.task c₁.task c'.task aligned free adds range, after, left)
