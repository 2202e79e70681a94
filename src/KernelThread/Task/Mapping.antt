-- ===== src/KernelThread/Task/Mapping.antt =====
-- `Sel4Task::map_page` of crates/kernel-thread/src/task.rs keeps a task's pages and the kernel's
-- mappings in step.
use rust_root_task_demo_mi_d.Prelude.{
  ℕ, ◌+◌, ◌%◌, ◌<◌, ◌≡◌, refl, sym, ap, ◌∙◌, subst, none, some, arith, ◌==◌, inl, inr, Bool-cases,
  ==_iff, ==_true, if◌then◌else◌, ok,
}
use rust_root_task_demo_mi_d.BTree.{get, insert, get-insert, insert-Rising, Rising}
use rust_root_task_demo_mi_d.Sel4.{Kernel, MapLaws}
use rust_root_task_demo_mi_d.Alloc.{Machine}
use rust_root_task_demo_mi_d.KernelThread.Task.Tables.{
  Allocates, Budget, Budget-mono, MapsPage, map_rounds_lem,
}
use rust_root_task_demo_mi_d.KernelThread.Task.{Context, map_page}

module _ (k : Kernel) (laws : MapLaws k) where
  open laws use {Supplied, missing, page_at}

  -- The task's pages are those that the kernel has mapped, in order, and no address of user space
  -- misses as many tables as `map_page` has rounds.
  pub record IsConsistent (c : Context k) : Type 0 where
    pub synced : (b : ℕ) → page_at c.machine.kernel c.task.vspace b ≡ get c.task.mapped_page b
    pub shallow :
        (b : ℕ) → b < laws.user_top → missing c.machine.kernel c.task.vspace b < k.num_levels
    pub rising : Rising 0 c.task.mapped_page

module _ (k : Kernel) (laws : MapLaws k) (E : Type 0) where
  open laws use {Supplied, missing, page_at}

  MapsPage-at :
      (a page : ℕ) (c c' : Context k) (b : ℕ)
      → IsConsistent k laws c
      → MapsPage k laws a page c c'
      → page_at c'.machine.kernel c.task.vspace b
        ≡ (if a == b then some page else get c.task.mapped_page b)
  MapsPage-at a page c c' b before maps = elim (Bool-cases (a == b)) [
    | inl e ↦ rw e (
        subst (λ x. page_at c'.machine.kernel c.task.vspace x ≡ some page) ((==_iff a b).0 e)
          maps.here)
    | inr e ↦ rw e (maps.elsewhere b (ground arith) ∙ before.synced b)
  ]

  MapsPage-IsConsistent :
      (a page : ℕ) (c c' : Context k)
      → IsConsistent k laws c
      → MapsPage k laws a page c c'
      → IsConsistent k laws c'
  MapsPage-IsConsistent a page c c' before maps = record {
    synced = λ b.
        ap (λ v. page_at c'.machine.kernel v b) vspace
        ∙ MapsPage-at a page c c' b before maps
        ∙ sym (ap (λ m. get m b) pages ∙ get-insert a page c.task.mapped_page b);
    shallow = λ b.
        omega (
          arith,
          maps.shallower b,
          before.shallow b,
          ap (λ v. missing c'.machine.kernel v b) vspace,
        );
    rising =
        subst (Rising 0) (sym pages)
          (insert-Rising a page c.task.mapped_page 0 (omega arith) before.rising);
  }
    where
      vspace : c'.task.vspace ≡ c.task.vspace
      vspace = ap (λ t. t.vspace) maps.task

      pages : c'.task.mapped_page ≡ insert a page c.task.mapped_page
      pages = ap (λ t. t.mapped_page) maps.task

  -- An allocation leaves the task's pages in step with the kernel.
  pub Allocates-IsConsistent :
      (b : k.Blueprint) (c : Context k) (m : Machine k)
      → Allocates k laws E c.task.vspace b c.machine m
      → IsConsistent k laws c
      → IsConsistent k laws (record c { machine = m })
  Allocates-IsConsistent b c m made before = record {
    synced = λ i. made.pages i ∙ before.synced i;
    shallow = λ i user. omega (arith, before.shallow i user, made.missing i);
    rising = before.rising;
  }

  -- A page that is not mapped gets mapped, at an aligned address of user space, by a frame that an
  -- earlier allocation made and that is mapped nowhere, while slots and memory for the page tables
  -- last; no other page changes, and the task's pages are still those of the kernel.
  pub map_page_lem :
      (j a page : ℕ) (c : Context k)
      → a % 4096 ≡ 0
      → a < laws.user_top
      → page < c.machine.allocator.next
      → laws.Holds c.machine.kernel page k.granule
      → get c.task.mapped_page a ≡ none
      → IsConsistent k laws c
      → Budget k laws (k.num_levels + j) c.machine
      → (c' : Context k) × (map_page {k = k} {E = E} a page c ≡ (c', ok tt))
        × MapsPage k laws a page c c'
        × IsConsistent k laws c'
        × Budget k laws j c'.machine
  unfolding map_page
  map_page_lem j a page c aligned user old held free before budget =
      let depth : ℕ = missing c.machine.kernel c.task.vspace a in
      let (c', e, maps, left) =
        map_rounds_lem k laws E depth k.num_levels j a page c refl (before.shallow a user)
          (before.shallow a user) (before.synced a ∙ free) aligned user old held
          (Budget-mono k laws (depth + j) (k.num_levels + j) c.machine
            (omega (arith, before.shallow a user)) budget) in
      (c', rw (==_true _ _ aligned) e, maps, MapsPage-IsConsistent a page c c' before maps, left)
