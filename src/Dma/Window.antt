-- ===== src/Dma/Window.antt =====
-- The allocations of a driver, crates/net-thread/src/virtio_impl.rs and
-- crates/blk-thread/src/virtio.rs, beside a bump allocator over the pages of the driver's task.
use rust_root_task_demo_mi_d.Prelude.{
  ℕ, ◌+◌, ◌*◌, ◌%◌, ◌≤◌, ◌<◌, ◌^◌, ◌≡◌, refl, sym, ap, ◌∙◌, subst, List, [], ◌∷◌, Option, none,
  some, All, arith, wrap64, ==_true, Outcome, ok, err, panic, Exec, pure, ◌>>=◌, Option-cases, inl,
  inr, continue_with,
}
use rust_root_task_demo_mi_d.BTree.{BTreeMap, get}
use rust_root_task_demo_mi_d.Ipc.{Ipc}
use rust_root_task_demo_mi_d.TaskHelper.{Sel4TaskHelper}
use rust_root_task_demo_mi_d.RootTask.{RootKernel, page_of}
use rust_root_task_demo_mi_d.RootTask.Translate.{AddressLaws}
use rust_root_task_demo_mi_d.Dma.{
  Transfer, Driver, CallError, no_reply, page_size, dma_addr_start, net_dma_addr, dma_alloc,
  dma_dealloc,
}
use rust_root_task_demo_mi_d.Dma.Paging.{IsServed, translate_lem, translate_unmapped}

-- How many pages a list of requests asks for.
abbrev pub total : List ℕ → ℕ
total [] = 0
total (n ∷ ns) = n + total ns

abbrev pub place : (ℕ → ℕ) → ℕ → Option ℕ → Option (List (ℕ × ℕ)) → Option (List (ℕ × ℕ))
place phys a none later = none
place phys a (some page) none = none
place phys a (some page) (some later) = some ((phys page, a) ∷ later)

-- A bump allocator over the pages of a task: each block starts where the last one ended, and is
-- known by the physical address of its first page.
unfoldable pub bump : BTreeMap ℕ → (ℕ → ℕ) → ℕ → List ℕ → Option (List (ℕ × ℕ))
bump pages phys a [] = some []
bump pages phys a (n ∷ ns) = place phys a (get pages a) (bump pages phys (a + n * page_size) ns)

-- The blocks lie in order between two addresses, and none meets another.
abbrev pub Spaced : ℕ → ℕ → List ℕ → List (ℕ × ℕ) → Type 0
Spaced lo hi [] [] = lo ≤ hi
Spaced lo hi [] (_ ∷ _) = ⊥
Spaced lo hi (_ ∷ _) [] = ⊥
Spaced lo hi (n ∷ ns) ((_, vaddr) ∷ blocks) =
    (lo ≤ vaddr) × (vaddr + n * page_size ≤ hi) × Spaced (vaddr + n * page_size) hi ns blocks

-- What a driver gets where the root task stops.
abbrev pub outcome_of : Option (List (ℕ × ℕ)) → Outcome CallError (List (ℕ × ℕ))
outcome_of none = err no_reply
outcome_of (some blocks) = ok blocks

-- Every page of a range is mapped.
abbrev pub AllMapped : BTreeMap ℕ → ℕ → ℕ → Type 0
AllMapped pages lo hi =
    (a : ℕ) → lo ≤ a → a < hi → a % page_size ≡ 0 → (page : ℕ) × (get pages a ≡ some page)

bump_window :
    (pages : BTreeMap ℕ) (phys : ℕ → ℕ) (ns : List ℕ) (a hi : ℕ)
    → a % 4096 ≡ 0
    → All (λ n. 0 < n) ns
    → a + total ns * 4096 ≤ hi
    → AllMapped pages a hi
    → (blocks : List (ℕ × ℕ)) × (bump pages phys a ns ≡ some blocks) × Spaced a hi ns blocks
unfolding bump
bump_window pages phys [] a hi aligned some_pages fits mapped = ([], refl, omega arith)
bump_window pages phys (n ∷ ns) a hi aligned some_pages fits mapped =
    let (page, e) = mapped a (omega arith) (omega arith) aligned in
    let (blocks, rest, spaced) =
      bump_window pages phys ns (a + n * 4096) hi (omega arith) some_pages.1 (omega arith)
        (λ b l u z. mapped b (omega arith) u z) in
    ((phys page, a) ∷ blocks, rw (e, rest) refl, (omega arith, omega arith, spaced))

module _ (ipc : Ipc) (k : RootKernel) (t : Transfer) (badge : ℕ) where
  -- A run of allocations.
  unfoldable pub dma_allocs : List ℕ → Exec (Driver ipc k) CallError (List (ℕ × ℕ))
  dma_allocs [] = pure []
  dma_allocs (n ∷ ns) = do
    block ← dma_alloc ipc k t badge n
    blocks ← dma_allocs ns
    pure (block ∷ blocks)

  module _ (laws : AddressLaws k) (task : Sel4TaskHelper) where
    -- An allocation at a page of the driver's task.
    pub dma_alloc_lem :
        (n page : ℕ) (d : Driver ipc k)
        → IsServed ipc k badge task d
        → d.dma_addr % 4096 ≡ 0
        → get task.mapped_page d.dma_addr ≡ some page
        → (d' : Driver ipc k) × (dma_alloc ipc k t badge n d
            ≡ (d', ok (laws.phys page, d.dma_addr)))
          × (d'.dma_addr ≡ wrap64 (d.dma_addr + n * 4096))
          × IsServed ipc k badge task d'
    unfolding dma_alloc
    dma_alloc_lem n page d served aligned mapped =
        let here : page_of d.dma_addr ≡ d.dma_addr = omega arith in
        let (d', e, same, served') =
          translate_lem ipc k laws t badge task d.dma_addr page
            (record d { dma_addr = wrap64 (d.dma_addr + n * 4096) })
            (record { own = served.own; other = served.other; known = served.known })
            (subst (λ a. get task.mapped_page a ≡ some page) (sym here) mapped) in
        let p : wrap64 (laws.phys page + d.dma_addr % 4096) ≡ laws.phys page =
          omega (arith, laws.phys_word page) in
        (d', rw (e, p) refl, same, served')

    dma_alloc_unmapped :
        (n : ℕ) (d : Driver ipc k)
        → IsServed ipc k badge task d
        → d.dma_addr % 4096 ≡ 0
        → get task.mapped_page d.dma_addr ≡ none
        → (dma_alloc ipc k t badge n d).1 ≡ err no_reply
    unfolding dma_alloc
    dma_alloc_unmapped n d served aligned missing =
        let here : page_of d.dma_addr ≡ d.dma_addr = omega arith in
        let e =
          translate_unmapped ipc k laws t badge task d.dma_addr
            (record d { dma_addr = wrap64 (d.dma_addr + n * 4096) })
            (record { own = served.own; other = served.other; known = served.known })
            (subst (λ a. get task.mapped_page a ≡ none) (sym here) missing) in
        ground (arith, e)

    -- What a block in front makes of the rest of a run.
    block_first :
        (page a : ℕ) (p : Driver ipc k × Outcome CallError (List (ℕ × ℕ)))
        (later : Option (List (ℕ × ℕ)))
        → p.1 ≡ outcome_of later
        → (continue_with (λ blocks. pure ((laws.phys page, a) ∷ blocks)) p).1
          ≡ outcome_of (place laws.phys a (some page) later)
    block_first page a (d, ok blocks) none e = cc
    block_first page a (d, ok blocks) (some later) e = ground arith
    block_first page a (d, err x) none e = e
    block_first page a (d, err x) (some later) e = cc
    block_first page a (d, panic) none e = cc
    block_first page a (d, panic) (some later) e = cc

    -- Any run of allocations of a driver, through its messages and the root task's answers, returns
    -- what the bump allocator returns on the pages of the driver's task, and gets no reply where
    -- that fails; the driver's addresses are page-aligned and do not pass the end of the address
    -- space.
    pub dma_allocs_refines :
        (ns : List ℕ) (d : Driver ipc k)
        → IsServed ipc k badge task d
        → d.dma_addr % 4096 ≡ 0
        → d.dma_addr + total ns * 4096 < 2 ^ 64
        → (dma_allocs ns d).1 ≡ outcome_of (bump task.mapped_page laws.phys d.dma_addr ns)
    unfolding dma_allocs bump
    dma_allocs_refines [] d served aligned fits = refl
    dma_allocs_refines (n ∷ ns) d served aligned fits =
        elim (Option-cases (get task.mapped_page d.dma_addr)) [
          | inl missing ↦
              let e = dma_alloc_unmapped n d served aligned missing in
              rw missing (ground (arith, e))
          | inr (page, mapped) ↦
              let (d', e, next, served') = dma_alloc_lem n page d served aligned mapped in
              let next' : d'.dma_addr ≡ d.dma_addr + n * 4096 = next ∙ omega arith in
              let rest : (dma_allocs ns d').1
                  ≡ outcome_of (bump task.mapped_page laws.phys (d.dma_addr + n * 4096) ns) =
                dma_allocs_refines ns d' served' (omega arith) (omega arith)
                ∙ ap (λ a. outcome_of (bump task.mapped_page laws.phys a ns)) next' in
              rw (e, mapped) (block_first page d.dma_addr (dma_allocs ns d') _ rest)
        ]

    -- The net thread's DMA memory, of which the root task maps 32 pages and the driver leaves the
    -- first out: every run of allocations of together 31 pages at most, each of a page or more,
    -- succeeds, and the blocks lie in order inside those pages, none meeting another.
    pub net_dma_window :
        (ns : List ℕ) (d : Driver ipc k)
        → IsServed ipc k badge task d
        → d.dma_addr ≡ net_dma_addr
        → AllMapped task.mapped_page dma_addr_start (dma_addr_start + 32 * 4096)
        → All (λ n. 0 < n) ns
        → total ns ≤ 31
        → (blocks : List (ℕ × ℕ)) × ((dma_allocs ns d).1 ≡ ok blocks)
          × Spaced net_dma_addr (dma_addr_start + 32 * 4096) ns blocks
    net_dma_window ns d served start mapped some_pages few =
        let (blocks, e, spaced) =
          bump_window task.mapped_page laws.phys ns net_dma_addr (dma_addr_start + 32 * 4096)
            (omega arith) some_pages (omega arith) (λ b l u z. mapped b (omega arith) u z) in
        (
          blocks,
          dma_allocs_refines ns d served (omega arith) (omega arith)
              ∙ ap (λ a. outcome_of (bump task.mapped_page laws.phys a ns)) start
              ∙ ap outcome_of e,
          spaced,
        )

    -- Freeing the block that was allocated last gives its addresses back, where the driver's task
    -- has the page at the next address.
    pub dma_round_trip :
        (n page : ℕ) (d : Driver ipc k)
        → IsServed ipc k badge task d
        → d.dma_addr % 4096 ≡ 0
        → get task.mapped_page d.dma_addr ≡ some page
        → (d' : Driver ipc k) × (((do
          block ← dma_alloc ipc k t badge n
          dma_dealloc ipc k t badge (block.0) (block.1) n)
              d)
            ≡ (d', ok 0))
          × (d'.dma_addr ≡ d.dma_addr)
          × IsServed ipc k badge task d'
    unfolding dma_dealloc
    dma_round_trip n page d served aligned mapped =
        let (d', e, next, served') = dma_alloc_lem n page d served aligned mapped in
        (
          record d' { dma_addr = d.dma_addr },
          rw (e, ==_true _ _ (sym next)) refl,
          refl,
          record { own = served'.own; other = served'.other; known = served'.known },
        )
