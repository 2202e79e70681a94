-- ===== src/KernelThread/Task/Tables.antt =====
-- The rounds of `Sel4Task::map_page` of crates/kernel-thread/src/task.rs, over the kernel's documented behaviour.
use rust_root_task_demo_mi_d.Prelude.{
  ℕ, zero, suc, ◌+◌, ◌%◌, ◌≤◌, ◌<◌, ◌≡◌, ◌≢◌, refl, sym, ap, ◌∙◌, [], ◌∷◌, ◌++◌, none, some, arith,
  ok,
}
use rust_root_task_demo_mi_d.BTree.{insert}
use rust_root_task_demo_mi_d.Sel4.{Kernel, MapLaws}
use rust_root_task_demo_mi_d.Alloc.{Machine, ObjectAllocator, allocate_and_retyped_fixed_sized}
use rust_root_task_demo_mi_d.Alloc.Steps.{
  Room, Room-mono, Room-LeavesSlots, allocate_and_retype_lem,
}
use rust_root_task_demo_mi_d.KernelThread.Task.{Sel4Task, Context, add_table, mapped, map_rounds}

module _ (k : Kernel) (laws : MapLaws k) where
  open laws use {missing, page_at, Holds}

  -- Slots and memory for `n` more objects.
  abbrev pub Budget : ℕ → Machine k → Type 0
  Budget n m = Room k laws.retyping n m

  pub Budget-mono : (n m : ℕ) (x : Machine k) → n ≤ m → Budget m x → Budget n x
  Budget-mono = Room-mono k laws.retyping

  -- The kernel's page tables of an address space are those of another state, but for tables that
  -- were added.
  pub record SamePages (v : ℕ) (s s' : k.State) : Type 0 where
    pub pages : (b : ℕ) → page_at s' v b ≡ page_at s v b
    pub shallower : (b : ℕ) → missing s' v b ≤ missing s v b

  -- Capabilities of slots below `next`, but for one of them, are as they were.
  abbrev pub HoldsBelow : ℕ → ℕ → k.State → k.State → Type 0
  HoldsBelow next cap s s' =
      (i : ℕ) (b : k.Blueprint) → i < next → i ≢ cap → Holds s i b → Holds s' i b

  -- A page that is not mapped gets mapped, and nothing else changes but for added tables.
  pub record MapsPage (a page : ℕ) (c c' : Context k) : Type 0 where
    pub task : c'.task ≡ record (c.task) {
      mapped_pt = c'.task.mapped_pt;
      mapped_page = insert a page c.task.mapped_page;
    }
    pub here : page_at c'.machine.kernel c.task.vspace a ≡ some page
    pub elsewhere :
        (b : ℕ)
        → a ≢ b
        → page_at c'.machine.kernel c.task.vspace b ≡ page_at c.machine.kernel c.task.vspace b
    pub shallower :
        (b : ℕ)
        → missing c'.machine.kernel c.task.vspace b ≤ missing c.machine.kernel c.task.vspace b
    pub holds : HoldsBelow c.machine.allocator.next page c.machine.kernel c'.machine.kernel
    pub next : c.machine.allocator.next ≤ c'.machine.allocator.next

module _ (k : Kernel) (laws : MapLaws k) (E : Type 0) where
  open laws use {missing, page_at, Holds}

  -- What an allocation leaves: the mappings, and every capability.
  pub record Allocates (v : ℕ) (b : k.Blueprint) (m m' : Machine k) : Type 0 where
    pub next : m'.allocator.next ≡ suc m.allocator.next
    pub made : Holds m'.kernel m.allocator.next b
    pub holds : (i : ℕ) (c : k.Blueprint) → Holds m.kernel i c → Holds m'.kernel i c
    pub pages : (a : ℕ) → page_at m'.kernel v a ≡ page_at m.kernel v a
    pub missing : (a : ℕ) → laws.missing m'.kernel v a ≡ laws.missing m.kernel v a

  -- One object is allocated, and no mapping changes.
  pub allocate_lem :
      (n v : ℕ) (m : Machine k) (b : k.Blueprint)
      → Budget k laws (suc n) m
      → (m' : Machine k) × (allocate_and_retyped_fixed_sized {k = k} {E = E} b m
          ≡ (m', ok m.allocator.next))
        × Budget k laws n m'
        × Allocates v b m m'
  unfolding allocate_and_retyped_fixed_sized
  allocate_lem n v m b budget =
      let (m', e, allocator, room, (same, holds), made) =
        allocate_and_retype_lem k laws.retyping
          (λ s.
            ((a : ℕ)
              → (page_at s v a ≡ page_at m.kernel v a) × (missing s v a ≡ missing m.kernel v a))
            × ((i : ℕ) (c : k.Blueprint) → Holds m.kernel i c → Holds s i c))
          (λ s ut x path slot p. (
            λ a. (
              (laws.retype-mappings s ut x path slot v a).0 ∙ (p.0 a).0,
              (laws.retype-mappings s ut x path slot v a).1 ∙ (p.0 a).1,
            ),
            λ i c h. laws.retype-holds s ut x path slot i c (p.1 i c h),
          ))
          E n m b budget (λ a. (refl, refl), λ i c h. h) in
      (
        m',
        e,
        room,
        record {
          next = ap (λ (a : ObjectAllocator). a.next) allocator;
          made = made;
          holds = holds;
          pages = λ a. (same a).0;
          missing = λ a. (same a).1;
        },
      )

  -- A missing table is supplied from one object.
  add_table_lem :
      (n j a : ℕ) (c : Context k)
      → a % 4096 ≡ 0
      → missing c.machine.kernel c.task.vspace a ≡ suc n
      → suc n < k.num_levels
      → Budget k laws (suc j) c.machine
      → (c' : Context k) × (add_table {k = k} {E = E} a c ≡ (c', ok tt))
        × (c'.task ≡ record (c.task) { mapped_pt = c'.task.mapped_pt })
        × Budget k laws j c'.machine
        × (missing c'.machine.kernel c.task.vspace a ≡ n)
        × SamePages k laws c.task.vspace c.machine.kernel c'.machine.kernel
        × HoldsBelow k laws c.machine.allocator.next c.machine.allocator.next c.machine.kernel
            c'.machine.kernel
        × (c'.machine.allocator.next ≡ suc c.machine.allocator.next)
  unfolding add_table
  add_table_lem n j a c aligned h few budget =
      let (m₁, e₁, budget₁, made) = allocate_lem j c.task.vspace c.machine k.page_table budget in
      let (s₂, e₂, left, pages, shallower, leaves) =
        laws.pt_map-missing m₁.kernel n c.machine.allocator.next c.task.vspace a made.made aligned
          (made.missing a ∙ h) few in
      (
        record {
          machine = record m₁ { kernel = s₂ };
          task = record (c.task) { mapped_pt = c.task.mapped_pt ++ c.machine.allocator.next ∷ [] };
        },
        rw (e₁, e₂) refl,
        refl,
        Room-LeavesSlots k laws.retyping j c.machine.allocator.next m₁ s₂ leaves budget₁,
        left,
        record {
          pages = λ b. pages b ∙ made.pages b;
          shallower = λ b. omega (arith, shallower b, made.missing b);
        },
        λ i b below other holds. leaves.holds i b other (made.holds i b holds),
        made.next,
      )

  -- Mapping a page after a table was added maps it from the start.
  after_table :
      (a page : ℕ) (c c₁ c₂ : Context k)
      → c₁.task ≡ record (c.task) { mapped_pt = c₁.task.mapped_pt }
      → SamePages k laws c.task.vspace c.machine.kernel c₁.machine.kernel
      → HoldsBelow k laws c.machine.allocator.next c.machine.allocator.next c.machine.kernel
          c₁.machine.kernel
      → c₁.machine.allocator.next ≡ suc c.machine.allocator.next
      → MapsPage k laws a page c₁ c₂
      → MapsPage k laws a page c c₂
  after_table a page c c₁ c₂ task₁ same holds next maps = record {
    task =
        maps.task
        ∙ ap
            (λ (t : Sel4Task). record t {
              mapped_pt = c₂.task.mapped_pt;
              mapped_page = insert a page t.mapped_page;
            })
            task₁;
    here = sym (ap (λ v. page_at c₂.machine.kernel v a) v₁) ∙ maps.here;
    elsewhere = λ b ne.
        sym (ap (λ v. page_at c₂.machine.kernel v b) v₁)
        ∙ maps.elsewhere b ne
        ∙ ap (λ v. page_at c₁.machine.kernel v b) v₁
        ∙ same.pages b;
    shallower = λ b. omega (
      arith,
      maps.shallower b,
      same.shallower b,
      ap (λ v. missing c₁.machine.kernel v b) v₁,
      ap (λ v. missing c₂.machine.kernel v b) v₁,
    );
    holds = λ i b below other h.
        maps.holds i b (omega (arith, next)) other (holds i b below (omega arith) h);
    next = omega (arith, next, maps.next);
  }
    where
      v₁ : c₁.task.vspace ≡ c.task.vspace
      v₁ = ap (λ t. t.vspace) task₁

  -- With more rounds than tables are missing, the rounds map the page, by a capability of a slot
  -- that was handed out.
  pub map_rounds_lem :
      (n rounds j a page : ℕ) (c : Context k)
      → missing c.machine.kernel c.task.vspace a ≡ n
      → n < rounds
      → n < k.num_levels
      → page_at c.machine.kernel c.task.vspace a ≡ none
      → a % 4096 ≡ 0
      → a < laws.user_top
      → page < c.machine.allocator.next
      → Holds c.machine.kernel page k.granule
      → Budget k laws (n + j) c.machine
      → (c' : Context k) × (map_rounds {k = k} {E = E} rounds a page c ≡ (c', ok tt))
        × MapsPage k laws a page c c'
        × Budget k laws j c'.machine
  unfolding map_rounds mapped
  map_rounds_lem n zero j a page c h lt few free aligned user old held budget = elim lt [ ]
  map_rounds_lem zero (suc rounds) j a page c h lt few free aligned user old held budget =
      let (s', e, here, elsewhere, same, leaves) =
        laws.frame_map-free c.machine.kernel page c.task.vspace a k.all_rights held aligned user h
          free in
      (
        record {
          machine = record (c.machine) { kernel = s' };
          task = record (c.task) { mapped_page = insert a page c.task.mapped_page };
        },
        rw e refl,
        record {
          task = refl;
          here = here;
          elsewhere = elsewhere;
          shallower = λ b. omega (arith, same b);
          holds = λ i b below other p. leaves.holds i b other p;
          next = omega arith;
        },
        Room-LeavesSlots k laws.retyping j page c.machine s' leaves
            (Budget-mono k laws j (0 + j) c.machine (omega arith) budget),
      )
  map_rounds_lem (suc n) (suc rounds) j a page c h lt few free aligned user old held budget =
      let (x, e, lookup) =
        laws.frame_map-missing c.machine.kernel page c.task.vspace a k.all_rights held aligned
          (omega arith) (omega arith) in
      let (c₁, e₁, task₁, budget₁, left, same, holds, next) =
        add_table_lem n (n + j) a c aligned h few
          (Budget-mono k laws (suc (n + j)) (suc n + j) c.machine (omega arith) budget) in
      let v₁ : c₁.task.vspace ≡ c.task.vspace = ap (λ t. t.vspace) task₁ in
      let (c₂, e₂, maps, budget₂) =
        map_rounds_lem n rounds j a page c₁ (ap (λ v. missing c₁.machine.kernel v a) v₁ ∙ left)
          (omega arith) (omega arith)
          (ap (λ v. page_at c₁.machine.kernel v a) v₁ ∙ same.pages a ∙ free) aligned user
          (omega (arith, next)) (holds page k.granule old (omega arith) held) budget₁ in
      (
        c₂,
        rw (e, lookup, e₁, e₂) refl,
        after_table a page c c₁ c₂ task₁ same holds next maps,
        budget₂,
      )
