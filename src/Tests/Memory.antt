-- ===== src/Tests/Memory.antt =====
-- The address space of a task and the memory system calls, on the toy kernel.
use rust_root_task_demo_mi_d.Prelude.{
  ℕ, ◌≤◌, ◌<◌, ◌≡◌, refl, [], ◌∷◌, none, some, arith, ok, ◌==◌, ==_iff, Bool-cases, inl, inr, subst,
}
use rust_root_task_demo_mi_d.BTree.{get}
use rust_root_task_demo_mi_d.KernelThread.Task.{Sel4Task, Context, find_free_area, map_page}
use rust_root_task_demo_mi_d.KernelThread.Task.FreeArea.{
  IsFree, find_free_area-IsFree, find_free_area_below_start,
}
use rust_root_task_demo_mi_d.KernelThread.Task.Tables.{Budget, MapsPage}
use rust_root_task_demo_mi_d.KernelThread.Task.Mapping.{IsConsistent, map_page_lem}
use rust_root_task_demo_mi_d.KernelThread.Mm.{brk_task, mmap_start, mmap_task, unmap_task}
use rust_root_task_demo_mi_d.KernelThread.Mm.Ranges.{MapsRange}
use rust_root_task_demo_mi_d.KernelThread.Mm.Brk.{brk_task_grow}
use rust_root_task_demo_mi_d.KernelThread.Mm.Mmap.{mmap_task_lem}
use rust_root_task_demo_mi_d.KernelThread.Mm.Unmap.{UnmapsRange, unmap_task_lem}
use rust_root_task_demo_mi_d.Tests.ToyKernel.{toy, put, frame_at, toy_page_at}
use rust_root_task_demo_mi_d.Tests.ToyMapping.{
  toy_map_laws, toy_unmap_laws, toy_memory_addr, toy_flags,
}
use rust_root_task_demo_mi_d.Tests.Threads.{old_slots, empty_kernel, empty_kernel-Slots}

abbrev blank : Sel4Task
blank = record {
  pid = 0;
  id = 1;
  tcb = 40;
  cnode = 41;
  vspace = 42;
  mapped_pt = [];
  mapped_page = [];
  heap = 0x1_0000_0000;
  exit = none;
  clear_child_tid = none;
}

abbrev start : Context toy
start = record {
  machine = record {
    kernel = empty_kernel;
    allocator = record { next = 70; limit = 4096; ut = 1 };
  };
  task = blank;
}

start-Budget : (n : ℕ) → n ≤ 50 → Budget toy toy_map_laws n start.machine
start-Budget n h = record {
  left = omega arith;
  supplied = omega arith;
  slots = empty_kernel-Slots 70 (omega arith) (omega arith);
}

start-IsConsistent : IsConsistent toy toy_map_laws start
unfolding get
start-IsConsistent = record { synced = λ b. refl; shallow = λ b u. omega arith; rising = tt }

-- Pages at 0x1000 and 0x4000.
abbrev two_pages : Sel4Task
two_pages = record blank { mapped_page = (0x1000, 60) ∷ (0x4000, 61) ∷ [] }

find_free_area-IsFree_example :
    (a : ℕ) × (find_free_area two_pages 0x1000 0x1800 ≡ some a)
    × IsFree a 0x1800 two_pages.mapped_page
find_free_area-IsFree_example =
    find_free_area-IsFree two_pages 0x5000 0x1000 0x1800 (omega arith) (omega arith) (omega arith)

find_free_area_below_start_example :
    (a : ℕ) × (find_free_area two_pages 0x9000 0x1000 ≡ some a) × (a < 0x9000)
find_free_area_below_start_example =
    find_free_area_below_start two_pages 0x1000 60 0x5000 0x9000 0x1000 ((0x4000, 61) ∷ []) refl
      (omega arith) (omega arith) (omega arith) (omega arith) (omega arith)

map_page_example :
    (c' : Context toy) × (map_page {k = toy} {E = ⊥} 0x2000 61 start ≡ (c', ok tt))
    × MapsPage toy toy_map_laws 0x2000 61 start c'
    × IsConsistent toy toy_map_laws c'
    × Budget toy toy_map_laws 10 c'.machine
unfolding get
map_page_example =
    map_page_lem toy toy_map_laws ⊥ 10 0x2000 61 start refl (omega arith) (omega arith) refl refl
      start-IsConsistent (start-Budget 14 (omega arith))

brk_task_grow_example :
    (c' : Context toy) × (brk_task {k = toy} 0x1_0000_1800 start ≡ (c', ok 0))
    × (c'.task.heap ≡ 0x1_0000_1800)
    × MapsRange 0x1_0000_0000 2 blank (record (c'.task) { heap = 0x1_0000_0000 })
    × IsConsistent toy toy_map_laws c'
unfolding get
brk_task_grow_example =
    brk_task_grow toy toy_map_laws 0x1_0000_1800 start (omega arith) (omega arith) refl
      (omega arith) (λ b h l. refl) start-IsConsistent (start-Budget 10 (omega arith))

mmap_task_example :
    (c' : Context toy) × (mmap_task {k = toy} toy_memory_addr toy_flags 0x2800 0x1000 3 0x10 start
      ≡ (c', ok 0x2800))
    × MapsRange 0x2000 2 blank c'.task
    × IsConsistent toy toy_map_laws c'
unfolding mmap_start
mmap_task_example =
    mmap_task_lem toy toy_map_laws toy_memory_addr toy_flags 0x2800 0x1000 3 0x10 0x10 3 0x2800
      start refl refl refl (omega arith) (omega arith) refl start-IsConsistent
      (start-Budget 10 (omega arith))

abbrev with_pages : Context toy
with_pages = record {
  machine = record (start.machine) {
    kernel = record empty_kernel {
      slots = put (put old_slots 60 (frame_at 0x1000)) 61 (frame_at 0x4000);
      pages = put (put (λ a. none) 0x1000 (some 60)) 0x4000 (some 61);
    };
  };
  task = two_pages;
}

with_pages-synced : (b : ℕ) → toy_page_at with_pages.machine.kernel b ≡ get two_pages.mapped_page b
unfolding get
with_pages-synced b = elim (Bool-cases (0x1000 == b)) [
  | inl e ↦
      let same : 0x1000 ≡ b = (==_iff 0x1000 b).0 e in
      subst (λ i. toy_page_at with_pages.machine.kernel i ≡ get two_pages.mapped_page i) same refl
  | inr e ↦ elim (Bool-cases (0x4000 == b)) [
    | inl f ↦
        let same : 0x4000 ≡ b = (==_iff 0x4000 b).0 f in
        subst (λ i. toy_page_at with_pages.machine.kernel i ≡ get two_pages.mapped_page i) same refl
    | inr f ↦ rw (e, f)
  ]
]

with_pages-IsConsistent : IsConsistent toy toy_map_laws with_pages
with_pages-IsConsistent = record {
  synced = with_pages-synced;
  shallow = λ b u. omega arith;
  rising = (omega arith, (omega arith, tt));
}

unmap_task_example :
    (c' : Context toy) × (unmap_task {k = toy} toy_memory_addr toy_flags 0x1800 0x1000 with_pages
      ≡ (c', ok 0))
    × UnmapsRange 0x1000 2 two_pages c'.task
    × IsConsistent toy toy_map_laws c'
unmap_task_example =
    unmap_task_lem toy toy_map_laws toy_unmap_laws toy_memory_addr toy_flags 0x1800 0x1000
      with_pages (omega arith) with_pages-IsConsistent
