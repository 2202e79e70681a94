-- ===== src/Tests/Drivers.antt =====
-- The DMA memory of a driver, and a root task that answers it.
use rust_root_task_demo_mi_d.Prelude.{
  ℕ, zero, suc, ◌+◌, ◌*◌, ◌%◌, ◌<◌, ◌^◌, ◌≡◌, refl, ap, List, [], ◌∷◌, some, arith, ok, get_elem?,
  length, Bool-cases, inl, inr, ◌==◌,
}
use rust_root_task_demo_mi_d.BTree.{BTreeMap, get}
use rust_root_task_demo_mi_d.TaskHelper.{Sel4TaskHelper}
use rust_root_task_demo_mi_d.RootTask.{RootKernel}
use rust_root_task_demo_mi_d.RootTask.Translate.{AddressLaws}
use rust_root_task_demo_mi_d.Dma.{Transfer, Driver, dma_addr_start, net_dma_addr}
use rust_root_task_demo_mi_d.Dma.Paging.{IsServed}
use rust_root_task_demo_mi_d.Dma.Window.{
  dma_allocs, bump, outcome_of, dma_allocs_refines, net_dma_window, AllMapped, Spaced,
}
use rust_root_task_demo_mi_d.Tests.Protocols.{words}

-- The first words of one buffer before the rest of another.
abbrev move : ℕ → List ℕ → List ℕ → List ℕ
move zero from to = to
move (suc n) [] to = to
move (suc n) (v ∷ from) [] = []
move (suc n) (v ∷ from) (x ∷ to) = v ∷ move n from to

move_at :
    (n i v : ℕ) (from to : List ℕ)
    → i < n
    → i < length to
    → get_elem? from i ≡ some v
    → get_elem? (move n from to) i ≡ some v
move_at zero i v from to h l e = elim h [ ]
move_at (suc n) i v [] to h l e = cc
move_at (suc n) i v (x ∷ from) [] h l e = elim l [ ]
move_at (suc n) zero v (x ∷ from) (y ∷ to) h l e = e
move_at (suc n) (suc i) v (x ∷ from) (y ∷ to) h l e =
    move_at n i v from to (omega arith) (omega arith) e

length-move : (n : ℕ) (from to : List ℕ) → length (move n from to) ≡ length to
length-move zero from to = refl
length-move (suc n) [] to = refl
length-move (suc n) (v ∷ from) [] = refl
length-move (suc n) (v ∷ from) (x ∷ to) = ap suc (length-move n from to)

abbrev moving : Transfer
moving = record { transfer = move; transfer_lem = move_at; length-transfer = length-move }

-- A frame stands at its number times the size of a page, as far as a word reaches.
abbrev frames : RootKernel
frames = record {
  State = Unit {0};
  Error = Unit {0};
  frame_get_address = λ page s. (s, ok ((page * 4096) % 2 ^ 64));
  irq_control_get = λ irq cnode slot s. (s, ok tt);
  call_irq = λ handler s. (s, ok tt);
}

abbrev frame_addresses : AddressLaws frames
frame_addresses = record {
  phys = λ page. (page * 4096) % 2 ^ 64;
  phys_word = λ page. omega arith;
  get_address = λ page s. (s, refl);
}

-- Frames for `n` pages from an address on.
abbrev pages_from : ℕ → ℕ → ℕ → BTreeMap ℕ
pages_from zero a page = []
pages_from (suc n) a page = (a, page) ∷ pages_from n (a + 4096) (page + 1)

abbrev net_task : Sel4TaskHelper
net_task = record {
  tcb = 1;
  cnode = 2;
  vspace = 3;
  mapped_pt = 0;
  mapped_page = pages_from 32 dma_addr_start 80;
  stack_bottom = 0x1_0000_0000;
}

abbrev net_driver : Driver words frames
net_driver = record {
  dma_addr = net_dma_addr;
  regs = 0 ∷ 0 ∷ [];
  root = record {
    kernel = tt;
    tasks = net_task ∷ [];
    common_irq_handler = 9;
    regs = 7 ∷ [];
    caps_or_badges = 0;
    replies = [];
  };
}

net_driver-IsServed : IsServed words frames 0 net_task net_driver
net_driver-IsServed = record { own = omega arith; other = omega arith; known = refl }

dma_allocs_example :
    (dma_allocs words frames moving 0 (2 ∷ 40 ∷ 1 ∷ []) net_driver).1
    ≡ outcome_of
        (bump (pages_from 32 dma_addr_start 80) frame_addresses.phys net_dma_addr (2 ∷ 40 ∷ 1 ∷ []))
dma_allocs_example =
    dma_allocs_refines words frames moving 0 frame_addresses net_task (2 ∷ 40 ∷ 1 ∷ []) net_driver
      net_driver-IsServed refl (omega arith)

pages_from-AllMapped :
    (n a page : ℕ) → a % 4096 ≡ 0 → AllMapped (pages_from n a page) a (a + n * 4096)
unfolding get
pages_from-AllMapped zero a page aligned b l h z = absurd (omega arith)
pages_from-AllMapped (suc n) a page aligned b l h z = elim (Bool-cases (a == b)) [
  | inl here ↦ (page, rw here refl)
  | inr other ↦
      let (found, e) =
        pages_from-AllMapped n (a + 4096) (page + 1) (omega arith) b (ground arith) (omega arith)
          z in
      (found, rw other e)
]

net_dma_example :
    (blocks : List (ℕ × ℕ)) × ((dma_allocs words frames moving 0 (1 ∷ 30 ∷ []) net_driver).1
      ≡ ok blocks)
    × Spaced net_dma_addr (dma_addr_start + 32 * 4096) (1 ∷ 30 ∷ []) blocks
net_dma_example =
    net_dma_window words frames moving 0 frame_addresses net_task (1 ∷ 30 ∷ []) net_driver
      net_driver-IsServed refl (pages_from-AllMapped 32 dma_addr_start 80 refl)
      (omega arith, (omega arith, tt)) (omega arith)
