-- ===== src/KernelThread/Task/FreeArea.antt =====
-- `Sel4Task::find_free_area` of crates/kernel-thread/src/task.rs.
use rust_root_task_demo_mi_d.Prelude.{
  ℕ, ◌+◌, ◌^◌, ◌≤◌, ◌<◌, ◌≡◌, refl, sym, subst, false, ◌⊎◌, inl, inr, max, [], ◌∷◌, some, arith,
  wrap64, leb, All, Bool-cases, leb→le,
}
use rust_root_task_demo_mi_d.BTree.{BTreeMap}
use rust_root_task_demo_mi_d.KernelThread.Task.{
  Sel4Task, page_size, uspace_base, free_from, find_free_area,
}

-- Mapped pages in order, none overlapping the next, between `lo` and `top`.
abbrev pub Pages : ℕ → ℕ → BTreeMap ℕ → Type 0
Pages lo top [] = Unit {0}
Pages lo top ((vaddr, _) ∷ rest) =
    (lo ≤ vaddr) × (vaddr + page_size ≤ top) × Pages (vaddr + page_size) top rest

-- An area of `size` bytes from `a` meets none of the pages.
abbrev pub IsFree : ℕ → ℕ → BTreeMap ℕ → Type 0
IsFree a size = All (λ (p : ℕ × ℕ). (a + size ≤ p.0) ⊎ (p.0 + page_size ≤ a))

below-IsFree :
    (m : BTreeMap ℕ) (lo top a size : ℕ) → Pages lo top m → a + size ≤ lo → IsFree a size m
below-IsFree [] lo top a size p h = tt
below-IsFree ((v, c) ∷ m) lo top a size p h =
    (inl (omega arith), below-IsFree m (v + page_size) top a size p.2 (omega arith))

-- Past the pages that were skipped the search never falls back.
le-free_from :
    (m : BTreeMap ℕ) (lo top size : ℕ) → Pages lo top m → top < 2 ^ 64 → lo ≤ free_from m lo size
unfolding free_from
le-free_from [] lo top size p h = omega arith
le-free_from ((v, c) ∷ m) lo top size p h =
    ground (arith, le-free_from m (v + page_size) top size p.2 h)

free_from_fits :
    (m : BTreeMap ℕ) (v c last size : ℕ)
    → last + size < 2 ^ 64
    → last + size ≤ v
    → free_from ((v, c) ∷ m) last size ≡ last
unfolding free_from
free_from_fits m v c last size h k = ground arith

free_from_next :
    (m : BTreeMap ℕ) (v c last size : ℕ)
    → last + size < 2 ^ 64
    → v + page_size < 2 ^ 64
    → v < last + size
    → free_from ((v, c) ∷ m) last size ≡ free_from m (v + page_size) size
unfolding free_from
free_from_next m v c last size h k l =
    let same : wrap64 (v + page_size) ≡ v + page_size = omega arith in
    let fails : leb (wrap64 (last + size)) v ≡ false = ground arith in rw (fails, same)

free_from-IsFree :
    (m : BTreeMap ℕ) (lo top last size : ℕ)
    → Pages lo top m
    → top + size < 2 ^ 64
    → last + size < 2 ^ 64
    → IsFree (free_from m last size) size m
free_from-IsFree [] lo top last size p h k = tt
free_from-IsFree ((v, c) ∷ m) lo top last size p h k = elim (Bool-cases (leb (last + size) v)) [
  | inl fits ↦
      let below : last + size ≤ v = leb→le _ _ fits in
      subst (λ a. IsFree a size ((v, c) ∷ m)) (sym (free_from_fits m v c last size k below))
        (inl below, below-IsFree m (v + page_size) top last size p.2 (omega arith))
  | inr past ↦
      subst (λ a. IsFree a size ((v, c) ∷ m))
        (sym (free_from_next m v c last size k (omega arith) (ground arith)))
        (
          inr (le-free_from m (v + page_size) top size p.2 (omega arith)),
          free_from-IsFree m (v + page_size) top (v + page_size) size p.2 h (omega arith),
        )
]

-- The area that is found meets no mapped page, where the pages lie in order below `top` and no
-- sum passes the end of the address space.
pub find_free_area-IsFree :
    (task : Sel4Task) (top start size : ℕ)
    → Pages 0 top task.mapped_page
    → top + size < 2 ^ 64
    → max uspace_base start + size < 2 ^ 64
    → (a : ℕ) × (find_free_area task start size ≡ some a) × IsFree a size task.mapped_page
unfolding find_free_area
find_free_area-IsFree task top start size p h k = (
  free_from task.mapped_page (max uspace_base start) size,
  refl,
  free_from-IsFree task.mapped_page 0 top (max uspace_base start) size p h k,
)

-- The end of the pages is an upper bound of where the search continues.
free_from-le :
    (m : BTreeMap ℕ) (lo top last size bound : ℕ)
    → Pages lo top m
    → top + size < 2 ^ 64
    → last + size < 2 ^ 64
    → last ≤ bound
    → top ≤ bound
    → free_from m last size ≤ bound
unfolding free_from
free_from-le [] lo top last size bound p h k l t = l
free_from-le ((v, c) ∷ m) lo top last size bound p h k l t =
    ground (arith, free_from-le m (v + page_size) top (v + page_size) size bound p.2 h)

-- Once the first page is passed, the search stays within the end of the pages.
passed-le :
    (m : BTreeMap ℕ) (v c top last size : ℕ)
    → Pages 0 top ((v, c) ∷ m)
    → top < last
    → 0 < size
    → last + size < 2 ^ 64
    → free_from ((v, c) ∷ m) last size ≤ top
passed-le m v c top last size p h pos k =
    rw (free_from_next m v c last size k (omega arith) (omega arith)) (
      free_from-le m (v + page_size) top (v + page_size) size top p.2 (omega arith) (omega arith)
        (omega arith) (omega arith))

-- The hint is lost once a page below it is passed: where some page is mapped and all pages end at
-- or before `top`, below `start`, the area of a mapping of one byte or more lies below `start`.
pub find_free_area_below_start :
    (task : Sel4Task) (v c top start size : ℕ) (rest : BTreeMap ℕ)
    → task.mapped_page ≡ (v, c) ∷ rest
    → Pages 0 top task.mapped_page
    → top < start
    → 0 < size
    → uspace_base ≤ start
    → start + size < 2 ^ 64
    → (a : ℕ) × (find_free_area task start size ≡ some a) × (a < start)
unfolding find_free_area
find_free_area_below_start task v c top start size rest e p h pos base k = (
  free_from task.mapped_page (max uspace_base start) size,
  refl,
  let start_max : max uspace_base start ≡ start = omega arith in
      let pages : Pages 0 top ((v, c) ∷ rest) = subst (Pages 0 top) e p in
      rw (e, start_max) (omega (arith, passed-le rest v c top start size pages h pos k)),
)
