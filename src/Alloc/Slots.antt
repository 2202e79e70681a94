-- ===== src/Alloc/Slots.antt =====
-- The slots that `ObjectAllocator` (crates/common/src/obj_allocator.rs) hands out.
use rust_root_task_demo_mi_d.Prelude.{
  ℕ, zero, suc, ◌≤◌, ◌≡◌, refl, ap, ltb-ge, List, [], ◌∷◌, Exec, continue_with-pure, ok, panic,
  pure, ◌>>=◌,
}
use rust_root_task_demo_mi_d.Sel4.{Kernel, RetypeLaws}
use rust_root_task_demo_mi_d.Alloc.Steps.{Room, allocate_and_retype_lem}
use rust_root_task_demo_mi_d.Alloc.{Machine, next_slot, allocate_slot, allocate_and_retype}

-- `n` objects of one kind, one after the other.
pub allocate_objects : {k : Kernel} {E : Type 0} → k.Blueprint → ℕ → Exec (Machine k) E (List ℕ)
allocate_objects b zero = pure []
allocate_objects b (suc n) = do
  cap ← allocate_and_retype b
  caps ← allocate_objects b n
  pure (cap ∷ caps)

-- The numbers from `i` on, `n` of them.
abbrev pub count_up : ℕ → ℕ → List ℕ
count_up i zero = []
count_up i (suc n) = i ∷ count_up (suc i) n

module _ (k : Kernel) (laws : RetypeLaws k) (E : Type 0) where
  -- Where the slots to come are empty, the CNodes of the slots before them are there, and slots and
  -- memory last, allocating n objects succeeds and yields the next n slots in order, each once.
  pub allocate_objects-count_up :
      (n : ℕ) (m : Machine k) (b : k.Blueprint)
      → Room k laws n m
      → (allocate_objects {k = k} {E = E} b n m).1 ≡ ok (count_up m.allocator.next n)
  unfolding allocate_objects
  allocate_objects-count_up zero m b room = refl
  allocate_objects-count_up (suc n) m b room =
      let (m', e, allocator, room', _, _) =
        allocate_and_retype_lem k laws (λ s. Unit {0}) (λ s ut b path slot p. tt) E n m b room tt in
      let next : m'.allocator.next ≡ suc m.allocator.next = ap (λ a. a.next) allocator in
      let rest = allocate_objects-count_up n m' b room' in
      let ordered : (allocate_objects {k = k} {E = E} b n m').1
          ≡ ok (count_up (suc m.allocator.next) n) =
        rw (← next) rest in
      rw e (ap (λ p. p.1) (continue_with-pure (λ caps. m.allocator.next ∷ caps) _ ordered))

module _ (k : Kernel) (E : Type 0) where
  -- When no slot is left, an allocation panics and changes nothing.
  pub allocate_and_retype_exhausted :
      (m : Machine k) (b : k.Blueprint)
      → m.allocator.limit ≤ m.allocator.next
      → allocate_and_retype {k = k} {E = E} b m ≡ (m, panic)
  unfolding allocate_and_retype allocate_slot next_slot
  allocate_and_retype_exhausted m b h = rw (ltb-ge _ _ h)
