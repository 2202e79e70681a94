-- ===== src/Alloc.antt =====
-- `ObjectAllocator` of crates/common/src/obj_allocator.rs, over the state of the kernel.
pub mod Steps
pub mod Slots
pub mod CNodes
use rust_root_task_demo_mi_d.Prelude.{
  ℕ, suc, ◌/◌, ◌%◌, ◌^◌, ltb, ◌==◌, if◌then◌else◌, Exec, ok, panic, pure, unwrapped, ◌>>=◌, ◌>>◌,
}
use rust_root_task_demo_mi_d.Sel4.{Kernel, CNodePath, root_cnode, relative_bits}

-- `empty_slots` is the range from `next` to before `limit`.
pub record ObjectAllocator : Type 0 where
  pub next : ℕ
  pub limit : ℕ
  pub ut : ℕ

unfoldable pub empty : ObjectAllocator
empty = record { next = 0; limit = 0; ut = 0 }

-- The `init` method.
unfoldable pub init : ObjectAllocator → ℕ → ℕ → ℕ → ObjectAllocator
init a from to untyped = record { next = from; limit = to; ut = untyped }

-- The kernel, and the allocator that a static mutex guards.
pub record Machine (k : Kernel) : Type 0 where
  pub kernel : k.State
  pub allocator : ObjectAllocator

-- `raw & 0xfff` and `raw >> 12`.
abbrev pub slot_of : ℕ → ℕ
slot_of raw = raw % 2 ^ 12

abbrev pub cnode_of : ℕ → ℕ
cnode_of raw = raw / 2 ^ 12

module _ {k : Kernel} where
  -- A call of the kernel whose error is a panic (`unwrap`, `expect`).
  abbrev pub call : {E : Type 0} → Exec k.State k.Error (Unit {0}) → Exec (Machine k) E (Unit {0})
  call op m = let (s, r) = unwrapped op m.kernel in (record m { kernel = s }, r)

  -- `self.empty_slots.next().unwrap()`.
  unfoldable pub next_slot : {E : Type 0} → Exec (Machine k) E ℕ
  next_slot m =
      if ltb m.allocator.next m.allocator.limit
      then (
        record m { allocator = record (m.allocator) { next = suc m.allocator.next } },
        ok m.allocator.next,
      )
      else (m, panic)

  -- `self.ut.untyped_retype(blueprint, path, slot, 1).unwrap()`.
  unfoldable pub retype : {E : Type 0} → k.Blueprint → CNodePath → ℕ → Exec (Machine k) E (Unit {0})
  retype blueprint path slot m = call (k.untyped_retype m.allocator.ut blueprint path slot 1) m

  unfoldable pub allocate_normal_cap : {E : Type 0} → Exec (Machine k) E ℕ
  allocate_normal_cap = next_slot

  unfoldable pub allocate_variable_sized_origin : {E : Type 0} → k.Blueprint → Exec (Machine k) E ℕ
  allocate_variable_sized_origin blueprint = do
    slot_index ← next_slot
    retype blueprint root_cnode slot_index
    pure slot_index

  -- The second-level CNode is made when its first slot is taken.
  unfoldable pub new_cnode : {E : Type 0} → ℕ → Exec (Machine k) E (Unit {0})
  new_cnode raw =
      if slot_of raw == 0 then retype (k.cnode_blueprint 12) root_cnode (cnode_of raw) else pure tt

  -- What `allocate_slot` does with the slot that it took.
  abbrev pub placed : {E : Type 0} → ℕ → Exec (Machine k) E (ℕ × ℕ × ℕ)
  placed raw = do new_cnode raw; pure (slot_of raw, cnode_of raw, raw)

  unfoldable pub allocate_slot : {E : Type 0} → Exec (Machine k) E (ℕ × ℕ × ℕ)
  allocate_slot = do raw_slot_index ← next_slot; placed raw_slot_index

  -- What `allocate_and_retype` does with its slot.
  abbrev pub retyped : {E : Type 0} → k.Blueprint → ℕ × ℕ × ℕ → Exec (Machine k) E ℕ
  retyped blueprint (slot_index, cnode_index, raw_index) = do
    retype blueprint (relative_bits cnode_index 52) slot_index
    pure raw_index

  unfoldable pub allocate_and_retype : {E : Type 0} → k.Blueprint → Exec (Machine k) E ℕ
  allocate_and_retype blueprint = do slot ← allocate_slot; retyped blueprint slot

  -- The two typed forms only choose the blueprint of the object's type.
  unfoldable pub allocate_and_retyped_fixed_sized :
      {E : Type 0} → k.Blueprint → Exec (Machine k) E ℕ
  allocate_and_retyped_fixed_sized = allocate_and_retype

  unfoldable pub allocate_and_retyped_variable_sized :
      {E : Type 0} → (ℕ → k.Blueprint) → ℕ → Exec (Machine k) E ℕ
  allocate_and_retyped_variable_sized blueprint size_bits =
      allocate_and_retype (blueprint size_bits)
