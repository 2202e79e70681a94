-- ===== src/Alloc/Steps.antt =====
-- One call of `ObjectAllocator` (crates/common/src/obj_allocator.rs), while slots and memory last,
-- with what it keeps of the kernel's state.
use rust_root_task_demo_mi_d.Prelude.{
  ℕ, zero, suc, ◌-◌, ◌+◌, ◌*◌, ◌^◌, ◌<◌, ◌≤◌, ◌≡◌, refl, ap, subst, inl, inr, arith, lt→ltb, ◌==◌,
  Bool-cases, ok, ==_iff,
}
use rust_root_task_demo_mi_d.Sel4.{
  Kernel, RetypeLaws, LeavesSlots, CNodePath, root_cnode, relative_bits,
}
use rust_root_task_demo_mi_d.Alloc.{
  Machine, ObjectAllocator, slot_of, cnode_of, next_slot, retype, new_cnode, allocate_slot,
  allocate_and_retype,
}

-- The allocator after one slot has been taken.
abbrev pub advance : ObjectAllocator → ObjectAllocator
advance a = record a { next = suc a.next }

module _ (k : Kernel) (laws : RetypeLaws k) where
  open laws use {Supplied, HasCNode, Vacant}

  -- The slots from `next` to before `limit` are empty, and so are the root CNode's slots for the
  -- CNodes of slots from `first` on; the CNodes of the slots before `first` are there.
  pub record Slots (next first limit : ℕ) (s : k.State) : Type 0 where
    pub vacant :
        (raw : ℕ)
        → next ≤ raw
        → raw < limit
        → Vacant s (relative_bits (cnode_of raw) 52) (slot_of raw)
    pub roots : (c : ℕ) → first ≤ c * 2 ^ 12 → c * 2 ^ 12 < limit → Vacant s root_cnode c
    pub cnodes : (c : ℕ) → c * 2 ^ 12 < first → HasCNode s c

  -- Slots and memory for `n` more objects; an object may need a CNode beside it.
  pub record Room (n : ℕ) (m : Machine k) : Type 0 where
    pub left : m.allocator.next + n ≤ m.allocator.limit
    pub supplied : Supplied m.allocator.ut (n + n) m.kernel
    pub slots : Slots m.allocator.next m.allocator.next m.allocator.limit m.kernel

  Supplied-mono : (ut n d : ℕ) (s : k.State) → Supplied ut (d + n) s → Supplied ut n s
  Supplied-mono ut n zero s h = subst (λ i. Supplied ut i s) (omega arith) h
  Supplied-mono ut n (suc d) s h =
      Supplied-mono ut n d s
        (laws.fewer ut (d + n) s (subst (λ i. Supplied ut i s) (omega arith) h))

  pub Room-mono : (n m : ℕ) (x : Machine k) → n ≤ m → Room m x → Room n x
  Room-mono n m x h r = record {
    left = omega (arith, r.left);
    supplied =
        Supplied-mono x.allocator.ut (n + n) ((m + m) - (n + n)) x.kernel
          (subst (λ i. Supplied x.allocator.ut i x.kernel) (omega arith) r.supplied);
    slots = r.slots;
  }

  -- A call that leaves the slots leaves the room.
  pub Room-LeavesSlots :
      (n cap : ℕ) (m : Machine k) (s : k.State)
      → LeavesSlots k laws cap m.kernel s
      → Room n m
      → Room n (record m { kernel = s })
  Room-LeavesSlots n cap m s leaves r = record {
    left = r.left;
    supplied = leaves.supplied _ _ r.supplied;
    slots = record {
      vacant = λ raw l u. leaves.vacant _ _ (r.slots.vacant raw l u);
      roots = λ c l u. leaves.vacant _ _ (r.slots.roots c l u);
      cnodes = λ c l. leaves.cnodes c (r.slots.cnodes c l);
    };
  }

  -- Retyping keeps what `P` says of the kernel.
  abbrev pub Keeps : (k.State → Type 0) → Type 0
  Keeps P =
      (s : k.State) (ut : ℕ) (b : k.Blueprint) (path : CNodePath) (slot : ℕ)
      → P s
      → P (k.untyped_retype ut b path slot 1 s).0

module _ (k : Kernel) (laws : RetypeLaws k) (P : k.State → Type 0) (keep : Keeps k laws P)
    (E : Type 0) where
  open laws use {Supplied, HasCNode, Vacant, Holds}

  next_slot_lem :
      (m : Machine k)
      → m.allocator.next < m.allocator.limit
      → next_slot {k = k} {E = E} m
        ≡ (record m { allocator = advance m.allocator }, ok m.allocator.next)
  unfolding next_slot
  next_slot_lem m h = rw (lt→ltb _ _ h)

  -- A second-level CNode is made for the slot, in an empty slot of the root CNode.
  make_cnode_lem :
      (n raw limit : ℕ) (m : Machine k)
      → slot_of raw ≡ 0
      → raw < limit
      → Supplied m.allocator.ut (suc n) m.kernel
      → Slots k laws raw raw limit m.kernel
      → P m.kernel
      → (s' : k.State) × (retype {k = k} {E = E} (k.cnode_blueprint 12) root_cnode (cnode_of raw) m
          ≡ (record m { kernel = s' }, ok tt))
        × Supplied m.allocator.ut n s'
        × Slots k laws raw (suc raw) limit s'
        × P s'
  unfolding retype
  make_cnode_lem n raw limit m first below room slots p =
      let ut : ℕ = m.allocator.ut in
      let b : k.Blueprint = k.cnode_blueprint 12 in
      let (s', e, left) =
        laws.retype-root n m.kernel ut b (cnode_of raw) room
          (slots.roots (cnode_of raw) (omega arith) (omega arith)) in
      let state : (k.untyped_retype ut b root_cnode (cnode_of raw) 1 m.kernel).0 ≡ s' =
        ap (λ q. q.0) e in
      (
        s',
        rw e refl,
        left,
        record {
          vacant = λ i l u.
              subst (λ s. Vacant s (relative_bits (cnode_of i) 52) (slot_of i)) state
                (laws.retype-vacant m.kernel ut b root_cnode (cnode_of raw) _ _ tt
                  (slots.vacant i l u));
          roots = λ c l u.
              subst (λ s. Vacant s root_cnode c) state
                (laws.retype-vacant m.kernel ut b root_cnode (cnode_of raw) root_cnode c
                  (omega arith) (slots.roots c (omega arith) u));
          cnodes = λ c l. elim (Bool-cases (cnode_of raw == c)) [
            | inl here ↦
                subst (λ s. HasCNode s c) state
                  (subst (HasCNode _) ((==_iff _ _).0 here)
                    (laws.retype-cnode m.kernel ut 12 (cnode_of raw) (ap (λ q. q.1) e)))
            | inr other ↦
                subst (λ s. HasCNode s c) state
                  (laws.retype-keeps m.kernel ut b root_cnode (cnode_of raw) c
                    (slots.cnodes c (ground arith)))
          ];
        },
        subst P state (keep m.kernel ut b root_cnode (cnode_of raw) p),
      )

  new_cnode_lem :
      (n raw limit : ℕ) (m : Machine k)
      → raw < limit
      → Supplied m.allocator.ut (suc n) m.kernel
      → Slots k laws raw raw limit m.kernel
      → P m.kernel
      → (s' : k.State) × (new_cnode {k = k} {E = E} raw m ≡ (record m { kernel = s' }, ok tt))
        × Supplied m.allocator.ut n s'
        × Slots k laws raw (suc raw) limit s'
        × P s'
  unfolding new_cnode
  new_cnode_lem n raw limit m below room slots p = elim (Bool-cases (slot_of raw == 0)) [
    | inl e ↦ rw e (make_cnode_lem n raw limit m ((==_iff _ _).0 e) below room slots p)
    | inr e ↦ (
      m.kernel,
      rw e refl,
      laws.fewer m.allocator.ut n m.kernel room,
      record {
        vacant = slots.vacant;
        roots = λ c l u. slots.roots c (omega arith) u;
        cnodes = λ c l. slots.cnodes c (ground arith);
      },
      p,
    )
  ]

  -- The object is made in the slot that was taken.
  make_object_lem :
      (n raw limit : ℕ) (b : k.Blueprint) (m : Machine k)
      → raw < limit
      → Supplied m.allocator.ut (suc n) m.kernel
      → Slots k laws raw (suc raw) limit m.kernel
      → P m.kernel
      → (s' : k.State) × (retype {k = k} {E = E} b (relative_bits (cnode_of raw) 52) (slot_of raw) m
          ≡ (record m { kernel = s' }, ok tt))
        × Supplied m.allocator.ut n s'
        × Slots k laws (suc raw) (suc raw) limit s'
        × P s'
        × Holds s' raw b
  unfolding retype
  make_object_lem n raw limit b m below room slots p =
      let ut : ℕ = m.allocator.ut in
      let path : CNodePath = relative_bits (cnode_of raw) 52 in
      let (s', e, left, here) =
        laws.retype-second n m.kernel ut b (cnode_of raw) (slot_of raw) room
          (slots.cnodes (cnode_of raw) (omega arith)) (omega arith)
          (slots.vacant raw (omega arith) below) in
      let state : (k.untyped_retype ut b path (slot_of raw) 1 m.kernel).0 ≡ s' = ap (λ q. q.0) e in
      (
        s',
        rw e refl,
        left,
        record {
          vacant = λ i l u.
              subst (λ s. Vacant s (relative_bits (cnode_of i) 52) (slot_of i)) state
                (laws.retype-vacant m.kernel ut b path (slot_of raw) _ _ (omega arith)
                  (slots.vacant i (omega arith) u));
          roots = λ c l u.
              subst (λ s. Vacant s root_cnode c) state
                (laws.retype-vacant m.kernel ut b path (slot_of raw) root_cnode c tt
                  (slots.roots c l u));
          cnodes = λ c l.
              subst (λ s. HasCNode s c) state
                (laws.retype-keeps m.kernel ut b path (slot_of raw) c (slots.cnodes c l));
        },
        subst P state (keep m.kernel ut b path (slot_of raw) p),
        subst (λ i. Holds s' i b) (omega arith) here,
      )

  -- While there is room, the next slot gets a capability of the object, and is gone from the
  -- range.
  pub allocate_and_retype_lem :
      (n : ℕ) (m : Machine k) (b : k.Blueprint)
      → Room k laws (suc n) m
      → P m.kernel
      → (m' : Machine k) × (allocate_and_retype {k = k} {E = E} b m ≡ (m', ok m.allocator.next))
        × (m'.allocator ≡ advance m.allocator)
        × Room k laws n m'
        × P m'.kernel
        × Holds m'.kernel m.allocator.next b
  unfolding allocate_and_retype allocate_slot
  allocate_and_retype_lem n m b room p =
      let raw : ℕ = m.allocator.next in
      let limit : ℕ = m.allocator.limit in
      let below : raw < limit = omega (arith, room.left) in
      let m₀ : Machine k = record m { allocator = advance m.allocator } in
      let (s₁, e₁, left₁, slots₁, p₁) =
        new_cnode_lem (suc (n + n)) raw limit m₀ below
          (subst (λ j. Supplied m.allocator.ut j m.kernel) (omega arith) room.supplied) room.slots
          p in
      let (s₂, e₂, left₂, slots₂, p₂, here) =
        make_object_lem (n + n) raw limit b (record m₀ { kernel = s₁ }) below left₁ slots₁ p₁ in
      (
        record m₀ { kernel = s₂ },
        rw (next_slot_lem m below, e₁, e₂) refl,
        refl,
        record { left = omega (arith, room.left); supplied = left₂; slots = slots₂ },
        p₂,
        here,
      )
