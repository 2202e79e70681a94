-- ===== src/Sel4.antt =====
-- The seL4 kernel as the code calls it through the sel4 crate: the operations on capabilities, over
-- a state of the kernel that stays abstract, and the documented behaviour that proofs rely on.
-- A capability is its index in the caller's CSpace.
use rust_root_task_demo_mi_d.Prelude.{
  ℕ, suc, ◌+◌, ◌*◌, ◌%◌, ◌^◌, ◌<◌, ◌≤◌, ◌≡◌, ◌≢◌, ◌⊎◌, Bool, true, Option, none, some, Exec, ok,
  err,
}

-- The CNode that receives a new capability: the root CNode, or `relative_bits_with_depth`.
pub data CNodePath : Type 0 where
  root_cnode : CNodePath
  relative_bits : ℕ → ℕ → CNodePath

pub record Kernel : Type 1 where
  pub State : Type 0
  pub Error : Type 0
  -- The test against `Error::FailedLookup`.
  pub is_failed_lookup : Error → Bool
  pub Blueprint : Type 0
  pub cnode_blueprint : ℕ → Blueprint
  pub granule : Blueprint
  pub page_table : Blueprint
  pub vspace : Blueprint
  pub tcb : Blueprint
  pub Rights : Type 0
  pub all_rights : Rights
  -- `vspace_levels::NUM_LEVELS`.
  pub num_levels : ℕ
  pub untyped_retype : ℕ → Blueprint → CNodePath → ℕ → ℕ → Exec State Error (Unit {0})
  pub frame_map : ℕ → ℕ → ℕ → Rights → Exec State Error (Unit {0})
  pub frame_unmap : ℕ → Exec State Error (Unit {0})
  pub pt_map : ℕ → ℕ → ℕ → Exec State Error (Unit {0})
  pub asid_pool_assign : ℕ → Exec State Error (Unit {0})
  pub tcb_suspend : ℕ → Exec State Error (Unit {0})
  pub tcb_resume : ℕ → Exec State Error (Unit {0})

-- Two slots, each of a CNode, that are not the same.
abbrev pub Apart : CNodePath → ℕ → CNodePath → ℕ → Type 0
Apart root_cnode i root_cnode j = i ≢ j
Apart root_cnode i (relative_bits d _) j = Unit {0}
Apart (relative_bits c _) i root_cnode j = Unit {0}
Apart (relative_bits c _) i (relative_bits d _) j = (c ≢ d) ⊎ (i ≢ j)

-- The slot of the CSpace that a slot of a second-level CNode is.
abbrev pub index_of : ℕ → ℕ → ℕ
index_of cnode slot = cnode * 2 ^ 12 + slot

-- Retyping succeeds where the untyped memory has room, the path leads to a CNode and the slot is
-- empty; it changes no other slot.
pub record RetypeLaws (k : Kernel) : Type 1 where
  -- The memory of an untyped capability still has room for that many objects.
  pub Supplied : ℕ → ℕ → k.State → Type 0
  pub fewer : (ut n : ℕ) (s : k.State) → Supplied ut (suc n) s → Supplied ut n s
  -- The root CNode has a second-level CNode in this slot.
  pub HasCNode : k.State → ℕ → Type 0
  -- A slot of a CNode has no capability in it.
  pub Vacant : k.State → CNodePath → ℕ → Type 0
  -- The slot of the CSpace holds a capability of such an object, which is mapped nowhere.
  pub Holds : k.State → ℕ → k.Blueprint → Type 0
  pub retype-root :
      (n : ℕ) (s : k.State) (ut : ℕ) (b : k.Blueprint) (slot : ℕ)
      → Supplied ut (suc n) s
      → Vacant s root_cnode slot
      → (s' : k.State) × (k.untyped_retype ut b root_cnode slot 1 s ≡ (s', ok tt))
        × Supplied ut n s'
  pub retype-second :
      (n : ℕ) (s : k.State) (ut : ℕ) (b : k.Blueprint) (cnode slot : ℕ)
      → Supplied ut (suc n) s
      → HasCNode s cnode
      → slot < 2 ^ 12
      → Vacant s (relative_bits cnode 52) slot
      → (s' : k.State) × (k.untyped_retype ut b (relative_bits cnode 52) slot 1 s ≡ (s', ok tt))
        × Supplied ut n s'
        × Holds s' (index_of cnode slot) b
  pub retype-keeps :
      (s : k.State) (ut : ℕ) (b : k.Blueprint) (path : CNodePath) (slot c : ℕ)
      → HasCNode s c
      → HasCNode (k.untyped_retype ut b path slot 1 s).0 c
  pub retype-cnode :
      (s : k.State) (ut bits slot : ℕ)
      → (k.untyped_retype ut (k.cnode_blueprint bits) root_cnode slot 1 s).1 ≡ ok tt
      → HasCNode (k.untyped_retype ut (k.cnode_blueprint bits) root_cnode slot 1 s).0 slot
  pub retype-vacant :
      (s : k.State) (ut : ℕ) (b : k.Blueprint) (path : CNodePath) (slot : ℕ) (path' : CNodePath)
      (slot' : ℕ)
      → Apart path slot path' slot'
      → Vacant s path' slot'
      → Vacant (k.untyped_retype ut b path slot 1 s).0 path' slot'
  pub retype-holds :
      (s : k.State) (ut : ℕ) (b : k.Blueprint) (path : CNodePath) (slot i : ℕ) (c : k.Blueprint)
      → Holds s i c
      → Holds (k.untyped_retype ut b path slot 1 s).0 i c

-- A call that retypes nothing leaves memory and slots, and every capability but one.
pub record LeavesSlots (k : Kernel) (laws : RetypeLaws k) (cap : ℕ) (s s' : k.State) : Type 0 where
  pub supplied : (ut n : ℕ) → laws.Supplied ut n s → laws.Supplied ut n s'
  pub cnodes : (c : ℕ) → laws.HasCNode s c → laws.HasCNode s' c
  pub vacant : (path : CNodePath) (slot : ℕ) → laws.Vacant s path slot → laws.Vacant s' path slot
  pub holds : (i : ℕ) (b : k.Blueprint) → i ≢ cap → laws.Holds s i b → laws.Holds s' i b

-- Mapping a frame, by a capability that is mapped nowhere, fails with `FailedLookup` while a table
-- is missing on the way to the address; mapping a page table supplies one such table. No call
-- touches another mapping.
pub record MapLaws (k : Kernel) : Type 1 where
  pub retyping : RetypeLaws k
  pub open retyping use *
  -- The addresses of user space lie below this one.
  pub user_top : ℕ
  -- How many tables are missing on the way to an address of an address space; `num_levels` where
  -- the address is none of user space or the capability is none of an address space.
  pub missing : k.State → ℕ → ℕ → ℕ
  -- The capability of the frame that an address space has at a page.
  pub page_at : k.State → ℕ → ℕ → Option ℕ
  pub frame_map-missing :
      (s : k.State) (page v a : ℕ) (r : k.Rights)
      → Holds s page k.granule
      → a % 4096 ≡ 0
      → 0 < missing s v a
      → missing s v a < k.num_levels
      → (e : k.Error) × (k.frame_map page v a r s ≡ (s, err e)) × (k.is_failed_lookup e ≡ true)
  pub frame_map-free :
      (s : k.State) (page v a : ℕ) (r : k.Rights)
      → Holds s page k.granule
      → a % 4096 ≡ 0
      → a < user_top
      → missing s v a ≡ 0
      → page_at s v a ≡ none
      → (s' : k.State) × (k.frame_map page v a r s ≡ (s', ok tt))
        × (page_at s' v a ≡ some page)
        × ((b : ℕ) → a ≢ b → page_at s' v b ≡ page_at s v b)
        × ((b : ℕ) → missing s' v b ≡ missing s v b)
        × LeavesSlots k retyping page s s'
  pub pt_map-missing :
      (s : k.State) (n pt v a : ℕ)
      → Holds s pt k.page_table
      → a % 4096 ≡ 0
      → missing s v a ≡ suc n
      → suc n < k.num_levels
      → (s' : k.State) × (k.pt_map pt v a s ≡ (s', ok tt))
        × (missing s' v a ≡ n)
        × ((b : ℕ) → page_at s' v b ≡ page_at s v b)
        × ((b : ℕ) → missing s' v b ≤ missing s v b)
        × LeavesSlots k retyping pt s s'
  pub retype-mappings :
      (s : k.State) (ut : ℕ) (b : k.Blueprint) (path : CNodePath) (slot v a : ℕ)
      → (page_at (k.untyped_retype ut b path slot 1 s).0 v a ≡ page_at s v a)
        × (missing (k.untyped_retype ut b path slot 1 s).0 v a ≡ missing s v a)

-- Unmapping a frame that is mapped takes it from its page, and touches no other mapping.
pub record UnmapLaws (k : Kernel) (laws : MapLaws k) : Type 0 where
  pub frame_unmap-mapped :
      (s : k.State) (page v a : ℕ)
      → laws.page_at s v a ≡ some page
      → (s' : k.State) × (k.frame_unmap page s ≡ (s', ok tt))
        × (laws.page_at s' v a ≡ none)
        × ((b : ℕ) → a ≢ b → laws.page_at s' v b ≡ laws.page_at s v b)
        × ((b : ℕ) → laws.missing s' v b ≡ laws.missing s v b)
