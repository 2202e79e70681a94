-- ===== src/Tests/ToyKernel.antt =====
-- A small kernel with the documented behaviour of seL4: it counts the memory that is left and the
-- page tables that are missing, and holds the CNodes, the capabilities, the pages mapped and the
-- threads resumed.
use rust_root_task_demo_mi_d.Prelude.{
  ℕ, suc, ◌-◌, ◌^◌, ◌≤◌, ◌<◌, ◌≡◌, refl, Bool, true, false, Option, none, some, arith, ltb, lt→ltb,
  ◌==◌, ==_refl, if◌then◌else◌, Exec, Outcome, ok, err, inl, inr,
}
use rust_root_task_demo_mi_d.Sel4.{
  Kernel, RetypeLaws, CNodePath, root_cnode, relative_bits, Apart, index_of,
}

-- What a slot holds: nothing, an object that is mapped nowhere, or one that is mapped.
pub data Slot : Type 0 where
  vacant : Slot
  unmapped frame_at table_at : ℕ → Slot

pub record ToyState : Type 0 where
  pub room : ℕ
  pub tables_missing : ℕ
  pub cnodes : ℕ → Bool
  pub slots : ℕ → Slot
  pub pages : ℕ → Option ℕ
  pub running : ℕ → Bool

pub data ToyError : Type 0 where
  failed_lookup not_enough_memory delete_first illegal : ToyError

abbrev pub put {ℓ} : {A : Type ℓ} → (ℕ → A) → ℕ → A → ℕ → A
put f i x j = if i == j then x else f j

-- An object goes in a slot that is empty.
abbrev pub fill : ℕ → ℕ → ToyState → Slot → ToyState × Outcome ToyError (Unit {0})
fill b i s vacant =
    if ltb 0 s.room
    then (record s { room = s.room - 1; slots = put s.slots i (unmapped b) }, ok tt)
    else (s, err not_enough_memory)
fill b i s (unmapped _) = (s, err delete_first)
fill b i s (frame_at _) = (s, err delete_first)
fill b i s (table_at _) = (s, err delete_first)

abbrev pub add_cnode : ℕ → ToyState → ToyState × Outcome ToyError (Unit {0})
add_cnode slot s =
    if ltb 0 s.room
    then (record s { room = s.room - 1; cnodes = put s.cnodes slot true }, ok tt)
    else (s, err not_enough_memory)

abbrev pub toy_retype : ℕ → ℕ → CNodePath → ℕ → ℕ → Exec ToyState ToyError (Unit {0})
toy_retype ut b root_cnode slot n s =
    if s.cnodes slot then (s, err delete_first) else add_cnode slot s
toy_retype ut b (relative_bits c _) slot n s =
    if s.cnodes c
    then if ltb slot 4096
      then fill b (index_of c slot) s (s.slots (index_of c slot))
      else (s, err illegal)
    else (s, err failed_lookup)

-- A frame that is mapped nowhere is mapped where no other one is.
abbrev pub page_of : ℕ → Slot → ℕ → Option ℕ
page_of a vacant page = none
page_of a (unmapped _) page = none
page_of a (frame_at b) page = if b == a then some page else none
page_of a (table_at _) page = none

abbrev pub page_there : ToyState → ℕ → Option ℕ → Option ℕ
page_there s a none = none
page_there s a (some page) = page_of a (s.slots page) page

abbrev pub toy_page_at : ToyState → ℕ → Option ℕ
toy_page_at s a = page_there s a (s.pages a)

abbrev pub put_page : ℕ → ℕ → ToyState → Slot → Option ℕ → ToyState × Outcome ToyError (Unit {0})
put_page page a s (unmapped b) none =
    if b == 100
    then (
      record s { pages = put s.pages a (some page); slots = put s.slots page (frame_at a) },
      ok tt,
    )
    else (s, err illegal)
put_page page a s (unmapped b) (some _) = (s, err delete_first)
put_page page a s vacant there = (s, err illegal)
put_page page a s (frame_at _) there = (s, err illegal)
put_page page a s (table_at _) there = (s, err illegal)

abbrev pub toy_frame_map : ℕ → ℕ → ℕ → Unit {0} → Exec ToyState ToyError (Unit {0})
toy_frame_map page v a r s =
    if ltb 0 s.tables_missing
    then (s, err failed_lookup)
    else put_page page a s (s.slots page) (toy_page_at s a)

abbrev pub take_page : ℕ → ToyState → Slot → ToyState × Outcome ToyError (Unit {0})
take_page page s (frame_at a) = (record s { slots = put s.slots page (unmapped 100) }, ok tt)
take_page page s vacant = (s, err illegal)
take_page page s (unmapped _) = (s, ok tt)
take_page page s (table_at _) = (s, err illegal)

abbrev pub put_table : ℕ → ℕ → ToyState → Slot → ToyState × Outcome ToyError (Unit {0})
put_table pt a s (unmapped b) =
    if b == 101
    then (
      record s { tables_missing = s.tables_missing - 1; slots = put s.slots pt (table_at a) },
      ok tt,
    )
    else (s, err illegal)
put_table pt a s vacant = (s, err illegal)
put_table pt a s (frame_at _) = (s, err illegal)
put_table pt a s (table_at _) = (s, err illegal)

abbrev pub toy_pt_map : ℕ → ℕ → ℕ → Exec ToyState ToyError (Unit {0})
toy_pt_map pt v a s =
    if ltb 0 s.tables_missing then put_table pt a s (s.slots pt) else (s, err delete_first)

abbrev is_lookup : ToyError → Bool
is_lookup failed_lookup = true
is_lookup not_enough_memory = false
is_lookup delete_first = false
is_lookup illegal = false

abbrev pub resume : ℕ → Slot → ToyState → ToyState × Outcome ToyError (Unit {0})
resume tcb (unmapped b) s =
    if b == 103 then (record s { running = put s.running tcb true }, ok tt) else (s, err illegal)
resume tcb vacant s = (s, err illegal)
resume tcb (frame_at _) s = (s, err illegal)
resume tcb (table_at _) s = (s, err illegal)

abbrev pub toy : Kernel
toy = record {
  State = ToyState;
  Error = ToyError;
  is_failed_lookup = is_lookup;
  Blueprint = ℕ;
  cnode_blueprint = λ bits. bits;
  granule = 100;
  page_table = 101;
  vspace = 102;
  tcb = 103;
  Rights = Unit {0};
  all_rights = tt;
  num_levels = 4;
  untyped_retype = toy_retype;
  frame_map = toy_frame_map;
  frame_unmap = λ page s. take_page page s (s.slots page);
  pt_map = toy_pt_map;
  asid_pool_assign = λ vspace s. (s, ok tt);
  tcb_suspend = λ tcb s. (s, ok tt);
  tcb_resume = λ tcb s. resume tcb (s.slots tcb) s;
}

-- An empty slot of a CNode.
abbrev pub IsVacant : ToyState → CNodePath → ℕ → Type 0
IsVacant s root_cnode slot = s.cnodes slot ≡ false
IsVacant s (relative_bits c _) slot = (s.slots (index_of c slot) ≡ vacant) × (slot < 2 ^ 12)

pub toy-retype_root :
    (n : ℕ) (s : ToyState) (ut b slot : ℕ)
    → suc n ≤ s.room
    → IsVacant s root_cnode slot
    → (s' : ToyState) × (toy_retype ut b root_cnode slot 1 s ≡ (s', ok tt)) × (n ≤ s'.room)
toy-retype_root n s ut b slot h free = (
  record s { room = s.room - 1; cnodes = put s.cnodes slot true },
  rw (free, lt→ltb 0 s.room (omega arith)) refl,
  omega arith,
)

pub toy-retype_second :
    (n : ℕ) (s : ToyState) (ut b cnode slot : ℕ)
    → suc n ≤ s.room
    → s.cnodes cnode ≡ true
    → slot < 2 ^ 12
    → IsVacant s (relative_bits cnode 52) slot
    → (s' : ToyState) × (toy_retype ut b (relative_bits cnode 52) slot 1 s ≡ (s', ok tt))
      × (n ≤ s'.room)
      × (s'.slots (index_of cnode slot) ≡ unmapped b)
toy-retype_second n s ut b cnode slot h there lt (free, small) = (
  record s { room = s.room - 1; slots = put s.slots (index_of cnode slot) (unmapped b) },
  rw (there, lt→ltb slot 4096 lt, free, lt→ltb 0 s.room (omega arith)) refl,
  omega arith,
  rw (==_refl (index_of cnode slot)),
)

pub toy-keeps :
    (s : ToyState) (ut b : ℕ) (path : CNodePath) (slot c : ℕ)
    → s.cnodes c ≡ true
    → (toy_retype ut b path slot 1 s).0.cnodes c ≡ true
toy-keeps s ut b root_cnode slot c h = ground arith
toy-keeps s ut b (relative_bits x y) slot c h = ground arith

pub toy-cnode :
    (s : ToyState) (ut bits slot : ℕ)
    → (toy_retype ut bits root_cnode slot 1 s).1 ≡ ok tt
    → (toy_retype ut bits root_cnode slot 1 s).0.cnodes slot ≡ true
toy-cnode s ut bits slot h = ground arith

pub toy-IsVacant :
    (s : ToyState) (ut b : ℕ) (path : CNodePath) (slot : ℕ) (path' : CNodePath) (slot' : ℕ)
    → Apart path slot path' slot'
    → IsVacant s path' slot'
    → IsVacant (toy_retype ut b path slot 1 s).0 path' slot'
toy-IsVacant s ut b root_cnode i root_cnode j apart h = ground arith
toy-IsVacant s ut b root_cnode i (relative_bits d _) j apart (h, l) = (ground arith, l)
toy-IsVacant s ut b (relative_bits c _) i root_cnode j apart h = ground arith
toy-IsVacant s ut b (relative_bits c _) i (relative_bits d _) j (inl apart) (h, l) =
    (ground arith, l)
toy-IsVacant s ut b (relative_bits c _) i (relative_bits d _) j (inr apart) (h, l) =
    (ground arith, l)

pub toy-holds :
    (s : ToyState) (ut b : ℕ) (path : CNodePath) (slot i c : ℕ)
    → s.slots i ≡ unmapped c
    → (toy_retype ut b path slot 1 s).0.slots i ≡ unmapped c
toy-holds s ut b root_cnode slot i c h = ground arith
toy-holds s ut b (relative_bits x y) slot i c h = ground arith

abbrev pub toy_retype_laws : RetypeLaws toy
toy_retype_laws = record {
  Supplied = λ ut n s. n ≤ s.room;
  fewer = λ ut n s h. omega arith;
  HasCNode = λ s c. s.cnodes c ≡ true;
  Vacant = IsVacant;
  Holds = λ s i b. s.slots i ≡ unmapped b;
  retype-root = toy-retype_root;
  retype-second = toy-retype_second;
  retype-keeps = toy-keeps;
  retype-cnode = toy-cnode;
  retype-vacant = toy-IsVacant;
  retype-holds = toy-holds;
}
