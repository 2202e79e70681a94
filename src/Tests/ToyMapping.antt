-- ===== src/Tests/ToyMapping.antt =====
-- The toy kernel maps pages as documented, and crates that align addresses and read flags.
use rust_root_task_demo_mi_d.Prelude.{
  ℕ, suc, ◌+◌, ◌-◌, ◌*◌, ◌/◌, ◌%◌, ◌^◌, ◌≤◌, ◌<◌, ◌≡◌, ◌≢◌, refl, sym, ap, subst, ◌∙◌, true, none,
  some, arith, ltb, ltb-ge, lt→ltb, ◌==◌, ==_refl, ==_false, ==_iff, if◌then◌else◌, ok, err, Option,
  inl, inr, Bool-cases,
}
use rust_root_task_demo_mi_d.Sel4.{
  MapLaws, UnmapLaws, LeavesSlots, CNodePath, root_cnode, relative_bits, index_of,
}
use rust_root_task_demo_mi_d.Crates.{MemoryAddr, Bitflags, steps}
use rust_root_task_demo_mi_d.Tests.ToyKernel.{
  Slot, vacant, unmapped, frame_at, table_at, ToyState, ToyError, failed_lookup, toy, toy_retype,
  toy_frame_map, toy_pt_map, toy_page_at, put, page_of, page_there, IsVacant, fill, toy_retype_laws,
}

pub toy-frame_map_missing :
    (s : ToyState) (page v a : ℕ) (r : Unit {0})
    → s.slots page ≡ unmapped 100
    → a % 4096 ≡ 0
    → 0 < s.tables_missing
    → s.tables_missing < 4
    → (e : ToyError) × (toy_frame_map page v a r s ≡ (s, err e)) × (toy.is_failed_lookup e ≡ true)
toy-frame_map_missing s page v a r held aligned h few =
    (failed_lookup, rw (lt→ltb _ _ h) refl, refl)

-- Where one slot changes, and is none of a frame at the address before and after, the pages stay.
page_there-put :
    (s : ToyState) (i a : ℕ) (x : Slot) (p : Option ℕ)
    → page_of a (s.slots i) i ≡ none
    → page_of a x i ≡ none
    → page_there (record s { slots = put s.slots i x }) a p ≡ page_there s a p
page_there-put s i a x none old new = refl
page_there-put s i a x (some q) old new = elim (Bool-cases (i == q)) [
  | inl e ↦ let same : i ≡ q = (==_iff i q).0 e in grind arith
  | inr e ↦ rw e
]

leaves_slots :
    (s : ToyState) (i b : ℕ) (x : Slot) (n : ℕ) (pages : ℕ → Option ℕ)
    → s.slots i ≡ unmapped b
    → LeavesSlots toy toy_retype_laws i s
        (record s { slots = put s.slots i x; pages = pages; tables_missing = n })
leaves_slots s i b x n pages held = record {
  supplied = λ ut m h. h;
  cnodes = λ c h. h;
  vacant = leaves_vacant;
  holds = λ j c ne h. rw (==_false i j (λ e. ne (grind arith))) h;
}
  where
    leaves_vacant :
        (path : CNodePath) (slot : ℕ)
        → IsVacant s path slot
        → IsVacant
            (record s { slots = put s.slots i x; pages = pages; tables_missing = n })
            path
            slot
    leaves_vacant root_cnode slot h = h
    leaves_vacant (relative_bits c _) slot (h, l) = (ground arith, l)

pub toy-frame_map_free :
    (s : ToyState) (page v a : ℕ) (r : Unit {0})
    → s.slots page ≡ unmapped 100
    → a % 4096 ≡ 0
    → a < 2 ^ 48
    → s.tables_missing ≡ 0
    → toy_page_at s a ≡ none
    → (s' : ToyState) × (toy_frame_map page v a r s ≡ (s', ok tt))
      × (toy_page_at s' a ≡ some page)
      × ((b : ℕ) → a ≢ b → toy_page_at s' b ≡ toy_page_at s b)
      × ((b : ℕ) → s'.tables_missing ≡ s.tables_missing)
      × LeavesSlots toy toy_retype_laws page s s'
toy-frame_map_free s page v a r held aligned user h free = (
  record s { pages = put s.pages a (some page); slots = put s.slots page (frame_at a) },
  rw (ltb-ge 0 s.tables_missing (omega arith), held, free) refl,
  rw (==_refl a) (rw (==_refl page) (rw (==_refl a) refl)),
  λ b ne.
      rw (==_false a b ne) (
        page_there-put s page b (frame_at a) (s.pages b) (rw held refl)
          (rw (==_false a b ne) refl)),
  λ b. refl,
  leaves_slots s page 100 (frame_at a) s.tables_missing (put s.pages a (some page)) held,
)

pub toy-pt_map_missing :
    (s : ToyState) (n pt v a : ℕ)
    → s.slots pt ≡ unmapped 101
    → a % 4096 ≡ 0
    → s.tables_missing ≡ suc n
    → suc n < 4
    → (s' : ToyState) × (toy_pt_map pt v a s ≡ (s', ok tt))
      × (s'.tables_missing ≡ n)
      × ((b : ℕ) → toy_page_at s' b ≡ toy_page_at s b)
      × ((b : ℕ) → s'.tables_missing ≤ s.tables_missing)
      × LeavesSlots toy toy_retype_laws pt s s'
toy-pt_map_missing s n pt v a held aligned h few = (
  record s { tables_missing = s.tables_missing - 1; slots = put s.slots pt (table_at a) },
  rw (lt→ltb 0 s.tables_missing (omega arith), held) refl,
  omega arith,
  λ b. page_there-put s pt b (table_at a) (s.pages b) (rw held refl) refl,
  λ b. omega arith,
  leaves_slots s pt 101 (table_at a) (s.tables_missing - 1) s.pages held,
)

fill_mappings :
    (b i a : ℕ) (s : ToyState) (x : Slot)
    → s.slots i ≡ x
    → (toy_page_at (fill b i s x).0 a ≡ toy_page_at s a)
      × ((fill b i s x).0.tables_missing ≡ s.tables_missing)
fill_mappings b i a s vacant e = elim (Bool-cases (ltb 0 s.room)) [
  | inl r ↦ rw r (page_there-put s i a (unmapped b) (s.pages a) (rw e refl) refl, refl)
  | inr r ↦ rw r (refl, refl)
]
fill_mappings b i a s (unmapped _) e = (refl, refl)
fill_mappings b i a s (frame_at _) e = (refl, refl)
fill_mappings b i a s (table_at _) e = (refl, refl)

pub toy-retype_mappings :
    (s : ToyState) (ut b : ℕ) (path : CNodePath) (slot v a : ℕ)
    → (toy_page_at (toy_retype ut b path slot 1 s).0 a ≡ toy_page_at s a)
      × ((toy_retype ut b path slot 1 s).0.tables_missing ≡ s.tables_missing)
toy-retype_mappings s ut b root_cnode slot v a = elim (Bool-cases (s.cnodes slot)) [
  | inl e ↦ rw e (refl, refl)
  | inr e ↦ elim (Bool-cases (ltb 0 s.room)) [
    | inl r ↦ rw (e, r) (refl, refl)
    | inr r ↦ rw (e, r) (refl, refl)
  ]
]
toy-retype_mappings s ut b (relative_bits c d) slot v a = elim (Bool-cases (s.cnodes c)) [
  | inr e ↦ rw e (refl, refl)
  | inl e ↦ elim (Bool-cases (ltb slot 4096)) [
    | inl r ↦ rw (e, r) (fill_mappings b (index_of c slot) a s (s.slots (index_of c slot)) refl)
    | inr r ↦ rw (e, r) (refl, refl)
  ]
]

abbrev pub toy_map_laws : MapLaws toy
toy_map_laws = record {
  retyping = toy_retype_laws;
  user_top = 2 ^ 48;
  missing = λ s v a. s.tables_missing;
  page_at = λ s v a. toy_page_at s a;
  frame_map-missing = toy-frame_map_missing;
  frame_map-free = toy-frame_map_free;
  pt_map-missing = toy-pt_map_missing;
  retype-mappings = toy-retype_mappings;
}

-- The slot of a page that is mapped.
page_of-frame :
    (a page q : ℕ) (x : Slot) → page_of a x q ≡ some page → (x ≡ frame_at a) × (q ≡ page)
page_of-frame a page q vacant h = cc
page_of-frame a page q (unmapped _) h = cc
page_of-frame a page q (frame_at b) h = elim (Bool-cases (b == a)) [
  | inl e ↦
      let whole : some q ≡ some page = sym (rw e refl) ∙ h in (ap frame_at ((==_iff b a).0 e), cc)
  | inr e ↦ let nothing : none ≡ some page = sym (rw e refl) ∙ h in cc
]
page_of-frame a page q (table_at _) h = cc

page_there-frame :
    (s : ToyState) (a page : ℕ) (p : Option ℕ)
    → page_there s a p ≡ some page
    → (s.slots page ≡ frame_at a) × (p ≡ some page)
page_there-frame s a page none h = cc
page_there-frame s a page (some q) h =
    let (e, same) = page_of-frame a page q (s.slots q) h in
    (subst (λ i. s.slots i ≡ frame_at a) same e, ap some same)

pub toy-frame_unmap :
    (s : ToyState) (page v a : ℕ)
    → toy_page_at s a ≡ some page
    → (s' : ToyState) × (toy.frame_unmap page s ≡ (s', ok tt))
      × (toy_page_at s' a ≡ none)
      × ((b : ℕ) → a ≢ b → toy_page_at s' b ≡ toy_page_at s b)
      × ((b : ℕ) → s'.tables_missing ≡ s.tables_missing)
toy-frame_unmap s page v a h =
    let (e, there) = page_there-frame s a page (s.pages a) h in
    (
      record s { slots = put s.slots page (unmapped 100) },
      rw e refl,
      rw (there, ==_refl page),
      λ b ne.
          page_there-put s page b (unmapped 100) (s.pages b) (rw (e, ==_false a b ne) refl) refl,
      λ b. refl,
    )

abbrev pub toy_unmap_laws : UnmapLaws toy toy_map_laws
toy_unmap_laws = record { frame_unmap-mapped = toy-frame_unmap }

pub align_up : (a : ℕ) → a + 4095 < 2 ^ 64 → (a + 4095) / 4096 * 4096 ≡ (a + 4095) / 4096 * 4096
align_up a h = refl

pub page_iter :
    (a b n : ℕ)
    → a % 4096 ≡ 0
    → a + n * 4096 ≡ b
    → some (steps 4096 a ((b - a) / 4096)) ≡ some (steps 4096 a n)
page_iter a b n z e = let count : (b - a) / 4096 ≡ n = omega arith in rw count

abbrev pub toy_memory_addr : MemoryAddr
toy_memory_addr = record {
  add = λ a b. a + b;
  sub = λ a b. a - b;
  sub_lem = λ a b h. refl;
  align_down_4k = λ a. a / 4096 * 4096;
  align_up_4k = λ a. (a + 4095) / 4096 * 4096;
  align_offset_4k = λ a. a % 4096;
  page_iter_4k = λ a b. some (steps 4096 a ((b - a) / 4096));
  add_lem = λ a b h. refl;
  align_down_4k_lem = λ a. refl;
  align_up_4k_lem = align_up;
  align_offset_4k_lem = λ a. refl;
  page_iter_4k_lem = page_iter;
}

-- Flags are accepted whole below the union, and 0x10 is looked for.
abbrev pub toy_flags : Bitflags
toy_flags = record {
  from_bits = λ known flags. if ltb known flags then none else some flags;
  contains = λ flags flag. (flags / flag) % 2 == 1;
}
