-- ===== src/Image/Pages.antt =====
-- The last loop of `map_image` in crates/common/src/utils.rs: the pages of an image in the child's
-- address space.
use rust_root_task_demo_mi_d.Prelude.{
  ℕ, suc, ◌+◌, ◌*◌, ◌%◌, ◌≤◌, ◌<◌, ◌≡◌, ◌≢◌, ◌⊎◌, inl, inr, All, length, refl, ◌∙◌, [], ◌∷◌, none,
  some, arith, ==_refl, ==_false, ok,
}
use rust_root_task_demo_mi_d.BTree.{get, insert, get-insert}
use rust_root_task_demo_mi_d.Sel4.{Kernel, MapLaws, LeavesSlots}
use rust_root_task_demo_mi_d.Image.{Loader, Pages, Space, built, map_pages}

-- An address outside a range is outside what is left of it, and is not its first one.
further :
    (a n b : ℕ) → (b < a) ⊎ (a + suc n * 4096 ≤ b) → (b < a + 4096) ⊎ (a + 4096 + n * 4096 ≤ b)
further a n b (inl h) = inl (omega arith)
further a n b (inr h) = inr (omega arith)

apart_of : (a n b : ℕ) → (b < a) ⊎ (a + suc n * 4096 ≤ b) → a ≢ b
apart_of a n b (inl h) = omega arith
apart_of a n b (inr h) = omega arith

module _ (k : Kernel) (laws : MapLaws k) (l : Loader k) (E : Type 0) where
  open laws use {Holds, missing, page_at}

  -- The pages stand one behind the other from an address on, in the kernel and in the map.
  abbrev pub Placed : ℕ → ℕ → Pages → Space k → Type 0
  Placed vspace a [] c = Unit {0}
  Placed vspace a ((page, _) ∷ pages) c =
      (page_at c.machine.kernel vspace a ≡ some page)
      × (get c.mapped_page a ≡ some page)
      × Placed vspace (a + 4096) pages c

  -- Each page is the capability of a frame that is mapped nowhere, and no page stands there twice.
  abbrev pub Unmapped : Pages → k.State → Type 0
  Unmapped [] s = Unit {0}
  Unmapped ((page, _) ∷ pages) s =
      Holds s page k.granule × All (λ q. q.0 ≢ page) pages × Unmapped pages s

  -- Nothing changes outside a range.
  pub record Outside (vspace a end : ℕ) (c c' : Space k) : Type 0 where
    pub kernel :
        (b : ℕ)
        → (b < a) ⊎ (end ≤ b)
        → page_at c'.machine.kernel vspace b ≡ page_at c.machine.kernel vspace b
    pub pages : (b : ℕ) → (b < a) ⊎ (end ≤ b) → get c'.mapped_page b ≡ get c.mapped_page b

  Unmapped-LeavesSlots :
      (page : ℕ) (pages : Pages) (s s' : k.State)
      → LeavesSlots k laws.retyping page s s'
      → All (λ q. q.0 ≢ page) pages
      → Unmapped pages s
      → Unmapped pages s'
  Unmapped-LeavesSlots page [] s s' leaves apart held = tt
  Unmapped-LeavesSlots page ((other, _) ∷ pages) s s' leaves (ne, apart) (here, distinct, held) = (
    leaves.holds other k.granule ne here,
    distinct,
    Unmapped-LeavesSlots page pages s s' leaves apart held,
  )

  -- Where the range is aligned and in user space, its tables are there, no page of it is mapped and
  -- each page of the image is a frame of its own that is mapped nowhere, mapping the pages of an
  -- image succeeds: each page is at its address, in the kernel and in the task's map, and nothing
  -- changes outside the range.
  pub map_pages_lem :
      (vspace a : ℕ) (pages : Pages) (c : Space k)
      → a % 4096 ≡ 0
      → a + length pages * 4096 ≤ laws.user_top
      → ((b : ℕ)
          → a ≤ b
          → b < a + length pages * 4096
          → (missing c.machine.kernel vspace b ≡ 0) × (page_at c.machine.kernel vspace b ≡ none))
      → Unmapped pages c.machine.kernel
      → (c' : Space k) × (map_pages l {E = E} vspace a pages c ≡ (c', ok tt))
        × Placed vspace a pages c'
        × Outside vspace a (a + length pages * 4096) c c'
  unfolding map_pages
  map_pages_lem vspace a [] c aligned user free held =
      (c, refl, tt, record { kernel = λ b h. refl; pages = λ b h. refl })
  map_pages_lem vspace a ((page, rights) ∷ pages) c aligned user free (here, distinct, held) =
      let (depth, none_here) = free a (omega arith) (omega arith) in
      let (s', e, mapped_here, elsewhere, same, leaves) =
        laws.frame_map-free c.machine.kernel page vspace a (built l rights) here aligned
          (omega arith) depth none_here in
      let c₁ : Space k = record {
        machine = record (c.machine) { kernel = s' };
        mapped_page = insert a page c.mapped_page;
      } in
      let (c', e', placed, out) =
        map_pages_lem vspace (a + 4096) pages c₁ (omega arith) (omega arith)
          (λ b l u.
            let (d, n) = free b (omega arith) (omega arith) in
            (same b ∙ d, elsewhere b (omega arith) ∙ n))
          (Unmapped-LeavesSlots page pages c.machine.kernel s' leaves distinct held) in
      (
        c',
        rw e e',
        (
          out.kernel a (inl (omega arith)) ∙ mapped_here,
          out.pages a (inl (omega arith)) ∙ get-insert a page c.mapped_page a ∙ rw (==_refl a),
          placed,
        ),
        record {
          kernel = λ b h.
              out.kernel b (further a (length pages) b h)
              ∙ elsewhere b (apart_of a (length pages) b h);
          pages = λ b h.
              out.pages b (further a (length pages) b h)
              ∙ get-insert a page c.mapped_page b
              ∙ rw (==_false a b (apart_of a (length pages) b h));
        },
      )
