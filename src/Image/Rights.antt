-- ===== src/Image/Rights.antt =====
-- The rights of the pages of an image: `add_rights` and the loops of `map_image` in
-- crates/common/src/utils.rs.
use rust_root_task_demo_mi_d.Prelude.{
  ℕ, zero, suc, ◌+◌, ◌-◌, ◌/◌, ◌≡◌, refl, ap, ◌∙◌, List, [], ◌∷◌, ◌++◌, map, Option, none, some,
  All, take, drop, arith, Returns, >>=-Returns, >>=-After, pure, ◌>>=◌, ◌>>◌, subst, sym, Exec,
  continue_with, Outcome, ok, err, panic, wrap64,
}
use rust_root_task_demo_mi_d.Sel4.{Kernel}
use rust_root_task_demo_mi_d.Alloc.{Machine, allocate_and_retyped_fixed_sized}
use rust_root_task_demo_mi_d.Image.{
  Loader, Range, Segment, Space, all_rights, Pages, add_flags, add_rights, add_rights_first, slice,
  take_pages, copy_data, load_segment, load_segments, map_pages, map_image, on_machine, len,
  granule_size, coarsen_footprint,
}

-- Every page has all rights.
abbrev pub AllRights : Pages → Type 0
AllRights pages = All (λ p. p.1 ≡ all_rights) pages

add_flags-all : (p_flags : ℕ) → add_flags all_rights p_flags ≡ all_rights
add_flags-all p_flags = ground arith

AllRights-take : (n : ℕ) (pages : Pages) → AllRights pages → AllRights (take n pages)
AllRights-take zero pages h = tt
AllRights-take (suc n) [] h = tt
AllRights-take (suc n) (p ∷ pages) h = (h.0, AllRights-take n pages h.1)

AllRights-drop : (n : ℕ) (pages : Pages) → AllRights pages → AllRights (drop n pages)
AllRights-drop zero pages h = h
AllRights-drop (suc n) [] h = tt
AllRights-drop (suc n) (p ∷ pages) h = AllRights-drop n pages h.1

AllRights-append :
    (pages more : Pages) → AllRights pages → AllRights more → AllRights (pages ++ more)
AllRights-append [] more h k = k
AllRights-append (p ∷ pages) more h k = (h.0, AllRights-append pages more h.1 k)

-- What follows a call may be replaced by what does the same on its results.
bind_same :
    {S E A B : Type 0} (P : A → Type 0) (op : Exec S E A) (f g : A → Exec S E B) (s : S)
    → Returns P (op s)
    → ((a : A) → P a → (t : S) → f a t ≡ g a t)
    → (op >>= f) s ≡ (op >>= g) s
bind_same {S = S} {E = E} {A = A} P op f g s h same = on_result (op s) h
  where
    on_result : (q : S × Outcome E A) → Returns P q → continue_with f q ≡ continue_with g q
    on_result (t, ok a) h = same a h t
    on_result (t, err e) h = refl
    on_result (t, panic) h = refl

-- The flags of a segment set.
abbrev pub with_flags : (Segment → ℕ) → Segment → Segment
with_flags f seg = record seg { p_flags = some (f seg) }

module _ (S E : Type 0) where
  add_rights-all :
      (flags : Option ℕ) (s : S)
      → Returns (λ r. r ≡ all_rights) (add_rights {E = E} all_rights flags s)
  unfolding add_rights
  add_rights-all none s = tt
  add_rights-all (some p_flags) s = add_flags-all p_flags

  add_rights_first-all :
      (n : ℕ) (flags : Option ℕ) (pages : Pages) (s : S)
      → AllRights pages
      → Returns AllRights (add_rights_first {E = E} n flags pages s)
  unfolding add_rights_first
  add_rights_first-all zero flags pages s h = h
  add_rights_first-all (suc n) flags [] s h = tt
  add_rights_first-all (suc n) flags ((page, rights) ∷ pages) s h =
      >>=-After (λ r. r ≡ all_rights) AllRights (add_rights rights flags)
        (λ r. do rest ← add_rights_first n flags pages; pure ((page, r) ∷ rest)) s
        (subst (λ r. Returns (λ x. x ≡ all_rights) (add_rights {E = E} r flags s)) (sym h.0)
          (add_rights-all flags s))
        (λ r e t.
          >>=-After AllRights AllRights (add_rights_first {E = E} n flags pages)
            (λ rest. pure ((page, r) ∷ rest)) t (add_rights_first-all n flags pages t h.1)
            (λ rest k t'. (e, k)))

  -- Flags add nothing to all rights.
  add_rights-flags :
      (f g : ℕ) → add_rights {S = S} {E = E} all_rights (some f) ≡ add_rights all_rights (some g)
  unfolding add_rights
  add_rights-flags f g = rw (add_flags-all f, add_flags-all g) refl

  add_rights_first-flags :
      (n f g : ℕ) (pages : Pages)
      → AllRights pages
      → add_rights_first {S = S} {E = E} n (some f) pages ≡ add_rights_first n (some g) pages
  unfolding add_rights_first
  add_rights_first-flags zero f g pages h = refl
  add_rights_first-flags (suc n) f g [] h = refl
  add_rights_first-flags (suc n) f g ((page, rights) ∷ pages) h =
      let same : add_rights {S = S} {E = E} rights (some f) ≡ add_rights rights (some g) =
        subst (λ r. add_rights {S = S} {E = E} r (some f) ≡ add_rights r (some g)) (sym h.0)
          (add_rights-flags f g) in
      ap
        (λ (first : Exec S E _). do
          r ← first
          rest ← add_rights_first {S = S} {E = E} n (some f) pages
          pure ((page, r) ∷ rest))
        same
      ∙ ap
          (λ (others : Exec S E Pages). do
            r ← add_rights {S = S} {E = E} rights (some g)
            rest ← others
            pure ((page, r) ∷ rest))
          (add_rights_first-flags n f g pages h.1)

module _ (k : Kernel) (l : Loader k) (E : Type 0) where
  take_pages-all : (n : ℕ) (m : Machine k) → Returns AllRights (take_pages {k = k} {E = E} n m)
  unfolding take_pages
  take_pages-all zero m = tt
  take_pages-all (suc n) m =
      >>=-Returns AllRights (allocate_and_retyped_fixed_sized {E = E} k.granule)
        (λ page. do rest ← take_pages n; pure ((page, all_rights) ∷ rest)) m
        (λ page t.
          >>=-After AllRights AllRights (take_pages {k = k} {E = E} n)
            (λ rest. pure ((page, all_rights) ∷ rest)) t (take_pages-all n t)
            (λ rest h t'. (refl, h)))

  -- The end of `load_segment`.
  rights_of_segment :
      (caller free n filled offset at : ℕ) (flags : Option ℕ) (bytes : List ℕ) (pages : Pages)
      (m : Machine k)
      → AllRights pages
      → Returns AllRights (
          (do
            rights ← add_rights_first n flags (drop offset pages)
            to_fill ← slice offset filled (take offset pages ++ rights)
            copy_data l {E = E} caller free to_fill bytes at
            pure (take offset pages ++ rights))
            m)
  rights_of_segment caller free n filled offset at flags bytes pages m h =
      >>=-After AllRights AllRights (add_rights_first {E = E} n flags (drop offset pages))
        (λ rights. do
          to_fill ← slice offset filled (take offset pages ++ rights)
          copy_data l {E = E} caller free to_fill bytes at
          pure (take offset pages ++ rights))
        m
        (add_rights_first-all (Machine k) E n flags (drop offset pages) m
          (AllRights-drop offset pages h))
        (λ rights r t. search (>>=-Returns, AllRights-append, AllRights-take, h, r))

  load_segment-all :
      (caller free : ℕ) (image : Range) (pages : Pages) (seg : Segment) (m : Machine k)
      → AllRights pages
      → Returns AllRights (load_segment l {E = E} caller free image pages seg m)
  unfolding load_segment
  load_segment-all caller free image pages seg m h = search (>>=-Returns, rights_of_segment, h)

  load_segment-flags :
      (caller free : ℕ) (image : Range) (pages : Pages) (seg : Segment) (f g : ℕ) (m : Machine k)
      → AllRights pages
      → load_segment l {E = E} caller free image pages (record seg { p_flags = some f }) m
        ≡ load_segment l caller free image pages (record seg { p_flags = some g }) m
  unfolding load_segment
  load_segment-flags caller free image pages seg f g m h =
      let spanned : Range =
        coarsen_footprint (record { start = seg.address; end = wrap64 (seg.address + seg.size) })
          granule_size in
      let offset : ℕ = (spanned.start - image.start) / granule_size in
      rw
        (add_rights_first-flags (Machine k) E (len spanned / granule_size) f g (drop offset pages)
          (AllRights-drop offset pages h))
        refl

  load_segments-flags :
      (caller free : ℕ) (image : Range) (f g : Segment → ℕ) (segments : List Segment)
      (pages : Pages) (m : Machine k)
      → AllRights pages
      → load_segments l {E = E} caller free image pages (map (with_flags f) segments) m
        ≡ load_segments l caller free image pages (map (with_flags g) segments) m
  unfolding load_segments
  load_segments-flags caller free image f g [] pages m h = refl
  load_segments-flags caller free image f g (seg ∷ segments) pages m h =
      ap
        (continue_with
          (λ pages'. load_segments l caller free image pages' (map (with_flags f) segments)))
        (load_segment-flags caller free image pages seg (f seg) (g seg) m h)
      ∙ bind_same AllRights (load_segment l {E = E} caller free image pages (with_flags g seg))
          (λ pages'. load_segments l caller free image pages' (map (with_flags f) segments))
          (λ pages'. load_segments l caller free image pages' (map (with_flags g) segments)) m
          (load_segment-all caller free image pages (with_flags g seg) m h)
          (λ pages' h' t. load_segments-flags caller free image f g segments pages' t h')

  kept_rights :
      (q : Machine k × Outcome E Pages) (c : Space k)
      → Returns AllRights q
      → Returns AllRights (let (m, r) = q in (record c { machine = m }, r))
  kept_rights (m, ok pages) c h = h
  kept_rights (m, err e) c h = tt
  kept_rights (m, panic) c h = tt

  -- The flags of the segments have no effect: mapping an image leaves the same kernel, allocator and
  -- map of pages, with the same outcome, whichever flags each of its segments has.
  pub map_image-with_flags :
      (vspace caller free : ℕ) (range : Range) (f g : Segment → ℕ) (segments : List Segment)
      (c : Space k)
      → map_image l {E = E} vspace range (map (with_flags f) segments) caller free c
        ≡ map_image l vspace range (map (with_flags g) segments) caller free c
  unfolding map_image
  map_image-with_flags vspace caller free range f g segments c =
      bind_same AllRights (on_machine (take_pages {k = k} {E = E} (len range / granule_size)))
        (λ pages. do
          pages' ←
              on_machine (load_segments l caller free range pages (map (with_flags f) segments))
          map_pages l vspace (range.start) pages')
        (λ pages. do
          pages' ←
              on_machine (load_segments l caller free range pages (map (with_flags g) segments))
          map_pages l vspace (range.start) pages')
        c
        (kept_rights (take_pages {k = k} {E = E} (len range / granule_size) c.machine) c
          (take_pages-all (len range / granule_size) c.machine))
        (λ pages h t.
          ap
            (λ (q : Machine k × Outcome E Pages).
              continue_with (map_pages l vspace (range.start)) (record t { machine = q.0 }, q.1))
            (load_segments-flags caller free range f g segments pages t.machine h))
