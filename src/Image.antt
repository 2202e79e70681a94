-- ===== src/Image.antt =====
-- ELF images in a new address space, crates/common/src/utils.rs: the pages that an image takes, the
-- tables on the way to them, and the pages filled and mapped.
pub mod Footprint
pub mod Pages
pub mod Rights
use rust_root_task_demo_mi_d.Prelude.{
  ℕ, zero, suc, ◌+◌, ◌-◌, ◌*◌, ◌/◌, ◌%◌, ◌^◌, min, max, Bool, true, false, not, List, [], ◌∷◌, ◌++◌,
  Option, none, some, ltb, ◌==◌, if◌then◌else◌, length, take, drop, wrap64, Outcome, ok, Exec, pure,
  abort, unwrap, ◌>>=◌, ◌>>◌,
}
use rust_root_task_demo_mi_d.BTree.{BTreeMap, insert}
use rust_root_task_demo_mi_d.Sel4.{Kernel}
use rust_root_task_demo_mi_d.Alloc.{
  Machine, call, allocate_and_retype, allocate_and_retyped_fixed_sized,
}

-- The further calls of the kernel, by the level of a table, and the copy to the own memory.
pub record Loader (k : Kernel) : Type 0 where
  pub span_bits : ℕ → ℕ
  pub table_blueprint : ℕ → k.Blueprint
  pub table_map : ℕ → ℕ → ℕ → ℕ → Exec k.State k.Error (Unit {0})
  pub copy_from : ℕ → List ℕ → k.State → k.State
  -- `build` on the rights to read, write, grant and grant replies.
  pub build_rights : Bool → Bool → Bool → Bool → k.Rights

pub record Range : Type 0 where
  pub start : ℕ
  pub end : ℕ

-- A segment of an image; the flags are those of an ELF, if it is one.
pub record Segment : Type 0 where
  pub address : ℕ
  pub size : ℕ
  pub bytes : List ℕ
  pub p_flags : Option ℕ

-- `CapRightsBuilder`.
pub record CapRightsBuilder : Type 0 where
  pub grant_reply : Bool
  pub grant : Bool
  pub read : Bool
  pub write : Bool

abbrev pub all_rights : CapRightsBuilder
all_rights = record { grant_reply = true; grant = true; read = true; write = true }

abbrev pub granule_size : ℕ
granule_size = 4096

unfoldable pub round_down : ℕ → ℕ → ℕ
round_down n b = n - n % b

-- `next_multiple_of`, which the sum of a release build wraps.
abbrev pub next_multiple_of : ℕ → ℕ → ℕ
next_multiple_of n b = if n % b == 0 then n else wrap64 (n + (b - n % b))

unfoldable pub coarsen_footprint : Range → ℕ → Range
unfolding round_down
coarsen_footprint footprint granularity = record {
  start = round_down footprint.start granularity;
  end = next_multiple_of footprint.end granularity;
}

-- `Range::len`.
abbrev pub len : Range → ℕ
len r = r.end - r.start

-- `min()` and `max()` of the starts and ends.
abbrev pub least : List ℕ → Option ℕ
least [] = none
least (x ∷ []) = some x
least (x ∷ y ∷ xs) = least (min x y ∷ xs)

abbrev pub greatest : List ℕ → Option ℕ
greatest [] = none
greatest (x ∷ []) = some x
greatest (x ∷ y ∷ xs) = greatest (max x y ∷ xs)

abbrev pub starts : List Segment → List ℕ
starts [] = []
starts (s ∷ segments) = s.address ∷ starts segments

abbrev pub ends : List Segment → List ℕ
ends [] = []
ends (s ∷ segments) = wrap64 (s.address + s.size) ∷ ends segments

unfoldable pub footprint : {S E : Type 0} → List Segment → Exec S E Range
unfolding coarsen_footprint
footprint segments = do
  first ← unwrap (least (starts segments))
  last ← unwrap (greatest (ends segments))
  pure (coarsen_footprint (record { start = first; end = last }) granule_size)

-- `p_flags & flag != 0` for PF_X, PF_W and PF_R.
abbrev pub has_flag : ℕ → ℕ → Bool
has_flag p_flags flag = (p_flags / flag) % 2 == 1

abbrev pub add_flags : CapRightsBuilder → ℕ → CapRightsBuilder
add_flags rights p_flags =
    let r₁ : CapRightsBuilder =
      if has_flag p_flags 4 then record rights { read = true } else rights in
    let r₂ : CapRightsBuilder = if has_flag p_flags 2 then record r₁ { write = true } else r₁ in
    if has_flag p_flags 1 then record r₂ { grant = true } else r₂

-- Flags that are not those of an ELF are unimplemented.
unfoldable pub add_rights : {S E : Type 0} → CapRightsBuilder → Option ℕ → Exec S E CapRightsBuilder
add_rights rights none = abort
add_rights rights (some p_flags) = pure (add_flags rights p_flags)

abbrev pub Pages : Type 0
Pages = List (ℕ × CapRightsBuilder)

-- The loop over the rights of the first `n` pages.
unfoldable pub add_rights_first : {S E : Type 0} → ℕ → Option ℕ → Pages → Exec S E Pages
add_rights_first zero flags pages = pure pages
add_rights_first (suc n) flags [] = abort
add_rights_first (suc n) flags ((page, rights) ∷ pages) = do
  rights' ← add_rights rights flags
  rest ← add_rights_first n flags pages
  pure ((page, rights') ∷ rest)

-- `&pages[offset..][..n]`, a panic out of bounds.
abbrev pub slice : {S E : Type 0} → ℕ → ℕ → Pages → Exec S E Pages
slice offset n pages =
    if ltb (length pages) (offset + n) then abort else pure (take n (drop offset pages))

-- The kernel and the allocator, with the pages of the task that are mapped.
pub record Space (k : Kernel) : Type 0 where
  pub machine : Machine k
  pub mapped_page : BTreeMap ℕ

module _ {k : Kernel} where
  abbrev pub on_machine : {E A : Type 0} → Exec (Machine k) E A → Exec (Space k) E A
  on_machine op c = let (m, r) = op c.machine in (record c { machine = m }, r)

  -- The pages of the image, each with all rights.
  unfoldable pub take_pages : {E : Type 0} → ℕ → Exec (Machine k) E Pages
  take_pages zero = pure []
  take_pages (suc n) = do
    page_cap ← allocate_and_retyped_fixed_sized k.granule
    rest ← take_pages n
    pure ((page_cap, all_rights) ∷ rest)

  module _ (l : Loader k) where
    -- The tables of a level, from an index on.
    unfoldable pub map_tables : {E : Type 0} → ℕ → ℕ → ℕ → ℕ → Exec (Machine k) E (Unit {0})
    map_tables level vspace addr zero = pure tt
    map_tables level vspace addr (suc n) = do
      table ← allocate_and_retype (l.table_blueprint level)
      call (l.table_map level table vspace addr)
      map_tables level vspace (addr + 2 ^ l.span_bits level) n

    -- The levels from one on; `rest` counts those that are left.
    unfoldable pub map_levels : {E : Type 0} → ℕ → ℕ → Range → ℕ → Exec (Machine k) E (Unit {0})
    map_levels level vspace range zero = pure tt
    map_levels level vspace range (suc rest) = do
      let span_bytes = 2 ^ l.span_bits level
      let at_level = coarsen_footprint range span_bytes
      map_tables level vspace (at_level.start) (len at_level / span_bytes)
      map_levels (suc level) vspace range rest

    unfoldable pub map_intermediate_translation_tables :
        {E : Type 0} → ℕ → Range → Exec (Machine k) E (Unit {0})
    unfolding map_levels
    map_intermediate_translation_tables vspace range = map_levels 1 vspace range (k.num_levels - 1)

    -- The data of a segment, page by page; each page is mapped at a free address for the copy.
    unfoldable pub copy_data :
        {E : Type 0} → ℕ → ℕ → Pages → List ℕ → ℕ → Exec (Machine k) E (Unit {0})
    copy_data caller_vspace free_page_addr [] bytes offset_into_page = pure tt
    copy_data caller_vspace free_page_addr ((page, _) ∷ pages) bytes offset_into_page = do
      let data_len = min (granule_size - offset_into_page) (length bytes)
      call (k.frame_map page caller_vspace free_page_addr k.all_rights)
      λ m. (
        record m {
          kernel = l.copy_from (free_page_addr + offset_into_page) (take data_len bytes) m.kernel;
        },
        ok tt,
      )
      call (k.frame_unmap page)
      copy_data caller_vspace free_page_addr pages (drop data_len bytes) 0

    -- A segment: the rights of its pages, then its data.
    unfoldable pub load_segment :
        {E : Type 0} → ℕ → ℕ → Range → Pages → Segment → Exec (Machine k) E Pages
    load_segment caller_vspace free_page_addr image pages seg = do
      let spanned =
          coarsen_footprint (record { start = seg.address; end = wrap64 (seg.address + seg.size) })
            granule_size
      let filled =
          coarsen_footprint
            (record { start = seg.address; end = wrap64 (seg.address + length seg.bytes) })
            granule_size
      if ltb (spanned.start) image.start then abort else pure tt
      let offset = (spanned.start - image.start) / granule_size
      behind ← slice offset (len spanned / granule_size) pages
      rights ← add_rights_first (len spanned / granule_size) seg.p_flags (drop offset pages)
      let pages' = take offset pages ++ rights
      to_fill ← slice offset (len filled / granule_size) pages'
      copy_data caller_vspace free_page_addr to_fill seg.bytes (seg.address % granule_size)
      pure pages'

    unfoldable pub load_segments :
        {E : Type 0} → ℕ → ℕ → Range → Pages → List Segment → Exec (Machine k) E Pages
    load_segments caller_vspace free_page_addr image pages [] = pure pages
    load_segments caller_vspace free_page_addr image pages (seg ∷ segments) = do
      pages' ← load_segment caller_vspace free_page_addr image pages seg
      load_segments caller_vspace free_page_addr image pages' segments

    abbrev pub built : CapRightsBuilder → k.Rights
    built r = l.build_rights r.read r.write r.grant r.grant_reply

    -- The pages mapped one behind the other in the child's address space.
    unfoldable pub map_pages : {E : Type 0} → ℕ → ℕ → Pages → Exec (Space k) E (Unit {0})
    map_pages vspace addr [] = pure tt
    map_pages vspace addr ((page, rights) ∷ pages) = do
      on_machine (call (k.frame_map page vspace addr (built rights)))
      λ c. (record c { mapped_page = insert addr page c.mapped_page }, ok tt)
      map_pages vspace (addr + granule_size) pages

    unfoldable pub map_image :
        {E : Type 0} → ℕ → Range → List Segment → ℕ → ℕ → Exec (Space k) E (Unit {0})
    map_image vspace range segments caller_vspace free_page_addr = do
      pages ← on_machine (take_pages (len range / granule_size))
      pages' ← on_machine (load_segments caller_vspace free_page_addr range pages segments)
      map_pages vspace (range.start) pages'
