-- ===== src/KernelThread/Mm.antt =====
-- The memory system calls, crates/kernel-thread/src/syscall/mm/brk.rs and mmap.rs.
pub mod Ranges
pub mod Brk
pub mod Mmap
pub mod Unmap
use rust_root_task_demo_mi_d.Prelude.{
  ℕ, ◌+◌, Bool, true, false, ◌||◌, List, [], ◌∷◌, Option, none, some, ltb, if◌then◌else◌, ok, Exec,
  pure, fail, unwrap, ok_or, ◌>>=◌, ◌>>◌,
}
use rust_root_task_demo_mi_d.BTree.{get}
use rust_root_task_demo_mi_d.Sel4.{Kernel}
use rust_root_task_demo_mi_d.Crates.{MemoryAddr, Bitflags}
use rust_root_task_demo_mi_d.KernelThread.Task.{
  Context, update_task, brk, map_new_page, unmap_page, find_free_area,
}
use rust_root_task_demo_mi_d.KernelThread.Server.{Server, Errno, einval, enomem, with_task}

abbrev pub uspace_heap_base : ℕ
uspace_heap_base = 0x1_0000_0000

abbrev pub uspace_heap_size : ℕ
uspace_heap_size = 0x10_0000

-- The bits that `MmapFlags` and `MmapProt` declare.
abbrev pub map_fixed : ℕ
map_fixed = 0x10

abbrev pub mmap_flags : ℕ
mmap_flags = 0x1 + 0x2 + map_fixed + 0x20 + 0x4000 + 0x2_0000

abbrev pub mmap_prot : ℕ
mmap_prot = 0x1 + 0x2 + 0x4

module _ {k : Kernel} where
  -- `if addr > task.heap { task.brk(addr); }`
  unfoldable pub grow_heap : {E : Type 0} → ℕ → Exec (Context k) E (Unit {0})
  grow_heap addr c = if ltb c.task.heap addr then (do end ← brk addr; pure tt) c else (c, ok tt)

  -- `sys_brk` behind the lookup of its task.
  unfoldable pub brk_task : ℕ → Exec (Context k) Errno ℕ
  brk_task addr =
      if ltb addr uspace_heap_base || ltb (uspace_heap_base + uspace_heap_size) addr
      then fail enomem
      else (do grow_heap addr; update_task (λ t. record t { heap = addr }); pure 0)

  unfoldable pub sys_brk : ℕ → ℕ → Exec (Server k) Errno ℕ
  unfolding with_task brk_task
  sys_brk badge addr = with_task badge (brk_task addr)

  -- A page of the loop of `sys_mmap`: one that is mapped already is left.
  unfoldable pub map_missing_page : {E : Type 0} → ℕ → Option ℕ → Exec (Context k) E (Unit {0})
  map_missing_page vaddr (some _) = pure tt
  map_missing_page vaddr none = map_new_page vaddr

  unfoldable pub map_missing_pages : {E : Type 0} → List ℕ → Exec (Context k) E (Unit {0})
  map_missing_pages [] = pure tt
  map_missing_pages (vaddr ∷ rest) =
      λ c. (do map_missing_page vaddr (get c.task.mapped_page vaddr); map_missing_pages rest) c

  -- A page of the loop of `sys_unmap`: one that is not mapped is left.
  unfoldable pub unmap_present_page : {E : Type 0} → ℕ → Option ℕ → Exec (Context k) E (Unit {0})
  unmap_present_page vaddr none = pure tt
  unmap_present_page vaddr (some page) = unmap_page vaddr page

  unfoldable pub unmap_pages : {E : Type 0} → List ℕ → Exec (Context k) E (Unit {0})
  unmap_pages [] = pure tt
  unmap_pages (vaddr ∷ rest) =
      λ c. (do unmap_present_page vaddr (get c.task.mapped_page vaddr); unmap_pages rest) c

  module _ (mem : MemoryAddr) (bits : Bitflags) where
    -- The pages that the bytes of an area lie in; `expect` on the iterator.
    unfoldable pub area_pages : {E : Type 0} → ℕ → ℕ → Exec (Context k) E (List ℕ)
    area_pages start_addr length = unwrap (
        mem.page_iter_4k (mem.align_down_4k start_addr)
          (mem.align_up_4k (mem.add start_addr length)))

    -- The start of the mapping: as asked for under MAP_FIXED, else a free area.
    unfoldable pub mmap_start : {E : Type 0} → ℕ → ℕ → ℕ → Exec (Context k) E ℕ
    mmap_start map_flags addr length c =
        if bits.contains map_flags map_fixed
        then (c, ok addr)
        else unwrap (find_free_area c.task addr length) c

    -- `sys_mmap` behind the lookup of its task.
    unfoldable pub mmap_task : ℕ → ℕ → ℕ → ℕ → Exec (Context k) Errno ℕ
    mmap_task addr length prot flags = do
      map_flags ← ok_or (bits.from_bits mmap_flags flags) einval
      permission_flags ← ok_or (bits.from_bits mmap_prot prot) einval
      start_addr ← mmap_start map_flags addr length
      pages ← area_pages start_addr length
      map_missing_pages pages
      pure start_addr

    unfoldable pub sys_mmap : ℕ → ℕ → ℕ → ℕ → ℕ → Exec (Server k) Errno ℕ
    unfolding with_task mmap_task
    sys_mmap badge addr length prot flags = with_task badge (mmap_task addr length prot flags)

    -- `sys_unmap` behind the lookup of its task.
    unfoldable pub unmap_task : ℕ → ℕ → Exec (Context k) Errno ℕ
    unmap_task addr length = do pages ← area_pages addr length; unmap_pages pages; pure 0

    unfoldable pub sys_unmap : ℕ → ℕ → ℕ → Exec (Server k) Errno ℕ
    unfolding with_task unmap_task
    sys_unmap badge addr length = with_task badge (unmap_task addr length)
