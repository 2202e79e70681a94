-- ===== src/KernelThread/Mm/Mmap.antt =====
-- `sys_mmap` and `sys_unmap` of crates/kernel-thread/src/syscall/mm/mmap.rs.
use rust_root_task_demo_mi_d.Prelude.{
  ℕ, ◌+◌, ◌-◌, ◌*◌, ◌/◌, ◌^◌, ◌%◌, ◌<◌, ◌≤◌, ◌≡◌, refl, ◌⊎◌, inl, inr, none, some, arith,
  Option-cases, ok, err,
}
use rust_root_task_demo_mi_d.Crates.{steps, MemoryAddr, Bitflags}
use rust_root_task_demo_mi_d.Sel4.{Kernel, MapLaws}
use rust_root_task_demo_mi_d.KernelThread.Task.{Context}
use rust_root_task_demo_mi_d.KernelThread.Task.Tables.{Budget}
use rust_root_task_demo_mi_d.KernelThread.Task.Mapping.{IsConsistent}
use rust_root_task_demo_mi_d.KernelThread.Server.{Errno, einval}
use rust_root_task_demo_mi_d.KernelThread.Mm.{
  mmap_flags, mmap_prot, mmap_start, area_pages, mmap_task,
}
use rust_root_task_demo_mi_d.KernelThread.Mm.Ranges.{per_page, MapsRange, map_missing_pages_lem}

-- The first page of an area, and how many pages its bytes lie in.
abbrev pub first_page : ℕ → ℕ
first_page addr = addr / 4096 * 4096

abbrev pub page_count : ℕ → ℕ → ℕ
page_count addr length = (addr + length + 4095) / 4096 - addr / 4096

module _ {k : Kernel} (mem : MemoryAddr) (bits : Bitflags) where
  -- The pages of an area that does not pass the end of the address space.
  pub area_pages_lem :
      {E : Type 0} (addr length : ℕ) (c : Context k)
      → addr + length + 4095 < 2 ^ 64
      → area_pages {k = k} mem bits {E = E} addr length c
        ≡ (c, ok (steps 4096 (first_page addr) (page_count addr length)))
  unfolding area_pages
  area_pages_lem addr length c h =
      let end : mem.add addr length ≡ addr + length = mem.add_lem addr length (omega arith) in
      rw
        (
          mem.align_down_4k_lem addr,
          end,
          mem.align_up_4k_lem (addr + length) h,
          mem.page_iter_4k_lem (first_page addr) ((addr + length + 4095) / 4096 * 4096)
              (page_count addr length) (omega arith) (omega arith),
        )
        refl

  -- Flags or protection bits that are not declared are refused, and nothing changes.
  pub mmap_task_einval :
      (addr length prot flags : ℕ) (c : Context k)
      → (bits.from_bits mmap_flags flags ≡ none) ⊎ (bits.from_bits mmap_prot prot ≡ none)
      → mmap_task {k = k} mem bits addr length prot flags c ≡ (c, err einval)
  unfolding mmap_task
  mmap_task_einval addr length prot flags c (inl e) = rw e
  mmap_task_einval addr length prot flags c (inr e) =
      elim (Option-cases (bits.from_bits mmap_flags flags)) [
        | inl f ↦ rw f
        | inr (x, f) ↦ rw (f, e)
      ]

module _ (k : Kernel) (laws : MapLaws k) (mem : MemoryAddr) (bits : Bitflags) where
  -- A mapping with declared flags and protection bits, of an area in user space, which ends on a page,
  -- succeeds where the task's pages are those of the kernel and while slots and memory last, and
  -- returns its start, whether asked for or found: every page of the area is mapped, pages that were
  -- mapped keep their frames, nothing changes outside the area, and the task's pages are still those
  -- of the kernel.
  pub mmap_task_lem :
      (addr length prot flags f p start : ℕ) (c : Context k)
      → bits.from_bits mmap_flags flags ≡ some f
      → bits.from_bits mmap_prot prot ≡ some p
      → mmap_start {k = k} mem bits {E = Errno} f addr length c ≡ (c, ok start)
      → start + length + 4095 < 2 ^ 64
      → start + length ≤ laws.user_top
      → laws.user_top % 4096 ≡ 0
      → IsConsistent k laws c
      → Budget k laws (page_count start length * per_page k + 0) c.machine
      → (c' : Context k) × (mmap_task {k = k} mem bits addr length prot flags c ≡ (c', ok start))
        × MapsRange (first_page start) (page_count start length) c.task c'.task
        × IsConsistent k laws c'
  unfolding mmap_task
  mmap_task_lem addr length prot flags f p start c ef ep es fits user top before budget =
      let (c', e, range, after, left) =
        map_missing_pages_lem k laws Errno (page_count start length) 0 (first_page start) c
          (omega arith) (omega arith) before budget in
      (c', rw (ef, ep, es, area_pages_lem mem bits start length c fits, e) refl, range, after)
