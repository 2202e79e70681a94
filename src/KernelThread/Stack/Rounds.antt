-- ===== src/KernelThread/Stack/Rounds.antt =====
-- The rounds of `load_elf`, crates/kernel-thread/src/task.rs.
use rust_root_task_demo_mi_d.Prelude.{
  ℕ, zero, suc, ◌+◌, ◌-◌, ◌*◌, ◌/◌, ◌%◌, ◌^◌, ◌≤◌, ◌≡◌, refl, List, arith, ltb, ltb-ge, Bool-cases,
  inl, inr, continue_with-alike, wrap64, ◌>>=◌, ◌>>◌, Exec,
}
use rust_root_task_demo_mi_d.BTree.{BTreeMap, get}
use rust_root_task_demo_mi_d.Sel4.{Kernel}
use rust_root_task_demo_mi_d.KernelThread.Task.{Context, on_machine, map_page}
use rust_root_task_demo_mi_d.KernelThread.Stack.{
  Desktop, page_for, copy_to, load_page, put_page, load_rounds,
}

module _ {k : Kernel} (E : Type 0) (desk : Desktop k) where
  load_page-alike :
      (f g : ℕ → ℕ → Exec (Context k) E (BTreeMap ℕ)) (elf_data : List ℕ) (offset end vaddr : ℕ)
      (mapped_page : BTreeMap ℕ) (c : Context k)
      → ((page_cap copied : ℕ) (s : Context k) → f page_cap copied s ≡ g page_cap copied s)
      → load_page desk f elf_data offset end vaddr mapped_page c
        ≡ load_page desk g elf_data offset end vaddr mapped_page c
  load_page-alike f g elf_data offset end vaddr mapped_page c h =
      let page : ℕ = vaddr / 4096 * 4096 in
      continue_with-alike
        (λ page_cap. do
          copied ← on_machine (copy_to desk elf_data page_cap offset end vaddr)
          map_page page page_cap
          f page_cap copied)
        (λ page_cap. do
          copied ← on_machine (copy_to desk elf_data page_cap offset end vaddr)
          map_page page page_cap
          g page_cap copied)
        (on_machine (page_for desk (get mapped_page page)) c)
        (λ page_cap s.
          continue_with-alike (λ copied. do map_page page page_cap; f page_cap copied)
            (λ copied. do map_page page page_cap; g page_cap copied)
            (on_machine (copy_to desk elf_data page_cap offset end vaddr) s)
            (λ copied t.
              continue_with-alike (λ _. f page_cap copied) (λ _. g page_cap copied)
                (map_page page page_cap t) (λ _ v. h page_cap copied v)))

  -- As many rounds as bytes are enough: one more changes nothing, where the segment ends a page
  -- before the end of the address space.
  pub load_rounds-enough :
      (rounds : ℕ) (elf_data : List ℕ) (offset end vaddr vaddr_end : ℕ) (mapped_page : BTreeMap ℕ)
      (c : Context k)
      → vaddr_end ≤ vaddr + rounds
      → vaddr_end + 4096 ≤ 2 ^ 64
      → load_rounds {E = E} desk (suc rounds) elf_data offset end vaddr vaddr_end mapped_page c
        ≡ load_rounds {E = E} desk rounds elf_data offset end vaddr vaddr_end mapped_page c
  unfolding load_rounds
  load_rounds-enough zero elf_data offset end vaddr vaddr_end mapped_page c h fits =
      rw (ltb-ge vaddr vaddr_end (omega arith)) refl
  load_rounds-enough (suc rounds) elf_data offset end vaddr vaddr_end mapped_page c h fits =
      elim (Bool-cases (ltb vaddr vaddr_end)) [
        | inr done ↦ rw done refl
        | inl more ↦
            let next : vaddr_end ≤ wrap64 (vaddr + (4096 - vaddr % 4096)) + rounds = ground arith in
            rw more (
              load_page-alike (loaded (suc rounds)) (loaded rounds) elf_data offset end vaddr
                mapped_page c
                (λ page_cap copied s.
                  load_rounds-enough rounds elf_data (wrap64 (offset + copied)) end
                    (wrap64 (vaddr + (4096 - vaddr % 4096))) vaddr_end
                    (put_page vaddr page_cap mapped_page) s next fits))
      ]
    where
      loaded : ℕ → ℕ → ℕ → Exec (Context k) E (BTreeMap ℕ)
      loaded n page_cap copied =
          load_rounds desk n elf_data (wrap64 (offset + copied)) end
            (wrap64 (vaddr + (4096 - vaddr % 4096))) vaddr_end (put_page vaddr page_cap mapped_page)
