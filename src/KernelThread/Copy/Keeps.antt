-- ===== src/KernelThread/Copy/Keeps.antt =====
-- What the work on user memory, `process_item_list` of crates/kernel-thread/src/utils.rs and
-- `sys_write` of crates/kernel-thread/src/syscall/fs/io.rs, leaves as it is.
use rust_root_task_demo_mi_d.Prelude.{
  ℕ, zero, suc, ◌+◌, ◌-◌, refl, Option, Exec, Bool-cases, inl, inr, ◌==◌, ◌&&◌, not, ltb, Keeps,
  >>=-Keeps, unwrapped-Keeps, unwrapped, Option-cases,
}
use rust_root_task_demo_mi_d.BTree.{BTreeMap, get}
use rust_root_task_demo_mi_d.Crates.{MemoryAddr}
use rust_root_task_demo_mi_d.KernelThread.Server.{Errno}
use rust_root_task_demo_mi_d.KernelThread.Thread.{align_page}
use rust_root_task_demo_mi_d.KernelThread.Copy.{
  Seat, with_seat, is_single, copy_len, process_rounds, process_item_list, write_rounds, write_task,
}

-- The kernel's calls leave a part of the state as it is.
pub record SeatKeeps (k : Seat) (X : Type 0) (part : k.State → X) : Type 0 where
  pub copy : (cap : ℕ) → Keeps part (k.copy_cap cap)
  pub map : Keeps part k.map_seat
  pub unmap : Keeps part k.unmap_seat
  pub delete : Keeps part k.delete_cap
  pub put : (offset n : ℕ) → Keeps part (k.put_chars offset n)

module _ (mem : MemoryAddr) (k : Seat) (X : Type 0) (part : k.State → X)
    (keeps : SeatKeeps k X part) where
  with_seat-Keeps :
      (cap : ℕ) (work : Exec k.State Errno (Unit {0}))
      → Keeps part work
      → Keeps part (with_seat mem k cap work)
  unfolding with_seat
  with_seat-Keeps cap work h =
      search (>>=-Keeps, unwrapped-Keeps, keeps.copy, keeps.map, keeps.unmap, keeps.delete, h)

  process_rounds-Keeps :
      (rounds : ℕ) (pages : BTreeMap ℕ) (f : ℕ → ℕ → ℕ → Exec k.State Errno (Unit {0}))
      (addr buf_addr len : ℕ)
      → ((src offset n : ℕ) → Keeps part (f src offset n))
      → Keeps part (process_rounds mem k rounds pages f addr buf_addr len)
  unfolding process_rounds
  process_rounds-Keeps zero pages f addr buf_addr len h s = refl
  process_rounds-Keeps (suc rounds) pages f addr buf_addr len h s = elim (Bool-cases (len == 0)) [
    | inl done ↦ rw done refl
    | inr more ↦ elim (Option-cases (get pages (align_page buf_addr))) [
      | inl hole ↦ rw (more, hole) refl
      | inr (cap, there) ↦
          rw (more, there)
            (>>=-Keeps part
              (with_seat mem k cap (
                f (k.page_seat_vaddr + mem.align_offset_4k buf_addr) (mem.sub buf_addr addr)
                  (copy_len mem k buf_addr len)))
              (λ _.
                process_rounds mem k rounds pages f addr
                  (mem.add buf_addr (copy_len mem k buf_addr len))
                  (len - copy_len mem k buf_addr len))
              (with_seat-Keeps cap _ (h _ _ _))
              (λ _. process_rounds-Keeps rounds pages f addr _ _ h) s)
    ]
  ]

  pub process_item_list-Keeps :
      (size : ℕ) (pages : BTreeMap ℕ) (addr : ℕ) (number : Option ℕ)
      (f : ℕ → ℕ → ℕ → Exec k.State Errno (Unit {0}))
      → ((src offset n : ℕ) → Keeps part (f src offset n))
      → Keeps part (process_item_list mem k size pages addr number f)
  unfolding process_item_list
  process_item_list-Keeps size pages addr number f h s =
      elim (Bool-cases (is_single number && ltb 4096 (size + mem.align_offset_4k addr))) [
        | inl refused ↦ rw refused refl
        | inr fits ↦ rw fits (process_rounds-Keeps _ pages f addr addr _ h s)
      ]

  write_rounds-Keeps :
      (rounds : ℕ) (pages : BTreeMap ℕ) (buf_addr count payload_length : ℕ)
      → Keeps part (write_rounds mem k rounds pages buf_addr count payload_length)
  unfolding write_rounds
  write_rounds-Keeps zero pages buf_addr count payload_length s = refl
  write_rounds-Keeps (suc rounds) pages buf_addr count payload_length s =
      elim (Bool-cases (count == 0)) [
        | inl done ↦ rw done refl
        | inr more ↦ elim (Option-cases (get pages (align_page buf_addr))) [
          | inl hole ↦
              rw (more, hole) (write_rounds-Keeps rounds pages buf_addr count payload_length s)
          | inr (cap, there) ↦
              rw (more, there)
                (>>=-Keeps part
                  (with_seat mem k cap (
                    unwrapped
                      (k.put_chars (mem.align_offset_4k buf_addr) (copy_len mem k buf_addr count))))
                  (λ _.
                    write_rounds mem k rounds pages
                      (mem.add buf_addr (copy_len mem k buf_addr count))
                      (count - copy_len mem k buf_addr count)
                      (payload_length + copy_len mem k buf_addr count))
                  (with_seat-Keeps cap _ (unwrapped-Keeps Errno part _ (keeps.put _ _)))
                  (λ _. write_rounds-Keeps rounds pages _ _ _) s)
        ]
      ]

  pub write_task-Keeps :
      (rounds : ℕ) (pages : BTreeMap ℕ) (fd buf count : ℕ)
      → Keeps part (write_task mem k rounds pages fd buf count)
  unfolding write_task
  write_task-Keeps rounds pages fd buf count s =
      elim (Bool-cases (not (fd == 1) && not (fd == 2))) [
        | inl refused ↦ rw refused refl
        | inr served ↦ rw served (write_rounds-Keeps rounds pages buf count 0 s)
      ]
