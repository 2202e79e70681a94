-- ===== src/KernelThread/Copy.antt =====
-- `process_item_list` of crates/kernel-thread/src/utils.rs and `sys_write` of
-- crates/kernel-thread/src/syscall/fs/io.rs: user memory is worked on page by page.
pub mod Covers
pub mod Holes
pub mod Keeps
use rust_root_task_demo_mi_d.Prelude.{
  ℕ, zero, suc, ◌+◌, ◌-◌, ◌*◌, min, Bool, true, false, ◌&&◌, not, Option, none, some, ltb, ◌==◌,
  if◌then◌else◌, wrap64, Exec, pure, fail, unwrapped, ◌>>=◌, ◌>>◌,
}
use rust_root_task_demo_mi_d.BTree.{BTreeMap, get}
use rust_root_task_demo_mi_d.Crates.{MemoryAddr}
use rust_root_task_demo_mi_d.KernelThread.Server.{Errno, einval, efault, enosys}
use rust_root_task_demo_mi_d.KernelThread.Thread.{align_page}

-- What the loops call of the kernel, on its state with the memory that they work on: the copy of a
-- page's capability into slot 0, its mapping at the seat page, and the two undone.
pub record Seat : Type 1 where
  pub State : Type 0
  pub Error : Type 0
  pub page_seat_vaddr : ℕ
  pub copy_cap : ℕ → Exec State Error (Unit {0})
  pub map_seat : Exec State Error (Unit {0})
  pub unmap_seat : Exec State Error (Unit {0})
  pub delete_cap : Exec State Error (Unit {0})
  -- `seL4_DebugPutChar` on a number of bytes of the seat page from an offset on.
  pub put_chars : ℕ → ℕ → Exec State Error (Unit {0})

abbrev pub count_of : Option ℕ → ℕ
count_of none = 1
count_of (some number) = number

abbrev pub is_single : Option ℕ → Bool
is_single none = true
is_single (some number) = false

module _ (mem : MemoryAddr) (k : Seat) where
  -- The body of the loop on a page that is mapped.
  unfoldable pub with_seat : ℕ → Exec k.State Errno (Unit {0}) → Exec k.State Errno (Unit {0})
  with_seat cap work = do
    unwrapped (k.copy_cap cap)
    unwrapped k.map_seat
    work
    unwrapped k.unmap_seat
    unwrapped k.delete_cap

  -- The bytes of a page from an address on, or all that are left.
  abbrev pub copy_len : ℕ → ℕ → ℕ
  copy_len buf_addr len = min (4096 - mem.align_offset_4k buf_addr) len

  abbrev pub at_page :
      {A : Type 0}
      → Option ℕ
      → Exec k.State Errno A
      → (ℕ → Exec k.State Errno A)
      → Exec k.State Errno A
  at_page none hole work = hole
  at_page (some cap) hole work = work cap

  -- The loop of `process_item_list`, by rounds; each copies at least a byte.
  unfoldable pub process_rounds :
      ℕ
      → BTreeMap ℕ
      → (ℕ → ℕ → ℕ → Exec k.State Errno (Unit {0}))
      → ℕ
      → ℕ
      → ℕ
      → Exec k.State Errno ℕ
  process_rounds zero pages f addr buf_addr len = pure (mem.sub buf_addr addr)
  process_rounds (suc rounds) pages f addr buf_addr len =
      let n : ℕ = copy_len buf_addr len in
      let rest : Exec k.State Errno ℕ =
        process_rounds rounds pages f addr (mem.add buf_addr n) (len - n) in
      if len == 0
      then pure (mem.sub buf_addr addr)
      else at_page (get pages (align_page buf_addr)) (fail efault) (λ cap. do
        with_seat cap
            (f (k.page_seat_vaddr + mem.align_offset_4k buf_addr) (mem.sub buf_addr addr) n)
        rest)

  -- `process_item_list` on items of `size` bytes.
  unfoldable pub process_item_list :
      ℕ
      → BTreeMap ℕ
      → ℕ
      → Option ℕ
      → (ℕ → ℕ → ℕ → Exec k.State Errno (Unit {0}))
      → Exec k.State Errno ℕ
  process_item_list size pages addr number f =
      if is_single number && ltb 4096 (size + mem.align_offset_4k addr)
      then fail einval
      else let len : ℕ = wrap64 (size * count_of number) in process_rounds len pages f addr addr len

  -- The loop of `sys_write`, by rounds: `none` where it has not ended by then.
  unfoldable pub write_rounds : ℕ → BTreeMap ℕ → ℕ → ℕ → ℕ → Exec k.State Errno (Option ℕ)
  write_rounds zero pages buf_addr count payload_length = pure none
  write_rounds (suc rounds) pages buf_addr count payload_length =
      let n : ℕ = copy_len buf_addr count in
      let again : Exec k.State Errno (Option ℕ) =
        write_rounds rounds pages buf_addr count payload_length in
      let rest : Exec k.State Errno (Option ℕ) =
        write_rounds rounds pages (mem.add buf_addr n) (count - n) (payload_length + n) in
      if count == 0
      then pure (some payload_length)
      else at_page (get pages (align_page buf_addr)) again
          (λ cap. do with_seat cap (unwrapped (k.put_chars (mem.align_offset_4k buf_addr) n)); rest)

  -- `sys_write` behind the lookup of its task.
  unfoldable pub write_task : ℕ → BTreeMap ℕ → ℕ → ℕ → ℕ → Exec k.State Errno (Option ℕ)
  write_task rounds pages fd buf count =
      if not (fd == 1) && not (fd == 2) then fail enosys else write_rounds rounds pages buf count 0
