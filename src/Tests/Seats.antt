-- ===== src/Tests/Seats.antt =====
-- Work on user memory in the kernel thread, where the state counts the bytes that are done.
use rust_root_task_demo_mi_d.Prelude.{
  ℕ, ◌+◌, ◌*◌, ◌≡◌, refl, ap, [], ◌∷◌, none, some, inl, arith, Exec, ok,
}
use rust_root_task_demo_mi_d.BTree.{BTreeMap, get}
use rust_root_task_demo_mi_d.KernelThread.Server.{Errno}
use rust_root_task_demo_mi_d.KernelThread.Copy.{Seat, process_item_list, with_seat, write_task}
use rust_root_task_demo_mi_d.KernelThread.Copy.Covers.{Advances, process_item_list_lem}
use rust_root_task_demo_mi_d.KernelThread.Copy.Holes.{write_task-hole}
use rust_root_task_demo_mi_d.Tests.ToyMapping.{toy_memory_addr}

abbrev counting : Seat
counting = record {
  State = ℕ;
  Error = Unit {0};
  page_seat_vaddr = 0x10_0000;
  copy_cap = λ cap s. (s, ok tt);
  map_seat = λ s. (s, ok tt);
  unmap_seat = λ s. (s, ok tt);
  delete_cap = λ s. (s, ok tt);
  put_chars = λ from n s. (s + n, ok tt);
}

abbrev count_bytes : ℕ → ℕ → ℕ → Exec ℕ Errno (Unit {0})
count_bytes seat off n s = (s + n, ok tt)

abbrev IsCounted : ℕ → ℕ → Type 0
IsCounted off s = s ≡ off

abbrev one_page : BTreeMap ℕ
one_page = (0x1000, 60) ∷ []

counting-Advances : Advances toy_memory_addr counting one_page count_bytes 0x1ff0 (4 * 4) IsCounted
unfolding with_seat
counting-Advances = record {
  step = λ off n cap s pos within inside found done. (s + n, refl, omega arith);
}

process_item_list_example :
    (s' : ℕ) × (process_item_list toy_memory_addr counting 4 one_page 0x1ff0 (some 4) count_bytes 0
      ≡ (s', ok 16))
    × IsCounted 16 s'
unfolding get
process_item_list_example =
    process_item_list_lem toy_memory_addr counting one_page count_bytes 0x1ff0 4 4 IsCounted 0
      counting-Advances (λ i h. (60, ap (get one_page) {y = 0x1000} (omega arith))) (omega arith)
      refl

write_task_example : write_task toy_memory_addr counting 1000 one_page 1 0x5000 3 7 ≡ (7, ok none)
unfolding get
write_task_example =
    write_task-hole toy_memory_addr counting one_page 0x5000 3 1000 1 7 (inl refl) (omega arith)
      refl
