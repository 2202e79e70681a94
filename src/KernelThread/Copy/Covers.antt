-- ===== src/KernelThread/Copy/Covers.antt =====
-- `process_item_list` of crates/kernel-thread/src/utils.rs covers its range.
use rust_root_task_demo_mi_d.Prelude.{
  ℕ, zero, suc, ◌+◌, ◌-◌, ◌*◌, ◌%◌, ◌^◌, ◌≤◌, ◌<◌, ◌≡◌, ap, subst, ◌∙◌, min, inl, inr, some, arith,
  ok, Bool-cases, ◌==◌, Exec, wrap64,
}
use rust_root_task_demo_mi_d.BTree.{BTreeMap, get}
use rust_root_task_demo_mi_d.Crates.{MemoryAddr}
use rust_root_task_demo_mi_d.KernelThread.Server.{Errno}
use rust_root_task_demo_mi_d.KernelThread.Thread.{align_page}
use rust_root_task_demo_mi_d.KernelThread.Copy.{Seat, with_seat, process_rounds, process_item_list}

module _ (mem : MemoryAddr) (k : Seat) (pages : BTreeMap ℕ)
    (f : ℕ → ℕ → ℕ → Exec k.State Errno (Unit {0})) (addr len : ℕ)
    (Done : ℕ → k.State → Type 0) where
  -- The callback on a mapped page, with a piece of `n` bytes that begins `off` bytes into the range
  -- and does not leave its page, takes a state in which `off` bytes are done to one with `off + n`.
  pub record Advances : Type 0 where
    pub step :
        (off n cap : ℕ) (s : k.State)
        → 0 < n
        → off + n ≤ len
        → (addr + off) % 4096 + n ≤ 4096
        → get pages (align_page (addr + off)) ≡ some cap
        → Done off s
        → (s' : k.State) × (with_seat mem k cap
              (f (k.page_seat_vaddr + (addr + off) % 4096) off n)
              s
            ≡ (s', ok tt))
          × Done (off + n) s'

  process_rounds_lem :
      (rounds off : ℕ) (s : k.State)
      → Advances
      → ((i : ℕ) → i < len → (cap : ℕ) × (get pages (align_page (addr + i)) ≡ some cap))
      → addr + len < 2 ^ 64
      → off ≤ len
      → len - off ≤ rounds
      → Done off s
      → (s' : k.State) × (process_rounds mem k rounds pages f addr (addr + off) (len - off) s
          ≡ (s', ok len))
        × Done len s'
  unfolding process_rounds
  process_rounds_lem zero off s step mapped fits within enough done =
      let all : off ≡ len = omega arith in
      (
        s,
        ap (λ i. (s, ok i)) (mem.sub_lem (addr + off) addr (omega arith) ∙ omega arith),
        subst (λ i. Done i s) all done,
      )
  process_rounds_lem (suc rounds) off s step mapped fits within enough done =
      elim (Bool-cases ((len - off) == 0)) [
        | inl none_left ↦
            let all : off ≡ len = ground arith in
            (
              s,
              rw none_left
                  (ap (λ i. (s, ok i)) (mem.sub_lem (addr + off) addr (omega arith) ∙ omega arith)),
              subst (λ i. Done i s) all done,
            )
        | inr left ↦
            let (cap, found) = mapped off (ground arith) in
            let n : ℕ = min (4096 - (addr + off) % 4096) (len - off) in
            let (s₁, e, more) =
              step.step off n cap s (ground arith) (omega arith) (omega arith) found done in
            let (s', e', end) =
              process_rounds_lem rounds (off + n) s₁ step mapped fits (omega arith) (ground arith)
                more in
            let next : mem.add (addr + off) n ≡ addr + (off + n) =
              mem.add_lem (addr + off) n (omega arith) ∙ omega arith in
            let remain : (len - off) - n ≡ len - (off + n) = omega arith in
            let here : mem.sub (addr + off) addr ≡ off =
              mem.sub_lem (addr + off) addr (omega arith) ∙ omega arith in
            (
              s',
              rw (left, found, mem.align_offset_4k_lem (addr + off), here, e, next, remain) e',
              end,
            )
      ]

  process_whole :
      (m : ℕ) (s : k.State)
      → m ≡ len
      → Advances
      → ((i : ℕ) → i < len → (cap : ℕ) × (get pages (align_page (addr + i)) ≡ some cap))
      → addr + len < 2 ^ 64
      → Done 0 s
      → (s' : k.State) × (process_rounds mem k m pages f addr addr m s ≡ (s', ok len)) × Done len s'
  process_whole m s same step mapped fits start =
      let (s', e, end) =
        process_rounds_lem m 0 s step mapped fits (omega arith) (omega (arith, same)) start in
      let whole : len - 0 ≡ m = omega (arith, same) in
      let first : addr + 0 ≡ addr = omega arith in
      (
        s',
        subst (λ i. process_rounds mem k m pages f addr i m s ≡ (s', ok len)) first
            (subst (λ i. process_rounds mem k m pages f addr (addr + 0) i s ≡ (s', ok len)) whole
              e),
        end,
      )

wrap64-small : (n : ℕ) → n < 2 ^ 64 → wrap64 n ≡ n
wrap64-small n h = omega arith

module _ (mem : MemoryAddr) (k : Seat) (pages : BTreeMap ℕ)
    (f : ℕ → ℕ → ℕ → Exec k.State Errno (Unit {0})) (addr size number : ℕ)
    (Done : ℕ → k.State → Type 0) where
  -- A list of items whose pages are all mapped, below the end of the address space, is worked on
  -- from end to end, in pieces that do not leave their page: the call returns the size of the list.
  pub process_item_list_lem :
      (s : k.State)
      → Advances mem k pages f addr (size * number) Done
      → ((i : ℕ) → i < size * number → (cap : ℕ) × (get pages (align_page (addr + i)) ≡ some cap))
      → addr + size * number < 2 ^ 64
      → Done 0 s
      → (s' : k.State) × (process_item_list mem k size pages addr (some number) f s
          ≡ (s', ok (size * number)))
        × Done (size * number) s'
  unfolding process_item_list
  process_item_list_lem s step mapped fits start =
      process_whole mem k pages f addr (size * number) Done (wrap64 (size * number)) s
        (wrap64-small (size * number) (omega (arith, fits))) step mapped fits start
