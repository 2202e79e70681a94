-- ===== src/KernelThread/Stack/Aligned.antt =====
-- The stack pointer that `map_stack` of crates/kernel-thread/src/task.rs returns.
use rust_root_task_demo_mi_d.Prelude.{
  ℕ, zero, suc, ◌+◌, ◌*◌, ◌-◌, ◌/◌, ◌%◌, ◌^◌, ◌<◌, ◌≡◌, refl, List, [], ◌∷◌, length, arith, Returns,
  Returns-mono, >>=-Returns, >>=-After, ◌>>=◌, ◌>>◌, Exec, pure, ==_true, ==_false, ◌==◌, ==_iff,
  Bool-cases, inl, inr, true, false,
}
use rust_root_task_demo_mi_d.Sel4.{Kernel}
use rust_root_task_demo_mi_d.Alloc.{Machine, call, allocate_and_retyped_fixed_sized}
use rust_root_task_demo_mi_d.Crates.{steps}
use rust_root_task_demo_mi_d.KernelThread.Task.{Context, on_machine, map_page}
use rust_root_task_demo_mi_d.KernelThread.Stack.{
  Desktop, sub64, arg_ptr, reverse_onto, push_args, push_nums, stack_words, push_words, push_stack,
  fill_stack, stack_pages, map_stack,
}

length-reverse_onto : (xs acc : List ℕ) → length (reverse_onto xs acc) ≡ length xs + length acc
length-reverse_onto [] acc = omega arith
length-reverse_onto (x ∷ xs) acc = omega (arith, length-reverse_onto xs (x ∷ acc))

-- The stack pointer after so many arguments.
abbrev pub IsStackPtr : ℕ → ℕ → Type 0
IsStackPtr n sp = sp % 16 ≡ 8 * ((n + 1) % 2)

module _ {k : Kernel} (E : Type 0) (desk : Desktop k) where
  push_nums_lem :
      (ptr : ℕ) (nums : List ℕ) (m : Machine k)
      → Returns
          (λ last. (last + 8 * length nums) % 16 ≡ ptr % 16)
          (push_nums {E = E} desk ptr nums m)
  unfolding push_nums
  push_nums_lem ptr [] m = omega arith
  push_nums_lem ptr (num ∷ nums) m =
      Returns-mono (λ last. (last + 8 * length nums) % 16 ≡ sub64 ptr 8 % 16)
        (λ last. (last + 8 * length (num ∷ nums)) % 16 ≡ ptr % 16)
        (push_nums desk (sub64 ptr 8) nums _) (λ last e. omega arith)
        (push_nums_lem (sub64 ptr 8) nums _)

  push_args_lem :
      (ptr : ℕ) (args : List (List ℕ)) (m : Machine k)
      → ptr % 16 ≡ 0
      → Returns
          (λ r. (length (r.0) ≡ length args) × (r.1 % 16 ≡ 0))
          (push_args {E = E} desk ptr args m)
  unfolding push_args
  push_args_lem ptr [] m h = (refl, h)
  push_args_lem ptr (arg ∷ args) m h =
      >>=-After (λ r. (length (r.0) ≡ length args) × (r.1 % 16 ≡ 0))
        (λ r. (length (r.0) ≡ length (arg ∷ args)) × (r.1 % 16 ≡ 0))
        (push_args desk (arg_ptr ptr (length arg)) args)
        (λ x. pure (arg_ptr ptr (length arg) ∷ x.0, x.1)) _
        (push_args_lem (arg_ptr ptr (length arg)) args _ (omega arith))
        (λ r e t. (omega (arith, e.0), e.1))

  stack_words_lem :
      (entry_point : ℕ) (ptrs : List ℕ) (m : Machine k)
      → Returns
          (λ words. length words ≡ 19 + length ptrs)
          (stack_words {E = E} desk entry_point ptrs m)
  stack_words_lem entry_point [] m = tt
  stack_words_lem entry_point (x ∷ xs) m =
      omega (arith, length-reverse_onto (x ∷ xs) (length (x ∷ xs) ∷ []))

  push_words_lem :
      (entry_point : ℕ) (args : List (List ℕ)) (r : List ℕ × ℕ) (m : Machine k)
      → (length (r.0) ≡ length args) × (r.1 % 16 ≡ 0)
      → Returns (IsStackPtr (length args)) (push_words {E = E} desk entry_point r m)
  push_words_lem entry_point args (ptrs, ptr) m h =
      >>=-After (λ words. length words ≡ 19 + length ptrs) (IsStackPtr (length args))
        (stack_words desk entry_point ptrs) (push_nums desk ptr) m
        (stack_words_lem entry_point ptrs m)
        (λ words count t.
          Returns-mono (λ last. (last + 8 * length words) % 16 ≡ ptr % 16)
            (IsStackPtr (length args)) (push_nums desk ptr words t)
            (λ last sum. omega (arith, h.0, h.1)) (push_nums_lem ptr words t))

  push_stack_lem :
      (entry_point ptr : ℕ) (args : List (List ℕ)) (m : Machine k)
      → ptr % 16 ≡ 0
      → Returns (IsStackPtr (length args)) (push_stack {E = E} desk entry_point ptr args m)
  unfolding push_stack
  push_stack_lem entry_point ptr args m h =
      >>=-After (λ r. (length (r.0) ≡ length args) × (r.1 % 16 ≡ 0)) (IsStackPtr (length args))
        (push_args desk ptr args) (push_words desk entry_point) m (push_args_lem ptr args m h)
        (λ r e t. push_words_lem entry_point args r t e)

  fill_stack_lem :
      (page entry_point ptr : ℕ) (args : List (List ℕ)) (m : Machine k)
      → ptr % 16 ≡ 0
      → Returns (IsStackPtr (length args)) (fill_stack {E = E} desk page entry_point ptr args m)
  unfolding fill_stack
  fill_stack_lem page entry_point ptr args m h =
      let unmap : ℕ → Exec (Machine k) E ℕ = λ last. (do call (k.frame_unmap page); pure last) in
      >>=-Returns (IsStackPtr (length args))
        (call (k.frame_map page desk.own_vspace desk.page_seat_vaddr k.all_rights))
        (λ _. do last ← push_stack desk entry_point ptr args; unmap last) m
        (λ _ t.
          >>=-After (IsStackPtr (length args)) (IsStackPtr (length args))
            (push_stack desk entry_point ptr args) unmap t (push_stack_lem entry_point ptr args t h)
            (λ last e t'.
              >>=-Returns (IsStackPtr (length args)) (call (k.frame_unmap page)) (λ _. pure last) t'
                (λ _ _. e)))

  stack_pages_lem :
      (entry_point start n end : ℕ) (args : List (List ℕ)) (c : Context k)
      → start + suc n * 4096 ≡ end
      → end < 2 ^ 64
      → end % 16 ≡ 0
      → Returns
          (IsStackPtr (length args))
          (stack_pages {E = E} desk entry_point end args end (steps 4096 start (suc n)) c)
  unfolding stack_pages
  stack_pages_lem entry_point start zero end args c h fits aligned =
      let top : (start == sub64 end 4096) ≡ true = ==_true _ _ (omega arith) in
      let mapped : ℕ → ℕ → Exec (Context k) E ℕ = λ page ptr. (do map_page start page; pure ptr) in
      rw top (
        >>=-Returns (IsStackPtr (length args))
          (on_machine (allocate_and_retyped_fixed_sized k.granule))
          (λ page. do ptr ← on_machine (fill_stack desk page entry_point end args); mapped page ptr)
          c
          (λ page t.
            >>=-After (IsStackPtr (length args)) (IsStackPtr (length args))
              (on_machine (fill_stack desk page entry_point end args)) (mapped page) t
              (fill_stack_lem page entry_point end args t.machine aligned)
              (λ ptr e t'.
                >>=-Returns (IsStackPtr (length args)) (map_page start page) (λ _. pure ptr) t'
                  (λ _ _. e))))
  stack_pages_lem entry_point start (suc n) end args c h fits aligned =
      let below : (start == sub64 end 4096) ≡ false = ==_false _ _ (omega arith) in
      rw below (
        >>=-Returns (IsStackPtr (length args))
          (on_machine (allocate_and_retyped_fixed_sized k.granule))
          (λ page. do
            map_page start page
            stack_pages desk entry_point end args end (steps 4096 (start + 4096) (suc n)))
          c
          (λ page t.
            >>=-Returns (IsStackPtr (length args)) (map_page start page)
              (λ _. stack_pages desk entry_point end args end (steps 4096 (start + 4096) (suc n))) t
              (λ _ t'.
                stack_pages_lem entry_point (start + 4096) n end args t' (omega arith) fits
                  aligned)))

  -- Where building the stack succeeds, for any arguments, the stack pointer is a multiple of 16 if
  -- their number is odd, and 8 away from one if it is even.
  pub map_stack-IsStackPtr :
      (entry_point start n : ℕ) (args : List (List ℕ)) (c : Context k)
      → start + suc n * 4096 < 2 ^ 64
      → Returns
          (IsStackPtr (length args))
          (map_stack {E = E} desk entry_point start (start + suc n * 4096) args c)
  unfolding map_stack
  map_stack-IsStackPtr entry_point start n args c fits =
      let end : ℕ = start + suc n * 4096 in
      let count : (end - start + 4095) / 4096 ≡ suc n = omega arith in
      elim (Bool-cases (end % 4096 == 0)) [
        | inr unaligned ↦ rw unaligned tt
        | inl aligned ↦ elim (Bool-cases (start % 4096 == 0)) [
          | inr odd ↦ rw (aligned, odd) tt
          | inl even ↦
              let whole : end % 4096 ≡ 0 = (==_iff _ _).0 aligned in
              rw (aligned, even, count)
                (stack_pages_lem entry_point start n end args c refl fits (omega arith))
        ]
      ]
