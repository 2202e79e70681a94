-- ===== src/RootTask/DmaPages.antt =====
-- The pages that the root task gives the drivers for DMA, crates/root-task/src/main.rs.
use rust_root_task_demo_mi_d.Prelude.{
  ℕ, zero, suc, ◌+◌, ◌*◌, ◌≤◌, ◌<◌, ◌^◌, ◌≡◌, refl, none, arith, wrap64, ok, Exec, pure, ◌>>=◌,
  ◌>>◌, ap, ◌∙◌,
}
use rust_root_task_demo_mi_d.BTree.{get}
use rust_root_task_demo_mi_d.Sel4.{Kernel, MapLaws}
use rust_root_task_demo_mi_d.KernelThread.Task.{Sel4Task}
use rust_root_task_demo_mi_d.KernelThread.Task.Tables.{Budget}
use rust_root_task_demo_mi_d.KernelThread.Task.Mapping.{IsConsistent}
use rust_root_task_demo_mi_d.KernelThread.Mm.Ranges.{per_page, MapsRange}
use rust_root_task_demo_mi_d.TaskHelper.{
  Helper, page_size, root_helper, root_allocate_page, map_page, map_stack_pages,
}
use rust_root_task_demo_mi_d.TaskHelper.Agree.{as_context}
use rust_root_task_demo_mi_d.TaskHelper.Stack.{map_stack_pages_lem}
use rust_root_task_demo_mi_d.Dma.{dma_addr_start}
use rust_root_task_demo_mi_d.Dma.Window.{AllMapped}

module _ {k : Kernel} where
  -- `tasks[1]`, the block thread's task, gets two pages.
  unfoldable pub map_blk_dma : Exec (Helper k) k.Error (Unit {0})
  map_blk_dma = do
    first ← root_allocate_page {k = k}
    map_page (root_helper k) dma_addr_start first
    second ← root_allocate_page {k = k}
    map_page (root_helper k) (dma_addr_start + page_size) second

  -- The loop over `tasks[2]`, the net thread's task, from an index on.
  unfoldable pub map_net_dma_from : ℕ → ℕ → Exec (Helper k) k.Error (Unit {0})
  map_net_dma_from zero i = pure tt
  map_net_dma_from (suc n) i = do
    page_cap ← root_allocate_page {k = k}
    map_page (root_helper k) (dma_addr_start + i * page_size) page_cap
    map_net_dma_from n (suc i)

  unfoldable pub map_net_dma : Exec (Helper k) k.Error (Unit {0})
  unfolding map_net_dma_from
  map_net_dma = map_net_dma_from 32 0

  -- Both loops map pages one behind the other.
  map_net_dma_from-stack :
      (n i : ℕ)
      → dma_addr_start + (i + n) * 4096 < 2 ^ 64
      → map_net_dma_from n i ≡ map_stack_pages (root_helper k) n (dma_addr_start + i * 4096)
  unfolding map_net_dma_from map_stack_pages
  map_net_dma_from-stack zero i fits = refl
  map_net_dma_from-stack (suc n) i fits =
      let next : dma_addr_start + suc i * 4096 ≡ wrap64 (dma_addr_start + i * 4096 + 4096) =
        omega arith in
      ap
        (λ (rest : Exec (Helper k) k.Error (Unit {0})). do
          page_cap ← root_allocate_page {k = k}
          map_page (root_helper k) (dma_addr_start + i * 4096) page_cap
          rest)
        (map_net_dma_from-stack n (suc i) (omega arith)
          ∙ ap (map_stack_pages (root_helper k) n) next)

module _ (k : Kernel) (laws : MapLaws k) (t : Sel4Task) where
  -- After the loop over the net thread's task, every page of its 32 pages of DMA memory is mapped
  -- and no other page has changed, where none of them was mapped and slots and memory last.
  pub map_net_dma_lem :
      (h : Helper k)
      → dma_addr_start + 32 * 4096 ≤ laws.user_top
      → ((b : ℕ)
          → dma_addr_start ≤ b
          → b < dma_addr_start + 32 * 4096
          → get h.task.mapped_page b ≡ none)
      → IsConsistent k laws (as_context k t h)
      → Budget k laws (32 * per_page k + 0) h.machine
      → (h' : Helper k) × (map_net_dma {k = k} h ≡ (h', ok tt))
        × AllMapped h'.task.mapped_page dma_addr_start (dma_addr_start + 32 * 4096)
        × MapsRange dma_addr_start 32 (as_context k t h).task (as_context k t h').task
  unfolding map_net_dma
  map_net_dma_lem h user fresh before budget =
      let (h', e, range, same, after) =
        map_stack_pages_lem k laws t 32 0 dma_addr_start h (omega arith) (omega arith) user fresh
          before budget in
      (
        h',
        ap (λ run. run h) (map_net_dma_from-stack {k = k} 32 0 (omega arith)) ∙ e,
        λ b l u z. range.inside b l u z,
        range,
      )
