-- ===== src/RootTask/Device.antt =====
-- The loop of crates/root-task/src/main.rs that maps the memory of the device ends.
use rust_root_task_demo_mi_d.Prelude.{
  ℕ, zero, suc, ◌%◌, ◌<◌, ◌≡◌, refl, ◌∙◌, none, some, arith, ok, ◌==◌, ◌++◌, ◌∷◌, [], if◌then◌else◌,
}
use rust_root_task_demo_mi_d.Sel4.{Kernel, MapLaws}
use rust_root_task_demo_mi_d.Alloc.Steps.{Room-LeavesSlots}
use rust_root_task_demo_mi_d.KernelThread.Task.Tables.{Budget, allocate_lem}
use rust_root_task_demo_mi_d.TaskHelper.{Helper, add_table, root_allocate_pt}
use rust_root_task_demo_mi_d.RootTask.Start.{Boot, map_device}

module _ (k : Kernel) (laws : MapLaws k) (b : Boot k) where
  open laws use {Holds, missing, page_at}

  -- With more rounds than tables are missing, the device's memory gets mapped by a frame that is
  -- mapped nowhere, where nothing is mapped at its address and slots and memory for the tables
  -- last.
  pub map_device_lem :
      (n rounds frame a : ℕ) (h : Helper k)
      → missing h.machine.kernel h.task.vspace a ≡ n
      → n < rounds
      → n < k.num_levels
      → page_at h.machine.kernel h.task.vspace a ≡ none
      → a % 4096 ≡ 0
      → a < laws.user_top
      → frame < h.machine.allocator.next
      → Holds h.machine.kernel frame k.granule
      → Budget k laws n h.machine
      → (h' : Helper k) × (map_device b rounds frame a h ≡ (h', ok (some tt)))
        × (page_at h'.machine.kernel h.task.vspace a ≡ some frame)
  unfolding map_device add_table root_allocate_pt
  map_device_lem n zero frame a h depth lt few free aligned user old held budget = elim lt [ ]
  map_device_lem zero (suc rounds) frame a h depth lt few free aligned user old held budget =
      let (s', e, here, elsewhere, same, leaves) =
        laws.frame_map-free h.machine.kernel frame h.task.vspace a k.all_rights held aligned user
          depth free in
      (record h { machine = record (h.machine) { kernel = s' } }, rw e refl, here)
  map_device_lem (suc n) (suc rounds) frame a h depth lt few free aligned user old held budget =
      let (x, e, lookup) =
        laws.frame_map-missing h.machine.kernel frame h.task.vspace a k.all_rights held aligned
          (omega arith) (omega arith) in
      let (m₁, e₁, budget₁, made) =
        allocate_lem k laws k.Error n h.task.vspace h.machine k.page_table budget in
      let (s₂, e₂, left, pages, shallower, leaves) =
        laws.pt_map-missing m₁.kernel n h.machine.allocator.next h.task.vspace a made.made aligned
          (made.missing a ∙ depth) few in
      let h₂ : Helper k = record h {
        machine = record m₁ { kernel = s₂ };
        vectors = λ i.
            (if i == h.task.mapped_pt
              then h.vectors h.task.mapped_pt ++ h.machine.allocator.next ∷ []
              else h.vectors i);
      } in
      let (h', e₃, here) =
        map_device_lem n rounds frame a h₂ left (omega arith) (omega arith)
          (pages a ∙ made.pages a ∙ free) aligned user (omega (arith, made.next))
          (leaves.holds frame k.granule (omega arith) (made.holds frame k.granule held))
          (Room-LeavesSlots k laws.retyping n h.machine.allocator.next m₁ s₂ leaves budget₁) in
      (h', rw (e, lookup, e₁, e₂) e₃, here)
