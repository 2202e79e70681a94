-- ===== src/Tests/Allocator.antt =====
-- The object allocator at concrete machines.
use rust_root_task_demo_mi_d.Prelude.{
  ◌≡◌, refl, [], ◌∷◌, none, arith, ok, true, false, ◌==◌, ==_false,
}
use rust_root_task_demo_mi_d.Sel4.{RetypeLaws}
use rust_root_task_demo_mi_d.Alloc.{
  Machine, allocate_and_retype, next_slot, retype, new_cnode, allocate_slot,
}
use rust_root_task_demo_mi_d.Alloc.Steps.{Room}
use rust_root_task_demo_mi_d.Alloc.Slots.{allocate_objects, allocate_objects-count_up}
use rust_root_task_demo_mi_d.Alloc.CNodes.{HasCNodes, allocate_and_retype-HasCNodes}
use rust_root_task_demo_mi_d.Tests.ToyKernel.{vacant, unmapped, put, toy, toy_retype_laws}

-- The slots of two CNodes are left, and CNode 0 is there.
abbrev fresh : Machine toy
fresh = record {
  kernel = record {
    room = 20;
    tables_missing = 3;
    cnodes = λ c. c == 0;
    slots = λ i. vacant;
    pages = λ a. none;
    running = λ tcb. false;
  };
  allocator = record { next = 4095; limit = 8192; ut = 1 };
}

fresh-Room : Room toy toy_retype_laws 3 fresh
fresh-Room = record {
  left = omega arith;
  supplied = omega arith;
  slots = record {
    vacant = λ raw l u. (refl, omega arith);
    roots = λ c l u. ==_false c 0 (omega arith);
    cnodes = λ c l. let first : c ≡ 0 = omega arith in rw first;
  };
}

allocate_objects_example :
    (allocate_objects {k = toy} {E = ⊥} 100 3 fresh).1 ≡ ok (4095 ∷ 4096 ∷ 4097 ∷ [])
allocate_objects_example = allocate_objects-count_up toy toy_retype_laws ⊥ 3 fresh 100 fresh-Room

abbrev used_up : Machine toy
used_up = record fresh { allocator = record { next = 8192; limit = 8192; ut = 1 } }

-- Slot 4096 is the first of CNode 1, which is made on the way.
abbrev at_4096 : Machine toy
at_4096 = record fresh { allocator = record { next = 4096; limit = 8192; ut = 1 } }

at_4096-HasCNodes : HasCNodes toy toy_retype_laws at_4096
at_4096-HasCNodes c h = ground arith

abbrev after_4096 : Machine toy
after_4096 = record {
  kernel = record (fresh.kernel) {
    room = 18;
    cnodes = put fresh.kernel.cnodes 1 true;
    slots = put fresh.kernel.slots 4096 (unmapped 100);
  };
  allocator = record { next = 4097; limit = 8192; ut = 1 };
}

allocates_4096 : allocate_and_retype {k = toy} {E = ⊥} 100 at_4096 ≡ (after_4096, ok 4096)
unfolding allocate_and_retype allocate_slot next_slot new_cnode retype
allocates_4096 = refl

HasCNodes_example :
    HasCNodes toy toy_retype_laws after_4096
    × RetypeLaws.HasCNode toy_retype_laws after_4096.kernel 1
HasCNodes_example =
    allocate_and_retype-HasCNodes toy toy_retype_laws ⊥ at_4096 after_4096 100 4096
      at_4096-HasCNodes allocates_4096
