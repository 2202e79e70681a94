-- ===== src/Tests/Images.antt =====
-- An image of two segments, and addresses in their C form.
use rust_root_task_demo_mi_d.Prelude.{
  ◌+◌, ◌*◌, ◌/◌, ◌%◌, ◌^◌, ◌≡◌, refl, [], ◌∷◌, some, arith, map, ok, All,
}
use rust_root_task_demo_mi_d.Uspace.{from_socket_addr, into_socket_addr, socket_addr_round_trip}
use rust_root_task_demo_mi_d.NetThread.Smoltcp.{ipv4, ipv6}
use rust_root_task_demo_mi_d.Image.{
  coarsen_footprint, Loader, Range, Segment, Pages, Space, all_rights, footprint, map_pages,
  map_image, take_pages, load_segments, load_segment, add_rights_first, add_rights, copy_data,
}
use rust_root_task_demo_mi_d.Image.Footprint.{Inside, footprint-Inside}
use rust_root_task_demo_mi_d.Image.Rights.{with_flags, map_image-with_flags}
use rust_root_task_demo_mi_d.Image.Pages.{Placed, Outside, map_pages_lem}
use rust_root_task_demo_mi_d.Alloc.{
  Machine, allocate_and_retyped_fixed_sized, allocate_and_retype, allocate_slot, next_slot,
  new_cnode, retype,
}
use rust_root_task_demo_mi_d.Tests.ToyKernel.{toy, put, unmapped}
use rust_root_task_demo_mi_d.Tests.ToyMapping.{toy_map_laws}
use rust_root_task_demo_mi_d.Tests.Threads.{empty_kernel, old_slots}

abbrev code : Segment
code = record { address = 0x1_0010; size = 0x30; bytes = 1 ∷ 2 ∷ []; p_flags = some 5 }

abbrev variables : Segment
variables = record { address = 0x1_1ff0; size = 0x20; bytes = []; p_flags = some 6 }

footprint_example :
    (r : Range) × (footprint {S = Unit {0}} {E = ⊥} (code ∷ variables ∷ []) tt ≡ (tt, ok r))
    × All (Inside r) (code ∷ variables ∷ [])
    × (r.start % 4096 ≡ 0)
    × (r.end % 4096 ≡ 0)
footprint_example = footprint-Inside code (variables ∷ []) tt (omega arith, (omega arith, tt))

abbrev pub toy_loader : Loader toy
toy_loader = record {
  span_bits = λ level. 12 + 9 * level;
  table_blueprint = λ level. 200 + level;
  table_map = λ level table vspace addr s. (s, ok tt);
  copy_from = λ to bytes s. s;
  build_rights = λ read write grant reply. tt;
}

abbrev fresh_machine : Machine toy
fresh_machine = record {
  kernel = empty_kernel;
  allocator = record { next = 70; limit = 4096; ut = 1 };
}

abbrev two_pages : Pages
two_pages = (71, all_rights) ∷ (72, all_rights) ∷ []

-- Two frames that are mapped nowhere, and the tables of the range.
abbrev empty_space : Space toy
empty_space = record {
  machine = record fresh_machine {
    kernel = record empty_kernel {
      tables_missing = 0;
      slots = put (put old_slots 71 (unmapped 100)) 72 (unmapped 100);
    };
  };
  mapped_page = [];
}

map_pages_example :
    (c' : Space toy) × (map_pages toy_loader {E = ⊥} 60 0x1_0000 two_pages empty_space
      ≡ (c', ok tt))
    × Placed toy toy_map_laws toy_loader ⊥ 60 0x1_0000 two_pages c'
    × Outside toy toy_map_laws toy_loader ⊥ 60 0x1_0000 0x1_2000 empty_space c'
map_pages_example =
    map_pages_lem toy toy_map_laws toy_loader ⊥ 60 0x1_0000 two_pages empty_space refl (omega arith)
      (λ b l h. (refl, refl)) (refl, (omega arith, tt), (refl, tt, tt))

abbrev image_range : Range
image_range = record { start = 0x1_0000; end = 0x1_3000 }

-- No table is missing, and the slots to come are empty.
abbrev table_space : Space toy
table_space = record {
  machine = record fresh_machine { kernel = record empty_kernel { tables_missing = 0 } };
  mapped_page = [];
}

-- The image is mapped, with three pages.
image_mapped :
    (map_image toy_loader {E = ⊥} 60 image_range
      (map (with_flags (λ seg. 5)) (code ∷ variables ∷ []))
      1
      0x9000
      table_space).1
    ≡ ok tt
unfolding map_image take_pages load_segments load_segment add_rights_first add_rights copy_data
    map_pages allocate_and_retyped_fixed_sized allocate_and_retype allocate_slot next_slot new_cnode
    retype coarsen_footprint
image_mapped = refl

map_image_example :
    map_image toy_loader {E = ⊥} 60 image_range
      (map (with_flags (λ seg. 5)) (code ∷ variables ∷ []))
      1
      0x9000
      table_space
    ≡ map_image toy_loader 60 image_range
        (map (with_flags (λ seg. 0)) (code ∷ variables ∷ []))
        1
        0x9000
        table_space
map_image_example =
    map_image-with_flags toy toy_loader ⊥ 60 1 0x9000 image_range (λ seg. 5) (λ seg. 0)
      (code ∷ variables ∷ []) table_space

socket_addr_example :
    (into_socket_addr (from_socket_addr (record { addr = ipv4 0x7f00_0001; port = 6200 }))
      ≡ record { addr = ipv4 0x7f00_0001; port = 6200 })
    × (into_socket_addr (from_socket_addr (record { addr = ipv6 (2 ^ 127); port = 6200 }))
        ≡ record { addr = ipv4 (2 ^ 127 / 2 ^ 96); port = 6200 })
socket_addr_example =
    socket_addr_round_trip 0x7f00_0001 (2 ^ 127) 6200 (omega arith) (omega arith) (omega arith)
