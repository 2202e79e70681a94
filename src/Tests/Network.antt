-- ===== src/Tests/Network.antt =====
-- The net thread, crates/net-thread, on the small network stack.
use rust_root_task_demo_mi_d.Prelude.{
  ℕ, ◌≡◌, ◌≢◌, refl, List, [], ◌∷◌, none, some, arith, get_elem?, set, length-set,
  get_elem?-set_self, get_elem?-set_ne, ok, err, panic, ◌∙◌,
}
use rust_root_task_demo_mi_d.NetThread.Smoltcp.{
  IpEndpoint, IpListenEndpoint, ipv4, State, closed, listen, syn_received, established,
}
use rust_root_task_demo_mi_d.NetThread.ListenTable.{
  AxError, addr_in_use, ListenTableEntry, new_table, Net, listen_table, unlisten, accept,
}
use rust_root_task_demo_mi_d.NetThread.ListenTable.Accept.{Takes, accept_lem}
use rust_root_task_demo_mi_d.NetThread.ListenTable.Sizes.{
  IsTable, new_table-IsTable, new_table-free,
}
use rust_root_task_demo_mi_d.NetThread.ListenTable.Bounded.{
  starts, steps_to, listens, Reachable-IsTable,
}
use rust_root_task_demo_mi_d.NetThread.ListenTable.Listening.{listen_table_lem}
use rust_root_task_demo_mi_d.NetThread.Ports.{get_ephemeral_port}
use rust_root_task_demo_mi_d.NetThread.Ports.Search.{
  get_ephemeral_port-first, get_ephemeral_port-overrun,
}
use rust_root_task_demo_mi_d.Tests.ToySmoltcp.{here, there, toy_smoltcp}

abbrev endpoint : IpListenEndpoint
endpoint = record { addr = none; port = 1 }

abbrev listener : List ℕ → ListenTableEntry
listener queue = record { listen_endpoint = endpoint; syn_queue = queue }

-- Port 1 is listened on; the first connection in its queue is still being set up.
abbrev queued : State → Net toy_smoltcp
queued second = record {
  sockets = syn_received ∷ second ∷ closed ∷ [];
  table = none ∷ some (listener (0 ∷ 1 ∷ 2 ∷ [])) ∷ [];
  curr = 0x1000;
}

accept_example :
    (n' : Net toy_smoltcp) × (accept 1 (queued established) ≡ (n', ok (1, here, there)))
    × Takes 1 1 (listener (0 ∷ 1 ∷ 2 ∷ [])) (queued established) n'
accept_example =
    accept_lem 1 1 (0 ∷ []) (2 ∷ []) (listener (0 ∷ 1 ∷ 2 ∷ [])) established here there
      (queued established) refl refl ((syn_received, refl, refl), tt) refl refl refl refl refl

abbrev waiting : Net toy_smoltcp
waiting = record {
  sockets = syn_received ∷ listen ∷ [];
  table = none ∷ some (listener (0 ∷ 1 ∷ [])) ∷ [];
  curr = 0x1000;
}

-- No port is listened on.
abbrev fresh_net : Net toy_smoltcp
fresh_net = record { sockets = []; table = new_table; curr = 0x1000 }

Reachable_example : IsTable (listen_table endpoint fresh_net).0.table
Reachable_example =
    Reachable-IsTable (listen_table endpoint fresh_net).0
      (steps_to (starts [] 0x1000) (listens endpoint))

abbrev high_port : IpEndpoint
high_port = record { addr = ipv4 1; port = 0x2000 }

abbrev elsewhere_net : Net toy_smoltcp
elsewhere_net = record {
  sockets = [];
  table =
      none
      ∷ some
          (record { listen_endpoint = record { addr = some (ipv4 7); port = 1 }; syn_queue = [] })
      ∷ [];
  curr = 0x1000;
}

listen_table_example :
    (n' : Net toy_smoltcp) × (listen_table endpoint fresh_net ≡ (n', ok tt))
    × ((other : IpListenEndpoint) → other.port ≡ 1 → listen_table other n' ≡ (n', err addr_in_use))
    × ((port : ℕ) → port ≢ 1 → get_elem? n'.table port ≡ get_elem? new_table port)
    × (unlisten {E = AxError} 1 n' ≡ (fresh_net, ok tt))
listen_table_example =
    listen_table_lem endpoint fresh_net (λ e. omega (arith, e)) (new_table-free 1 (omega arith))

-- The first ephemeral port is taken.
abbrev one_taken : Net toy_smoltcp
one_taken = record fresh_net { table = set new_table 0x1000 (some (listener [])) }

get_ephemeral_port_example :
    get_ephemeral_port one_taken ≡ (record one_taken { curr = 0x1002 }, ok 0x1001)
get_ephemeral_port_example =
    get_ephemeral_port-first 1 one_taken
      (length-set new_table 0x1000 (some (listener [])) ∙ new_table-IsTable.1) (omega arith)
      (
        (
          listener [],
          get_elem?-set_self new_table 0x1000 (some (listener []))
              (omega (arith, new_table-IsTable.1)),
        ),
        tt,
      )
      (get_elem?-set_ne new_table 0x1000 0x1001 (some (listener [])) (λ e. omega (arith, e))
        ∙ new_table-free 0x1001 (omega arith))

ephemeral_overrun_example : (get_ephemeral_port (record fresh_net { curr = 0x2000 })).1 ≡ panic
ephemeral_overrun_example =
    get_ephemeral_port-overrun 0 (record fresh_net { curr = 0x2000 }) new_table-IsTable.1 refl tt
