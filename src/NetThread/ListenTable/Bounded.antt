-- ===== src/NetThread/ListenTable/Bounded.antt =====
-- The table of crates/net-thread/src/smoltcp_impl/listen_table.rs keeps its size, and its queues stay
-- within their capacity.
use rust_root_task_demo_mi_d.Prelude.{
  ℕ, ◌+◌, ◌<◌, ◌≡◌, refl, sym, subst, List, [], ◌∷◌, Option, none, some, length, length-append,
  get_elem?, arith, ok, err, panic, continue_with, Option-cases, leb, inl, inr, ◌⊎◌, Bool-cases,
  ◌==◌, Outcome,
}
use rust_root_task_demo_mi_d.NetThread.Smoltcp.{
  Smoltcp, IpEndpoint, IpListenEndpoint, connected_state, closed_state,
}
use rust_root_task_demo_mi_d.NetThread.ListenTable.{
  AxError, ListenTableEntry, Net, listen_queue_size, new_table, update_table, entry_at,
  listen_table, listen_at, unlisten, drop_entry, drop_queue, incoming_tcp_packet, incoming_at,
  enqueue, accepts, is_connected, is_closed, get_addr_tuple, find_connected, accepted, accept_from,
  accept, swap_remove_front,
}
use rust_root_task_demo_mi_d.NetThread.ListenTable.Sizes.{
  Fits, IsTable, set-IsTable, get_elem?-Fits, new_table-IsTable, length-swap_remove_front,
}

module _ {s : Smoltcp} where
  enqueue-IsTable :
      (E : Type 0) (port : ℕ) (entry : ListenTableEntry) (socket : Option (s.Socket)) (n : Net s)
      → length entry.syn_queue < listen_queue_size
      → IsTable n.table
      → IsTable (enqueue {s = s} {E = E} port entry socket n).0.table
  unfolding enqueue
  enqueue-IsTable E port entry none n h b = b
  enqueue-IsTable E port entry (some socket) n h b =
      set-IsTable n.table port _
        (omega (arith, h, length-append entry.syn_queue ((s.add socket n.sockets).1 ∷ []))) b

  -- Whatever packet comes in, all queues stay within LISTEN_QUEUE_SIZE, also where it panics.
  pub incoming_tcp_packet-IsTable :
      (E : Type 0) (src dst : IpEndpoint) (n : Net s)
      → IsTable n.table
      → IsTable (incoming_tcp_packet {s = s} {E = E} src dst n).0.table
  unfolding incoming_tcp_packet incoming_at entry_at
  incoming_tcp_packet-IsTable E src dst n b = elim (Option-cases (get_elem? n.table dst.port)) [
    | inl out ↦ rw out b
    | inr (none, at) ↦ rw at b
    | inr (some entry, at) ↦ elim (Bool-cases (accepts entry.listen_endpoint.addr dst.addr)) [
      | inr other ↦ rw (at, other) b
      | inl mine ↦ elim (Bool-cases (leb listen_queue_size (length entry.syn_queue))) [
        | inl full ↦ rw (at, mine, full) b
        | inr room ↦ rw (at, mine, room) (enqueue-IsTable E dst.port entry _ n (ground arith) b)
      ]
    ]
  ]

  -- The outcomes of the search for a connected handle; it changes nothing.
  find_connected_cases :
      (E : Type 0) (idx : ℕ) (queue : List ℕ) (n : Net s)
      → (find_connected {s = s} {E = E} idx queue n ≡ (n, panic))
        ⊎ ((found : Option ℕ) × (find_connected {s = s} {E = E} idx queue n ≡ (n, ok found)))
  unfolding find_connected is_connected
  find_connected_cases E idx [] n = inr (none, refl)
  find_connected_cases E idx (handle ∷ queue) n = elim (Option-cases (s.get n.sockets handle)) [
    | inl absent ↦ inl (rw absent refl)
    | inr (socket, found) ↦ elim (Bool-cases (connected_state (s.state socket))) [
      | inl here ↦ inr (some idx, rw (found, here) refl)
      | inr waiting ↦ rw (found, waiting) (find_connected_cases E (idx + 1) queue n)
    ]
  ]

  accepted-same : (handle : ℕ) (n : Net s) → (accepted {s = s} handle n).0 ≡ n
  unfolding accepted is_closed get_addr_tuple
  accepted-same handle n = elim (Option-cases (s.get n.sockets handle)) [
    | inl absent ↦ rw absent refl
    | inr (socket, found) ↦ elim (Bool-cases (closed_state (s.state socket))) [
      | inl reset ↦ rw (found, reset) refl
      | inr alive ↦ elim (Option-cases (s.local_endpoint socket)) [
        | inl absent ↦ rw (found, alive, found, absent) refl
        | inr (local, here) ↦ elim (Option-cases (s.remote_endpoint socket)) [
          | inl absent ↦ rw (found, alive, found, here, absent) refl
          | inr (remote, there) ↦ rw (found, alive, found, here, there) refl
        ]
      ]
    ]
  ]

  accept_from-IsTable :
      (port : ℕ) (entry : ListenTableEntry) (n : Net s)
      → Fits (some entry)
      → IsTable n.table
      → IsTable (accept_from {s = s} port (some entry) n).0.table
  unfolding accept_from
  accept_from-IsTable port entry n f b = elim (find_connected_cases AxError 0 entry.syn_queue n) [
    | inl stops ↦ rw stops b
    | inr (none, search) ↦ rw search b
    | inr (some idx, search) ↦ elim (Option-cases (swap_remove_front entry.syn_queue idx)) [
      | inl absent ↦ rw (search, absent) b
      | inr ((handle, rest), removed) ↦
          rw (search, removed, accepted-same handle _)
            (set-IsTable n.table port _
              (omega (arith, f, length-swap_remove_front entry.syn_queue idx handle rest removed))
              b)
    ]
  ]

  accept-IsTable :
      (port : ℕ) (n : Net s) → IsTable n.table → IsTable (accept {s = s} port n).0.table
  unfolding accept entry_at accept_from
  accept-IsTable port n b = elim (Option-cases (get_elem? n.table port)) [
    | inl out ↦ rw out b
    | inr (none, at) ↦ rw at b
    | inr (some entry, at) ↦
        rw at (accept_from-IsTable port entry n (get_elem?-Fits n.table port _ at (b.0)) b)
  ]

  listen_table-IsTable :
      (endpoint : IpListenEndpoint) (n : Net s)
      → IsTable n.table
      → IsTable (listen_table {s = s} endpoint n).0.table
  unfolding listen_table listen_at entry_at
  listen_table-IsTable endpoint n b = elim (Bool-cases (endpoint.port == 0)) [
    | inl nought ↦ rw nought b
    | inr named ↦ elim (Option-cases (get_elem? n.table endpoint.port)) [
      | inl out ↦ rw (named, out, out) b
      | inr (none, at) ↦ rw (named, at, at) (set-IsTable n.table endpoint.port _ (omega arith) b)
      | inr (some entry, at) ↦ rw (named, at, at) b
    ]
  ]

  drop_queue-table :
      (E : Type 0) (queue : List ℕ) (n : Net s)
      → (drop_queue {s = s} {E = E} queue n).0.table ≡ n.table
  unfolding drop_queue
  drop_queue-table E [] n = refl
  drop_queue-table E (handle ∷ queue) n = elim (Option-cases (s.remove handle n.sockets)) [
    | inl absent ↦ rw absent refl
    | inr (sockets, removed) ↦
        rw removed (drop_queue-table E queue (record n { sockets = sockets }))
  ]

  update-IsTable :
      (E : Type 0) (port : ℕ) (p : Net s × Outcome E (Unit {0}))
      → IsTable p.0.table
      → IsTable (continue_with {E = E} (λ _. update_table port none) p).0.table
  update-IsTable E port (n, ok _) b = set-IsTable n.table port none tt b
  update-IsTable E port (n, err e) b = b
  update-IsTable E port (n, panic) b = b

  unlisten-IsTable :
      (E : Type 0) (port : ℕ) (n : Net s)
      → IsTable n.table
      → IsTable (unlisten {s = s} {E = E} port n).0.table
  unfolding unlisten drop_entry entry_at
  unlisten-IsTable E port n b = elim (Option-cases (get_elem? n.table port)) [
    | inl out ↦ rw out b
    | inr (none, at) ↦ rw at (set-IsTable n.table port none tt b)
    | inr (some entry, at) ↦ rw at (
        update-IsTable E port (drop_queue entry.syn_queue n)
          (subst IsTable (sym (drop_queue-table E entry.syn_queue n)) b))
  ]

  -- What the net thread does to the table: its own calls, and anything else that changes the
  -- sockets or draws a port.
  pub data Step (n : Net s) : Net s → Type 0 where
    listens : (endpoint : IpListenEndpoint) → Step n (listen_table endpoint n).0
    unlistens : (port : ℕ) → Step n (unlisten {E = AxError} port n).0
    accepts_one : (port : ℕ) → Step n (accept port n).0
    receives : (src dst : IpEndpoint) → Step n (incoming_tcp_packet {E = AxError} src dst n).0
    elsewhere :
        (sockets : s.SocketSet) (curr : ℕ) → Step n (record n { sockets = sockets; curr = curr })

  pub data Reachable : Net s → Type 0 where
    starts :
        (sockets : s.SocketSet) (curr : ℕ)
        → Reachable (record { sockets = sockets; table = new_table; curr = curr })
    steps_to : {n n' : Net s} → Reachable n → Step n n' → Reachable n'

  Step-IsTable : (n n' : Net s) → Step n n' → IsTable n.table → IsTable n'.table
  Step-IsTable n n' (listens endpoint) b = listen_table-IsTable endpoint n b
  Step-IsTable n n' (unlistens port) b = unlisten-IsTable AxError port n b
  Step-IsTable n n' (accepts_one port) b = accept-IsTable port n b
  Step-IsTable n n' (receives src dst) b = incoming_tcp_packet-IsTable AxError src dst n b
  Step-IsTable n n' (elsewhere sockets curr) b = b

  -- Whatever sequence of listens, unlistens, accepts and incoming packets the net thread has seen,
  -- the table has its PORT_NUM entries and no queue holds more than LISTEN_QUEUE_SIZE handles.
  pub Reachable-IsTable : (n : Net s) → Reachable n → IsTable n.table
  Reachable-IsTable n (starts sockets curr) = new_table-IsTable
  Reachable-IsTable n (steps_to {n = m} before step) =
      Step-IsTable m n step (Reachable-IsTable m before)
