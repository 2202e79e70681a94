-- ===== src/NetThread/ListenTable/Accept.antt =====
-- `ListenTable::accept` of crates/net-thread/src/smoltcp_impl/listen_table.rs.
use mathlib.Core.List.{Perm}
use rust_root_task_demo_mi_d.Prelude.{
  ℕ, ◌≡◌, refl, ap, sym, subst, ◌∙◌, List, ◌∷◌, ◌++◌, some, true, false, length, get_elem?, set,
  All, arith, ok, err,
}
use rust_root_task_demo_mi_d.NetThread.Smoltcp.{
  Smoltcp, IpEndpoint, connected_state, closed_state, closed,
}
use rust_root_task_demo_mi_d.NetThread.ListenTable.{
  AxError, would_block, connection_reset, ListenTableEntry, Net, entry_at, is_closed,
  get_addr_tuple, accepted, accept_from, accept, find_connected,
}
use rust_root_task_demo_mi_d.NetThread.ListenTable.Queue.{
  IsWaiting, find_connected-none, find_connected-first, swap_remove_front_lem, get_elem?-middle,
}

module _ {s : Smoltcp} where
  -- A table in which one handle has left the queue of a port, and nothing else has changed.
  pub record Takes (port handle : ℕ) (entry : ListenTableEntry) (n n' : Net s) : Type 0 where
    pub queue : List ℕ
    pub taken : Perm (handle ∷ queue) entry.syn_queue
    pub net : n' ≡ record n { table = set n.table port (some (record entry { syn_queue = queue })) }

  accept-Takes :
      (port handle : ℕ) (before after : List ℕ) (entry : ListenTableEntry) (socket : s.Socket)
      (n : Net s)
      → get_elem? n.table port ≡ some (some entry)
      → entry.syn_queue ≡ before ++ handle ∷ after
      → All (IsWaiting n) before
      → s.get n.sockets handle ≡ some socket
      → connected_state (s.state socket) ≡ true
      → (n' : Net s) × (accept port n ≡ accepted handle n') × Takes port handle entry n n'
  unfolding accept entry_at accept_from
  accept-Takes port handle before after entry socket n at split waiting found connected =
      let index : get_elem? entry.syn_queue (length before) ≡ some handle =
        ap (λ q. get_elem? q (length before)) split ∙ get_elem?-middle before after handle in
      let (rest, removed, perm, len) =
        swap_remove_front_lem entry.syn_queue (length before) handle index in
      let search : find_connected {s = s} {E = AxError} 0 entry.syn_queue n
          ≡ (n, ok (some (length before))) =
        ap (λ q. find_connected 0 q n) split
        ∙ find_connected-first {E = AxError} n 0 before after handle socket waiting found connected
        ∙ ap (λ i. (n, ok (some i))) (omega arith) in
      (
        record n { table = set n.table port (some (record entry { syn_queue = rest })) },
        rw (at, search, removed) refl,
        record { queue = rest; taken = perm; net = refl },
      )

  -- Accepting takes the first connected handle from the queue of the port, behind any number that
  -- are still being set up, and returns it with its addresses; the other handles stay queued.
  pub accept_lem :
      (port handle : ℕ) (before after : List ℕ) (entry : ListenTableEntry) (socket : s.Socket)
      (local remote : IpEndpoint) (n : Net s)
      → get_elem? n.table port ≡ some (some entry)
      → entry.syn_queue ≡ before ++ handle ∷ after
      → All (IsWaiting n) before
      → s.get n.sockets handle ≡ some socket
      → connected_state (s.state socket) ≡ true
      → closed_state (s.state socket) ≡ false
      → s.local_endpoint socket ≡ some local
      → s.remote_endpoint socket ≡ some remote
      → (n' : Net s) × (accept port n ≡ (n', ok (handle, local, remote)))
        × Takes port handle entry n n'
  unfolding accepted is_closed get_addr_tuple
  accept_lem port handle before after entry socket local remote n at split waiting found connected
        alive here there =
      let (n', e, takes) =
        accept-Takes port handle before after entry socket n at split waiting found connected in
      let found' : s.get n'.sockets handle ≡ some socket =
        subst (λ (m : Net s). s.get m.sockets handle ≡ some socket) (sym takes.net) found in
      (n', e ∙ rw (found', alive, found', here, there) refl, takes)

  -- If the first connected handle has been closed since, accepting reports a reset; the handle has
  -- left the queue, and its socket stays in the socket set.
  pub accept_reset :
      (port handle : ℕ) (before after : List ℕ) (entry : ListenTableEntry) (socket : s.Socket)
      (n : Net s)
      → get_elem? n.table port ≡ some (some entry)
      → entry.syn_queue ≡ before ++ handle ∷ after
      → All (IsWaiting n) before
      → s.get n.sockets handle ≡ some socket
      → s.state socket ≡ closed
      → (n' : Net s) × (accept port n ≡ (n', err connection_reset))
        × Takes port handle entry n n'
        × (s.get n'.sockets handle ≡ some socket)
  unfolding accepted is_closed
  accept_reset port handle before after entry socket n at split waiting found reset =
      let (n', e, takes) =
        accept-Takes port handle before after entry socket n at split waiting found
          (ap connected_state reset) in
      let found' : s.get n'.sockets handle ≡ some socket =
        subst (λ (m : Net s). s.get m.sockets handle ≡ some socket) (sym takes.net) found in
      (n', e ∙ rw (found', reset) refl, takes, found')

  -- While every handle in the queue is being set up, accepting would block, and nothing changes.
  pub accept_would_block :
      (port : ℕ) (entry : ListenTableEntry) (n : Net s)
      → get_elem? n.table port ≡ some (some entry)
      → All (IsWaiting n) entry.syn_queue
      → accept port n ≡ (n, err would_block)
  unfolding accept entry_at accept_from
  accept_would_block port entry n at waiting =
      rw (at, find_connected-none {E = AxError} n 0 entry.syn_queue waiting)
