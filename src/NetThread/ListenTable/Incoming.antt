-- ===== src/NetThread/ListenTable/Incoming.antt =====
-- `ListenTable::incoming_tcp_packet` of crates/net-thread/src/smoltcp_impl/listen_table.rs.
use rust_root_task_demo_mi_d.Prelude.{
  ◌≤◌, ◌≡◌, refl, some, false, length, get_elem?, get_elem?-ge, arith, ok, panic, le→leb, ◌⊎◌, inl,
  inr, Bool-cases,
}
use rust_root_task_demo_mi_d.NetThread.Smoltcp.{Smoltcp, IpEndpoint}
use rust_root_task_demo_mi_d.NetThread.ListenTable.{
  ListenTableEntry, Net, listen_queue_size, port_num, entry_at, incoming_tcp_packet, incoming_at,
  accepts,
}

module _ {s : Smoltcp} (E : Type 0) (src dst : IpEndpoint) (n : Net s) where
  -- The first packet of a connection to a port behind the end of the table panics.
  pub incoming_tcp_packet-overrun :
      length n.table ≡ port_num
      → port_num ≤ dst.port
      → incoming_tcp_packet {s = s} {E = E} src dst n ≡ (n, panic)
  unfolding incoming_tcp_packet entry_at
  incoming_tcp_packet-overrun size h = rw (get_elem?-ge n.table dst.port (omega arith)) refl

  -- A packet to another address, or to a queue that is full, is dropped, and nothing changes.
  pub incoming_tcp_packet-drop :
      (entry : ListenTableEntry)
      → get_elem? n.table dst.port ≡ some (some entry)
      → (accepts entry.listen_endpoint.addr dst.addr ≡ false)
        ⊎ (listen_queue_size ≤ length entry.syn_queue)
      → incoming_tcp_packet {s = s} {E = E} src dst n ≡ (n, ok tt)
  unfolding incoming_tcp_packet incoming_at entry_at
  incoming_tcp_packet-drop entry at (inl other) = rw (at, other) refl
  incoming_tcp_packet-drop entry at (inr full) =
      elim (Bool-cases (accepts entry.listen_endpoint.addr dst.addr)) [
        | inl mine ↦ rw (at, mine, le→leb listen_queue_size (length entry.syn_queue) full) refl
        | inr other ↦ rw (at, other) refl
      ]
