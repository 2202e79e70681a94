-- ===== src/NetThread/Poll.antt =====
-- `snoop_tcp_packet`, `RxToken::preprocess` and `SocketSetWrapper::poll_interfaces` of
-- crates/net-thread/src/smoltcp_impl/mod.rs, with `snoop_tcp_from_ip` of loopback.rs: polling the network hands the first packet of each
-- connection to the listen table.
use rust_root_task_demo_mi_d.Prelude.{
  ℕ, not, ◌&&◌, List, Option, none, some, if◌then◌else◌, Outcome, ok, err, panic, Exec,
}
use rust_root_task_demo_mi_d.NetThread.Smoltcp.{IpEndpoint, Ipv4Packet, TcpPacket, Smoltcp}
use rust_root_task_demo_mi_d.NetThread.ListenTable.{ListenTableEntry, Net, incoming_tcp_packet}

-- What one poll carries along: the table, the port counter, and how the work stands.
abbrev pub Progress : Type 0 → Type 0
Progress E = List (Option ListenTableEntry) × ℕ × Outcome E (Unit {0})

module _ {s : Smoltcp} where
  unfoldable pub snoop_tcp :
      {E : Type 0} → Ipv4Packet → Option TcpPacket → Exec (Net s) E (Unit {0})
  snoop_tcp ip none n = (n, ok tt)
  snoop_tcp ip (some tcp) n =
      let src : IpEndpoint = record { addr = ip.src_addr; port = tcp.src_port } in
      let dst : IpEndpoint = record { addr = ip.dst_addr; port = tcp.dst_port } in
      if tcp.syn && not tcp.ack then incoming_tcp_packet src dst n else (n, ok tt)

  unfoldable pub snoop_ipv4 : {E : Type 0} → Option Ipv4Packet → Exec (Net s) E (Unit {0})
  snoop_ipv4 none n = (n, ok tt)
  snoop_ipv4 (some ip) n =
      if ip.is_tcp then snoop_tcp ip (s.tcp_packet ip.payload) n else (n, ok tt)

  unfoldable pub snoop_ethernet : {E : Type 0} → Option (List ℕ) → Exec (Net s) E (Unit {0})
  snoop_ethernet none n = (n, ok tt)
  snoop_ethernet (some payload) n = snoop_ipv4 (s.ipv4_packet payload) n

  -- A buffer that does not parse is an error that `preprocess` drops.
  unfoldable pub snoop_tcp_packet : {E : Type 0} → List ℕ → Exec (Net s) E (Unit {0})
  snoop_tcp_packet buf = snoop_ethernet (s.ethernet_payload buf)

  -- The loopback device carries IPv4 packets without a frame.
  unfoldable pub snoop_tcp_from_ip : {E : Type 0} → List ℕ → Exec (Net s) E (Unit {0})
  snoop_tcp_from_ip buffer = snoop_ipv4 (s.ipv4_packet buffer)

  abbrev pub packed : {E : Type 0} → Net s × Outcome E (Unit {0}) → Progress E × s.SocketSet
  packed (n, r) = ((n.table, n.curr, r), n.sockets)

  abbrev pub unpacked : {E : Type 0} → Progress E × s.SocketSet → Net s × Outcome E (Unit {0})
  unpacked ((table, curr, r), sockets) =
      (record { sockets = sockets; table = table; curr = curr }, r)

module _ (s : Smoltcp) where
  -- Once a frame has made the thread panic, no further one is looked at.
  unfoldable pub preprocess :
      {E : Type 0}
      → (List ℕ → Exec (Net s) E (Unit {0}))
      → List ℕ
      → Progress E × s.SocketSet
      → Progress E × s.SocketSet
  preprocess snoop buf ((table, curr, ok _), sockets) =
      packed {s = s} (snoop buf (record { sockets = sockets; table = table; curr = curr }))
  preprocess snoop buf ((table, curr, err e), sockets) = ((table, curr, err e), sockets)
  preprocess snoop buf ((table, curr, panic), sockets) = ((table, curr, panic), sockets)

module _ {s : Smoltcp} where
  unfoldable pub poll_interfaces : {E : Type 0} → Exec (Net s) E (Unit {0})
  poll_interfaces n = unpacked (
      s.poll_eth0 (preprocess s snoop_tcp_packet)
        (s.poll_loopback (preprocess s snoop_tcp_from_ip) ((n.table, n.curr, ok tt), n.sockets)))
