-- ===== src/NetThread/Smoltcp.antt =====
-- The smoltcp crate as crates/net-thread/src/smoltcp_impl calls it, and the addresses of addr.rs.
-- The set of sockets with the interfaces behind it stays abstract; a socket is reached by its handle.
use rust_root_task_demo_mi_d.Prelude.{
  ℕ, Bool, true, false, ◌&&◌, Option, ◌==◌, List, ◌/◌, ◌^◌, Outcome,
}

-- `IpAddress`, by its bits.
pub data IpAddress : Type 0 where
  ipv4 : ℕ → IpAddress
  ipv6 : ℕ → IpAddress

pub record IpEndpoint : Type 0 where
  pub addr : IpAddress
  pub port : ℕ

pub record IpListenEndpoint : Type 0 where
  pub addr : Option IpAddress
  pub port : ℕ

abbrev pub same_addr : IpAddress → IpAddress → Bool
same_addr (ipv4 a) (ipv4 b) = a == b
same_addr (ipv4 a) (ipv6 b) = false
same_addr (ipv6 a) (ipv4 b) = false
same_addr (ipv6 a) (ipv6 b) = a == b

abbrev pub unspecified_endpoint : IpEndpoint
unspecified_endpoint = record { addr = ipv4 0; port = 0 }

-- `as_bytes() == [0, 0, 0, 0]`: the sixteen bytes of an IPv6 address never are.
unfoldable pub is_unspecified : IpAddress → Bool
is_unspecified (ipv4 a) = a == 0
is_unspecified (ipv6 a) = false

abbrev pub same_endpoint : IpEndpoint → IpEndpoint → Bool
same_endpoint a b = same_addr a.addr b.addr && (a.port == b.port)

-- `as_bytes()[0] == 127`
abbrev pub is_loopback : IpAddress → Bool
is_loopback (ipv4 a) = a / 2 ^ 24 == 127
is_loopback (ipv6 a) = a / 2 ^ 120 == 127

-- The states of a connection that the code tells apart.
pub data State : Type 0 where
  closed listen syn_sent syn_received established other : State

abbrev pub connected_state : State → Bool
connected_state closed = true
connected_state listen = false
connected_state syn_sent = true
connected_state syn_received = false
connected_state established = true
connected_state other = true

abbrev pub closed_state : State → Bool
closed_state closed = true
closed_state listen = false
closed_state syn_sent = false
closed_state syn_received = false
closed_state established = false
closed_state other = false

-- The errors of `Socket::connect`.
pub data ConnectError : Type 0 where
  invalid_state unaddressable : ConnectError

-- `Ipv4Packet` and `TcpPacket` over a buffer, by what `snoop_tcp_packet` reads of them.
pub record Ipv4Packet : Type 0 where
  pub src_addr : IpAddress
  pub dst_addr : IpAddress
  pub is_tcp : Bool
  pub payload : List ℕ

pub record TcpPacket : Type 0 where
  pub src_port : ℕ
  pub dst_port : ℕ
  pub syn : Bool
  pub ack : Bool

pub record Smoltcp : Type 1 where
  pub Socket : Type 0
  -- `Socket::new` on two fresh buffers.
  pub new_socket : Socket
  pub state : Socket → State
  pub local_endpoint : Socket → Option IpEndpoint
  pub remote_endpoint : Socket → Option IpEndpoint
  pub listen_on : IpListenEndpoint → Socket → Option Socket
  pub close : Socket → Socket
  pub SocketSet : Type 0
  pub add : Socket → SocketSet → SocketSet × ℕ
  -- These panic where the handle is not in the set.
  pub get : SocketSet → ℕ → Option Socket
  pub remove : ℕ → SocketSet → Option SocketSet
  pub set : SocketSet → ℕ → Socket → SocketSet
  -- `iter_mut`: the address that each socket of the set is bound to, if it has one.
  pub bound_addrs : SocketSet → List (Option IpAddress)
  -- `connect` through the loopback interface, where the flag is set, or the ethernet device.
  pub connect_to :
      Bool
      → IpEndpoint
      → IpListenEndpoint
      → Socket
      → SocketSet
      → SocketSet × Outcome ConnectError Socket
  pub set_bound_endpoint : IpListenEndpoint → Socket → Socket
  pub is_active : Socket → Bool
  pub may_recv : Socket → Bool
  pub can_recv : Socket → Bool
  pub may_send : Socket → Bool
  pub can_send : Socket → Bool
  pub recv_queue : Socket → ℕ
  -- What `recv_slice` takes into a buffer of that length, and `send_slice` from a buffer.
  pub recv_slice : ℕ → Socket → Option (List ℕ × Socket)
  pub send_slice : List ℕ → Socket → Option (ℕ × Socket)
  -- `new_checked` of `EthernetFrame`, by its payload, `Ipv4Packet` and `TcpPacket`.
  pub ethernet_payload : List ℕ → Option (List ℕ)
  pub ipv4_packet : List ℕ → Option Ipv4Packet
  pub tcp_packet : List ℕ → Option TcpPacket
  -- `poll` of the loopback interface and of ETH0, which show each frame to their `preprocess`.
  pub poll_loopback :
      {T : Type 0} → (List ℕ → T × SocketSet → T × SocketSet) → T × SocketSet → T × SocketSet
  pub poll_eth0 :
      {T : Type 0} → (List ℕ → T × SocketSet → T × SocketSet) → T × SocketSet → T × SocketSet
