-- ===== src/Uspace.antt =====
-- `LibcSocketAddr` of crates/common/src/uspace.rs: the C form of a socket address, as a user task
-- passes it. A `SocketAddr` is an address by its bits, with a port.
use rust_root_task_demo_mi_d.Prelude.{
  ℕ, zero, suc, ◌+◌, ◌*◌, ◌/◌, ◌%◌, ◌^◌, ◌<◌, ◌≡◌, List, [], ◌∷◌, ◌++◌, Option, none, some,
  get_elem?, take, replicate, arith,
}
use rust_root_task_demo_mi_d.NetThread.Smoltcp.{IpAddress, ipv4, ipv6, IpEndpoint}

pub record LibcSocketAddr : Type 0 where
  pub sa_family : ℕ
  pub sa_data : List ℕ

abbrev pub default_libc : LibcSocketAddr
default_libc = record { sa_family = 0; sa_data = replicate 14 0 }

-- The octets of an address, the highest first.
abbrev pub octets : ℕ → ℕ → List ℕ
octets zero bits = []
octets (suc n) bits = (bits / 256 ^ n) % 256 ∷ octets n bits

-- What the loops over the octets write: all four, or the first twelve of sixteen.
abbrev pub ip_bytes : IpAddress → List ℕ
ip_bytes (ipv4 bits) = octets 4 bits ++ replicate 8 0
ip_bytes (ipv6 bits) = take 12 (octets 16 bits)

-- `From<SocketAddr>`.
unfoldable pub from_socket_addr : IpEndpoint → LibcSocketAddr
from_socket_addr value = record {
  sa_family = 2;
  sa_data = (value.port / 2 ^ 8) % 256 ∷ value.port % 256 ∷ ip_bytes value.addr;
}

-- A byte of the array, whose length the type fixes at 14.
abbrev pub byte_or : Option ℕ → ℕ
byte_or none = 0
byte_or (some b) = b

abbrev pub data_at : LibcSocketAddr → ℕ → ℕ
data_at addr i = byte_or (get_elem? addr.sa_data i)

-- `Into<SocketAddr>`.
unfoldable pub into_socket_addr : LibcSocketAddr → IpEndpoint
into_socket_addr addr = record {
  addr =
      ipv4 (
        data_at addr 2 * 2 ^ 24
        + data_at addr 3 * 2 ^ 16
        + data_at addr 4 * 2 ^ 8
        + data_at addr 5);
  port = data_at addr 0 * 2 ^ 8 + data_at addr 1;
}

-- An IPv4 address and its port survive the way to the C form and back; of an IPv6 address the port
-- survives, and its first four octets come back as an IPv4 address.
pub socket_addr_round_trip :
    (bits bits₆ port : ℕ)
    → port < 2 ^ 16
    → bits < 2 ^ 32
    → bits₆ < 2 ^ 128
    → (into_socket_addr (from_socket_addr (record { addr = ipv4 bits; port = port }))
        ≡ record { addr = ipv4 bits; port = port })
      × (into_socket_addr (from_socket_addr (record { addr = ipv6 bits₆; port = port }))
          ≡ record { addr = ipv4 (bits₆ / 2 ^ 96); port = port })
unfolding into_socket_addr from_socket_addr
socket_addr_round_trip bits bits₆ port h l l₆ = (ground arith, ground arith)
