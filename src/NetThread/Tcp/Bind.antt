-- ===== src/NetThread/Tcp/Bind.antt =====
-- `TcpSocket::bind` of crates/net-thread/src/smoltcp_impl/tcp.rs.
use rust_root_task_demo_mi_d.Prelude.{
  ℕ, ◌≡◌, ◌≢◌, ◌⊎◌, refl, List, [], ◌∷◌, ◌++◌, All, Option, none, some, true, false, not, inl, inr,
  ap, ◌∙◌, Bool-cases, ==_false, ==_refl, ==_iff, ok, err, if◌then◌else◌,
}
use rust_root_task_demo_mi_d.NetThread.Smoltcp.{
  Smoltcp, IpAddress, ipv4, ipv6, same_addr, IpEndpoint, IpListenEndpoint, is_unspecified,
  same_endpoint, unspecified_endpoint,
}
use rust_root_task_demo_mi_d.NetThread.ListenTable.{addr_in_use, invalid_input}
use rust_root_task_demo_mi_d.NetThread.Tcp.{
  state_busy, state_closed, Tcp, settle, update_state, with_port, bind_check, same_or, addr_bound,
  bind_with, bind, bound_port, bound_endpoint, handle_or_new,
}

-- The endpoint that smoltcp is told.
abbrev pub endpoint_of : IpEndpoint → IpListenEndpoint
endpoint_of addr = record {
  addr = if not (is_unspecified addr.addr) then some addr.addr else none;
  port = addr.port;
}

same_addr_refl : (a : IpAddress) → same_addr a a ≡ true
same_addr_refl (ipv4 a) = ==_refl a
same_addr_refl (ipv6 a) = ==_refl a

same_addr-eq : (a b : IpAddress) → same_addr a b ≡ true → a ≡ b
same_addr-eq (ipv4 a) (ipv4 b) e = ap ipv4 ((==_iff a b).0 e)
same_addr-eq (ipv4 a) (ipv6 b) e = cc
same_addr-eq (ipv6 a) (ipv4 b) e = cc
same_addr-eq (ipv6 a) (ipv6 b) e = ap ipv6 ((==_iff a b).0 e)

-- The loop finds an address wherever it stands, and no other.
addr_bound-found :
    (before after : List (Option IpAddress)) (a : IpAddress)
    → addr_bound (before ++ some a ∷ after) a ≡ true
unfolding addr_bound
addr_bound-found [] after a = rw (same_addr_refl a) refl
addr_bound-found (x ∷ before) after a = elim (Bool-cases (same_or x a)) [
  | inl e ↦ rw e refl
  | inr e ↦ rw e (addr_bound-found before after a)
]

same_or-other : (x : Option IpAddress) (a : IpAddress) → x ≢ some a → same_or x a ≡ false
same_or-other none a h = refl
same_or-other (some b) a h = elim (Bool-cases (same_addr b a)) [
  | inl e ↦ absurd (h (ap some (same_addr-eq b a e)))
  | inr e ↦ e
]

addr_bound-free :
    (bounds : List (Option IpAddress)) (a : IpAddress)
    → All (λ x. x ≢ some a) bounds
    → addr_bound bounds a ≡ false
unfolding addr_bound
addr_bound-free [] a h = refl
addr_bound-free (x ∷ bounds) a (ne, h) = rw (same_or-other x a ne) (addr_bound-free bounds a h)

module _ {s : Smoltcp} where
  abbrev pub IsFresh : Tcp s → Type 0
  IsFresh t = t.self.local_addr ≡ unspecified_endpoint

  abbrev pub busy : Tcp s → Tcp s
  busy t = record t { self = record (t.self) { state = state_busy } }

  -- `bind` on a closed socket and an address with a port.
  bind-closed :
      (addr : IpEndpoint) (t : Tcp s)
      → t.self.state ≡ state_closed
      → addr.port ≢ 0
      → bind addr t ≡ settle state_closed state_closed (bind_with addr (busy t))
  unfolding bind update_state with_port
  bind-closed addr t closed named =
      rw closed (ap (settle state_closed state_closed) (rw (==_false addr.port 0 named) refl))

module _ {s : Smoltcp} (addr : IpEndpoint) (u : Tcp s) where
  bind_with-bound :
      same_endpoint u.self.local_addr unspecified_endpoint ≡ false
      → bind_with addr u ≡ (u, err invalid_input)
  unfolding bind_with
  bind_with-bound bound = rw bound refl

  bind_with-in_use :
      IsFresh u
      → u.self.reuse_addr ≡ false
      → addr_bound (s.bound_addrs u.net.sockets) addr.addr ≡ true
      → bind_with addr u
        ≡ (record u { self = record (u.self) { local_addr = addr } }, err addr_in_use)
  unfolding bind_with bind_check
  bind_with-in_use fresh exclusive taken = simp (fresh, exclusive, taken)

  bind_with-free :
      (handle : ℕ) (socket : s.Socket)
      → addr.port ≢ 0
      → IsFresh u
      → (u.self.reuse_addr ≡ true) ⊎ All (λ x. x ≢ some addr.addr) (s.bound_addrs u.net.sockets)
      → u.self.handle ≡ some handle
      → s.get u.net.sockets handle ≡ some socket
      → bind_with addr u ≡ (
        record u {
          net = record (u.net) {
            sockets = s.set u.net.sockets handle (s.set_bound_endpoint (endpoint_of addr) socket);
          };
          self = record (u.self) { local_addr = addr };
        },
        ok tt,
      )
  unfolding bind_with bind_check bound_endpoint bound_port handle_or_new
  bind_with-free handle socket named fresh (inl reuse) has found =
      simp (fresh, reuse, ==_false addr.port 0 named, has, found)
  bind_with-free handle socket named fresh (inr others) has found =
      let free : addr_bound (s.bound_addrs u.net.sockets) addr.addr ≡ false =
        addr_bound-free (s.bound_addrs u.net.sockets) addr.addr others in
      elim (Bool-cases u.self.reuse_addr) [
        | inl reuse ↦ simp (fresh, reuse, ==_false addr.port 0 named, has, found)
        | inr exclusive ↦ simp (fresh, exclusive, free, ==_false addr.port 0 named, has, found)
      ]

module _ {s : Smoltcp} (addr : IpEndpoint) (t : Tcp s) where
  -- A closed socket that is bound already, to an address or a port, refuses any address with a
  -- port, and stays as it is.
  pub bind_bound :
      t.self.state ≡ state_closed
      → addr.port ≢ 0
      → same_endpoint t.self.local_addr unspecified_endpoint ≡ false
      → bind addr t
        ≡ (record t { self = record (t.self) { state = state_closed } }, err invalid_input)
  unfolding settle bind_with
  bind_bound closed named bound =
      bind-closed addr t closed named
      ∙ ap (settle state_closed state_closed) (bind_with-bound addr (busy t) bound)

  -- Binding a fresh closed socket to an address that a socket anywhere in the set is bound to fails,
  -- whatever the two ports, unless SO_REUSEADDR is set; the refused address stays in the socket.
  pub bind_in_use :
      (before after : List (Option IpAddress))
      → t.self.state ≡ state_closed
      → addr.port ≢ 0
      → IsFresh t
      → t.self.reuse_addr ≡ false
      → s.bound_addrs t.net.sockets ≡ before ++ some addr.addr ∷ after
      → bind addr t ≡ (
        record t { self = record (t.self) { state = state_closed; local_addr = addr } },
        err addr_in_use,
      )
  unfolding settle bind_with bind_check
  bind_in_use before after closed named fresh exclusive taken =
      bind-closed addr t closed named
      ∙ ap (settle state_closed state_closed) (
          bind_with-in_use addr (busy t) fresh exclusive
            (ap (λ l. addr_bound l addr.addr) taken ∙ addr_bound-found before after addr.addr))

  -- Binding a fresh closed socket of the set, to an address with a port, succeeds where no socket of
  -- the set is bound to the address or SO_REUSEADDR is set: the socket has the address, and smoltcp
  -- is told the port and, unless it is unspecified, the address.
  pub bind_lem :
      (handle : ℕ) (socket : s.Socket)
      → t.self.state ≡ state_closed
      → addr.port ≢ 0
      → IsFresh t
      → (t.self.reuse_addr ≡ true) ⊎ All (λ x. x ≢ some addr.addr) (s.bound_addrs t.net.sockets)
      → t.self.handle ≡ some handle
      → s.get t.net.sockets handle ≡ some socket
      → bind addr t ≡ (
        record t {
          net = record (t.net) {
            sockets = s.set t.net.sockets handle (s.set_bound_endpoint (endpoint_of addr) socket);
          };
          self = record (t.self) { state = state_closed; local_addr = addr };
        },
        ok tt,
      )
  unfolding settle bind_with bind_check bound_endpoint bound_port handle_or_new
  bind_lem handle socket closed named fresh free has found =
      bind-closed addr t closed named
      ∙ ap (settle state_closed state_closed)
          (bind_with-free addr (busy t) handle socket named fresh free has found)
