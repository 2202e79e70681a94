-- ===== src/NetThread/Requests/Ids.antt =====
-- The identifiers of sockets in crates/net-thread/src/ipc/mod.rs.
use rust_root_task_demo_mi_d.Prelude.{
  ℕ, zero, suc, ◌<◌, ◌≡◌, ◌≢◌, refl, sym, ap, false, ◌∙◌, List, [], ◌∷◌, Option, none, some,
  get_elem?, set, get_elem?-set_self, get_elem?-set_ne, length, arith, ok,
}
use rust_root_task_demo_mi_d.NetThread.Smoltcp.{Smoltcp, unspecified_endpoint}
use rust_root_task_demo_mi_d.NetThread.Tcp.{TcpSocket, state_closed, new_tcp_socket}
use rust_root_task_demo_mi_d.NetThread.Requests.{
  NetServer, first_free, with_free, alloc_socket_id, put_socket, request_new,
}

free_place :
    (sockets : List (Option TcpSocket))
    → get_elem? (with_free sockets) (first_free sockets) ≡ some none
unfolding with_free first_free
free_place [] = refl
free_place (none ∷ sockets) = refl
free_place (some socket ∷ sockets) = free_place sockets

free_within : (sockets : List (Option TcpSocket)) → first_free sockets < length (with_free sockets)
unfolding with_free first_free
free_within [] = omega arith
free_within (none ∷ sockets) = omega arith
free_within (some socket ∷ sockets) = omega (arith, free_within sockets)

-- Every place below the free one is taken.
below_free :
    (sockets : List (Option TcpSocket)) (i : ℕ)
    → i < first_free sockets
    → (socket : TcpSocket) × (get_elem? sockets i ≡ some (some socket))
unfolding first_free
below_free [] i h = absurd (omega arith)
below_free (none ∷ sockets) i h = absurd (omega arith)
below_free (some socket ∷ sockets) zero h = (socket, refl)
below_free (some socket ∷ sockets) (suc i) h = below_free sockets i (omega arith)

not_taken :
    (sockets : List (Option TcpSocket)) (socket : TcpSocket)
    → get_elem? sockets (first_free sockets) ≢ some (some socket)
unfolding first_free
not_taken [] socket e = cc
not_taken (none ∷ sockets) socket e = cc
not_taken (some x ∷ sockets) socket e = not_taken sockets socket e

with_free-other :
    (sockets : List (Option TcpSocket)) (i : ℕ)
    → i ≢ first_free sockets
    → get_elem? (with_free sockets) i ≡ get_elem? sockets i
unfolding with_free first_free
with_free-other [] zero h = absurd (h refl)
with_free-other [] (suc i) h = refl
with_free-other (none ∷ sockets) i h = refl
with_free-other (some socket ∷ sockets) zero h = refl
with_free-other (some socket ∷ sockets) (suc i) h = with_free-other sockets i (λ e. h (ap suc e))

module _ {s : Smoltcp} (E : Type 0) where
  -- A request for a socket replies with the lowest identifier that is not in use, under which a
  -- closed and unbound socket stands with its new handle, and leaves every other socket alone.
  pub request_new_lem :
      (v : NetServer s)
      → let (sockets, handle) = s.add s.new_socket v.net.sockets in
        (v' : NetServer s) × (id : ℕ) × (request_new {s = s} {E = E} v ≡ (v', ok id))
        × ((i : ℕ) → i < id → (socket : TcpSocket) × (get_elem? v.sockets i ≡ some (some socket)))
        × ((socket : TcpSocket) → get_elem? v.sockets id ≢ some (some socket))
        × (get_elem? v'.sockets id
            ≡ some (
                some (record {
                  state = state_closed;
                  handle = some handle;
                  local_addr = unspecified_endpoint;
                  peer_addr = unspecified_endpoint;
                  nonblock = false;
                  reuse_addr = false;
                })))
        × ((i : ℕ) → i ≢ id → get_elem? v'.sockets i ≡ get_elem? v.sockets i)
  unfolding request_new alloc_socket_id put_socket new_tcp_socket
  request_new_lem v =
      let (sockets, handle) = s.add s.new_socket v.net.sockets in
      let created : TcpSocket = record {
        state = state_closed;
        handle = some handle;
        local_addr = unspecified_endpoint;
        peer_addr = unspecified_endpoint;
        nonblock = false;
        reuse_addr = false;
      } in
      let id : ℕ = first_free v.sockets in
      let vector : List (Option TcpSocket) = with_free v.sockets in
      (
        record {
          net = record (v.net) { sockets = sockets };
          sockets = set vector id (some created);
        },
        id,
        rw (free_place v.sockets) refl,
        below_free v.sockets,
        not_taken v.sockets,
        get_elem?-set_self vector id (some created) (free_within v.sockets),
        λ i ne.
            get_elem?-set_ne vector id i (some created) (λ e. ne (sym e))
            ∙ with_free-other v.sockets i ne,
      )
