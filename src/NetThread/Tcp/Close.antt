-- ===== src/NetThread/Tcp/Close.antt =====
-- `shutdown` and `close` of `TcpSocket`, crates/net-thread/src/smoltcp_impl/tcp.rs.
use rust_root_task_demo_mi_d.Prelude.{none, some, ok, Exec, pure, unwrap, ◌>>=◌, ◌>>◌}
use rust_root_task_demo_mi_d.NetThread.Smoltcp.{unspecified_endpoint, Smoltcp}
use rust_root_task_demo_mi_d.NetThread.ListenTable.{AxError, unlisten}
use rust_root_task_demo_mi_d.NetThread.Poll.{poll_interfaces}
use rust_root_task_demo_mi_d.NetThread.Tcp.{
  state_closed, state_connected, state_listening, Tcp, on_net, set_local, change_socket,
  update_state,
}

module _ {s : Smoltcp} where
  -- The first exchange of `shutdown`: a connected socket is closed.
  unfoldable pub shutdown_stream : Exec (Tcp s) AxError (Unit {0})
  shutdown_stream =
      update_state state_connected state_closed
        (λ t.
          (do
            handle ← unwrap t.self.handle
            change_socket handle s.close
            set_local unspecified_endpoint
            on_net poll_interfaces)
            t)
        (pure tt)

  -- The second one: a listening socket leaves the listen table.
  unfoldable pub shutdown_listener : Exec (Tcp s) AxError (Unit {0})
  shutdown_listener =
      update_state state_listening state_closed
        (λ t.
          (do
            set_local unspecified_endpoint
            on_net (unlisten t.self.local_addr.port)
            on_net poll_interfaces)
            t)
        (pure tt)

  unfoldable pub shutdown : Exec (Tcp s) AxError (Unit {0})
  shutdown = do shutdown_stream; shutdown_listener

  unfoldable pub close : {E : Type 0} → Exec (Tcp s) E (Unit {0})
  close t = elim t.self.handle [
    | some handle ↦ (do change_socket handle s.close; on_net poll_interfaces) t
    | none ↦ (t, ok tt)
  ]
