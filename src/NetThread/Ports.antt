-- ===== src/NetThread/Ports.antt =====
-- `get_ephemeral_port` of crates/net-thread/src/smoltcp_impl/tcp.rs.
pub mod Search
use rust_root_task_demo_mi_d.Prelude.{
  ℕ, zero, suc, ◌+◌, ◌-◌, Bool, ◌==◌, if◌then◌else◌, Exec, pure, fail, ◌>>=◌,
}
use rust_root_task_demo_mi_d.NetThread.Smoltcp.{Smoltcp}
use rust_root_task_demo_mi_d.NetThread.ListenTable.{AxError, addr_in_use, Net, can_listen}

module _ {s : Smoltcp} where
  -- The loop of `get_ephemeral_port`, by the tries that are left.
  unfoldable pub ephemeral_from : ℕ → Exec (Net s) AxError ℕ
  ephemeral_from zero = fail addr_in_use
  ephemeral_from (suc tries) = λ n.
      let port : ℕ = n.curr in
      let n₁ : Net s = record n { curr = if port == 0xffff then 0x1000 else port + 1 } in
      (do free ← can_listen port; if free then pure port else ephemeral_from tries) n₁

  unfoldable pub get_ephemeral_port : Exec (Net s) AxError ℕ
  get_ephemeral_port = do logged ← can_listen 6379; ephemeral_from (0xffff - 0x1000 + 1)
