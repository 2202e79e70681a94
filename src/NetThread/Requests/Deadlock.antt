-- ===== src/NetThread/Requests/Deadlock.antt =====
-- The Accept request of crates/net-thread/src/ipc/mod.rs never replies with a connection.
use rust_root_task_demo_mi_d.Prelude.{ℕ, List, [], ◌∷◌, ◌>>=◌}
use rust_root_task_demo_mi_d.NetThread.Smoltcp.{Smoltcp}
use rust_root_task_demo_mi_d.NetThread.Tcp.{Tcp}

-- The words of an error.
abbrev pub error_words : ℕ → List ℕ
error_words n = n ∷ 0 ∷ 0 ∷ 0 ∷ 0 ∷ []
