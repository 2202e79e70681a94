-- ===== src/NetThread/ListenTable/Listening.antt =====
-- `ListenTable::listen`, `can_listen` and `unlisten` of
-- crates/net-thread/src/smoltcp_impl/listen_table.rs.
use rust_root_task_demo_mi_d.Prelude.{
  ℕ, zero, suc, ◌<◌, ◌≡◌, ◌≢◌, refl, sym, ap, List, [], ◌∷◌, Option, none, some, length, get_elem?,
  get_elem?-set_self, get_elem?-set_ne, set, arith, ok, err, ==_false,
}
use rust_root_task_demo_mi_d.NetThread.Smoltcp.{Smoltcp, IpListenEndpoint}
use rust_root_task_demo_mi_d.NetThread.ListenTable.{
  AxError, addr_in_use, ListenTableEntry, Net, entry_at, listen_table, listen_at, unlisten,
  drop_entry, drop_queue,
}

set-undo :
    (table : List (Option ListenTableEntry)) (i : ℕ) (x y : Option ListenTableEntry)
    → get_elem? table i ≡ some x
    → set (set table i y) i x ≡ table
set-undo [] i x y e = cc
set-undo (z ∷ table) zero x y e = let same : z ≡ x = cc in ap (λ w. w ∷ table) (sym same)
set-undo (z ∷ table) (suc i) x y e = ap (λ t. z ∷ t) (set-undo table i x y e)

get_elem?-length :
    (table : List (Option ListenTableEntry)) (i : ℕ) (x : Option ListenTableEntry)
    → get_elem? table i ≡ some x
    → i < length table
get_elem?-length [] i x e = cc
get_elem?-length (z ∷ table) zero x e = omega arith
get_elem?-length (z ∷ table) (suc i) x e = omega (arith, get_elem?-length table i x e)

module _ {s : Smoltcp} (endpoint : IpListenEndpoint) (n : Net s) where
  -- Listening on a free port, not 0, succeeds: the port is taken for a second listen, every other
  -- port stays as it was, and unlistening restores the state before.
  pub listen_table_lem :
      endpoint.port ≢ 0
      → get_elem? n.table endpoint.port ≡ some none
      → (n' : Net s) × (listen_table endpoint n ≡ (n', ok tt))
        × ((other : IpListenEndpoint)
            → other.port ≡ endpoint.port
            → listen_table other n' ≡ (n', err addr_in_use))
        × ((port : ℕ) → port ≢ endpoint.port → get_elem? n'.table port ≡ get_elem? n.table port)
        × (unlisten {s = s} {E = AxError} endpoint.port n' ≡ (n, ok tt))
  unfolding listen_table listen_at entry_at unlisten drop_entry drop_queue
  listen_table_lem named free =
      let entry : Option ListenTableEntry =
        some (record { listen_endpoint = endpoint; syn_queue = [] }) in
      let taken : get_elem? (set n.table endpoint.port entry) endpoint.port ≡ some entry =
        get_elem?-set_self n.table endpoint.port entry
          (get_elem?-length n.table endpoint.port none free) in
      (
        record n { table = set n.table endpoint.port entry },
        rw (==_false endpoint.port 0 named, free, free) refl,
        λ other same. rw (same, ==_false endpoint.port 0 named, taken) refl,
        λ port h. get_elem?-set_ne n.table endpoint.port port entry (λ e. h (sym e)),
        rw (taken, set-undo n.table endpoint.port none entry free) refl,
      )
