-- ===== src/NetThread/Ports/Search.antt =====
-- `get_ephemeral_port` of crates/net-thread/src/smoltcp_impl/tcp.rs: what the search finds.
use rust_root_task_demo_mi_d.Prelude.{
  ℕ, zero, suc, ◌+◌, ◌<◌, ◌≡◌, refl, ap, subst, ◌∙◌, Bool, none, some, length, get_elem?,
  get_elem?-lt, get_elem?-ge, arith, ok, panic, ==_false,
}
use rust_root_task_demo_mi_d.NetThread.Smoltcp.{Smoltcp}
use rust_root_task_demo_mi_d.NetThread.ListenTable.{
  ListenTableEntry, Net, port_num, entry_at, can_listen, is_free, AxError,
}
use rust_root_task_demo_mi_d.NetThread.Ports.{ephemeral_from, get_ephemeral_port}

module _ {s : Smoltcp} where
  -- Some socket listens on each of `j` ports from `port` on.
  abbrev pub IsTaken : Net s → ℕ → ℕ → Type 0
  IsTaken n port zero = Unit {0}
  IsTaken n port (suc j) =
      ((entry : ListenTableEntry) × (get_elem? n.table port ≡ some (some entry)))
      × IsTaken n (port + 1) j

  -- The log line of `get_ephemeral_port`, on a table of full size.
  logged :
      (n : Net s)
      → length n.table ≡ port_num
      → (b : Bool) × (can_listen {s = s} {E = AxError} 6379 n ≡ (n, ok b))
  unfolding can_listen entry_at
  logged n h =
      let (entry, e) = get_elem?-lt n.table 6379 (omega arith) in (is_free entry, rw e refl)

  found_from :
      (j tries : ℕ) (n : Net s)
      → j < tries
      → n.curr + j < port_num
      → IsTaken n n.curr j
      → get_elem? n.table (n.curr + j) ≡ some none
      → ephemeral_from (tries) n ≡ (record n { curr = n.curr + j + 1 }, ok (n.curr + j))
  unfolding ephemeral_from can_listen entry_at
  found_from j zero n k h taken free = absurd (omega arith)
  found_from zero (suc tries) n k h taken free =
      let here : get_elem? n.table n.curr ≡ some none =
        subst (λ p. get_elem? n.table p ≡ some none) (omega arith) free in
      rw (==_false n.curr 0xffff (omega arith), here)
        (ap (λ p. (record n { curr = p + 1 }, ok p)) (omega arith))
  found_from (suc j) (suc tries) n k h ((entry, e), taken) free =
      rw (==_false n.curr 0xffff (omega arith), e)
        (found_from j tries (record n { curr = n.curr + 1 }) (omega arith) (omega arith) taken
            (subst (λ p. get_elem? n.table p ≡ some none) (omega arith) free)
          ∙ ap (λ p. (record n { curr = p + 1 }, ok p)) (omega arith))

  overrun :
      (j tries : ℕ) (n : Net s)
      → j < tries
      → length n.table ≡ port_num
      → n.curr + j ≡ port_num
      → IsTaken n n.curr j
      → (ephemeral_from (tries) n).1 ≡ panic
  unfolding ephemeral_from can_listen entry_at
  overrun j zero n k size h taken = absurd (omega arith)
  overrun zero (suc tries) n k size h taken =
      rw (==_false n.curr 0xffff (omega arith), get_elem?-ge n.table n.curr (omega arith)) refl
  overrun (suc j) (suc tries) n k size h ((entry, e), taken) =
      rw (==_false n.curr 0xffff (omega arith), e)
        (overrun j tries (record n { curr = n.curr + 1 }) (omega arith) size (omega arith) taken)

  -- The search returns the first free port at or behind the current one, where there is one within
  -- the table, and the next search starts behind it.
  pub get_ephemeral_port-first :
      (j : ℕ) (n : Net s)
      → length n.table ≡ port_num
      → n.curr + j < port_num
      → IsTaken n n.curr j
      → get_elem? n.table (n.curr + j) ≡ some none
      → get_ephemeral_port n ≡ (record n { curr = n.curr + j + 1 }, ok (n.curr + j))
  unfolding get_ephemeral_port
  get_ephemeral_port-first j n size h taken free =
      let (b, e) = logged n size in rw e (found_from j 0xf000 n (omega arith) h taken free)

  -- Where every port from the current one to the end of the table is taken, the search runs over
  -- the end of the table and panics.
  pub get_ephemeral_port-overrun :
      (j : ℕ) (n : Net s)
      → length n.table ≡ port_num
      → n.curr + j ≡ port_num
      → IsTaken n n.curr j
      → (get_ephemeral_port n).1 ≡ panic
  unfolding get_ephemeral_port
  get_ephemeral_port-overrun j n size h taken =
      let (b, e) = logged n size in rw e (overrun j 0xf000 n (omega arith) size h taken)
