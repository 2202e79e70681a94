-- ===== src/NetThread/ListenTable/Queue.antt =====
-- The queue of an entry of crates/net-thread/src/smoltcp_impl/listen_table.rs.
use mathlib.Core.List.{Perm}
use mathlib.Core.List.Perm
use rust_root_task_demo_mi_d.Prelude.{
  ℕ, zero, suc, ◌+◌, ◌≡◌, refl, ap, subst, ◌∙◌, List, [], ◌∷◌, ◌++◌, none, some, true, false,
  length, get_elem?, set, length-set, All, arith, ok,
}
use rust_root_task_demo_mi_d.NetThread.Smoltcp.{Smoltcp, connected_state}
use rust_root_task_demo_mi_d.NetThread.ListenTable.{
  Net, swap_remove_front, is_connected, find_connected,
}

set-Perm :
    (rest : List ℕ) (i front handle : ℕ)
    → get_elem? rest i ≡ some handle
    → Perm (handle ∷ set rest i front) (front ∷ rest)
set-Perm [] i front handle e = cc
set-Perm (x ∷ rest) zero front handle e =
    let same : x ≡ handle = cc in
    subst (λ y. Perm (y ∷ front ∷ rest) (front ∷ x ∷ rest)) same (Perm.swap front x rest)
set-Perm (x ∷ rest) (suc i) front handle e =
    Perm.trans (Perm.swap x handle (set rest i front))
      (Perm.trans (Perm.cons x (set-Perm rest i front handle e)) (Perm.swap front x rest))

-- Taking an element out of the queue leaves the others.
pub swap_remove_front_lem :
    (queue : List ℕ) (i handle : ℕ)
    → get_elem? queue i ≡ some handle
    → (rest : List ℕ) × (swap_remove_front queue i ≡ some (handle, rest))
      × Perm (handle ∷ rest) queue
      × (suc (length rest) ≡ length queue)
swap_remove_front_lem [] i handle e = cc
swap_remove_front_lem (front ∷ rest) zero handle e =
    let same : front ≡ handle = cc in
    (
      rest,
      ap (λ x. some (x, rest)) same,
      subst (λ x. Perm (x ∷ rest) (front ∷ rest)) same Perm.rfl,
      refl,
    )
swap_remove_front_lem (front ∷ rest) (suc i) handle e =
    (set rest i front, rw e refl, set-Perm rest i front handle e, ap suc (length-set rest i front))

pub get_elem?-middle :
    (before after : List ℕ) (handle : ℕ)
    → get_elem? (before ++ handle ∷ after) (length before) ≡ some handle
get_elem?-middle [] after handle = refl
get_elem?-middle (x ∷ before) after handle = get_elem?-middle before after handle

module _ {s : Smoltcp} where
  -- A handle of the set whose connection is still being set up.
  abbrev pub IsWaiting : Net s → ℕ → Type 0
  IsWaiting n handle =
      (socket : s.Socket) × (s.get n.sockets handle ≡ some socket)
      × (connected_state (s.state socket) ≡ false)

  is_connected_lem :
      {E : Type 0} (n : Net s) (handle : ℕ) (socket : s.Socket)
      → s.get n.sockets handle ≡ some socket
      → is_connected {s = s} {E = E} handle n ≡ (n, ok (connected_state (s.state socket)))
  unfolding is_connected
  is_connected_lem n handle socket e = rw e

  pub find_connected-none :
      {E : Type 0} (n : Net s) (idx : ℕ) (queue : List ℕ)
      → All (IsWaiting n) queue
      → find_connected {s = s} {E = E} idx queue n ≡ (n, ok none)
  unfolding find_connected
  find_connected-none n idx [] h = refl
  find_connected-none n idx (handle ∷ queue) h =
      rw (is_connected_lem n handle (h.0.0) (h.0.1), h.0.2)
        (find_connected-none n (idx + 1) queue (h.1))

  pub find_connected-first :
      {E : Type 0} (n : Net s) (idx : ℕ) (before after : List ℕ) (handle : ℕ) (socket : s.Socket)
      → All (IsWaiting n) before
      → s.get n.sockets handle ≡ some socket
      → connected_state (s.state socket) ≡ true
      → find_connected {s = s} {E = E} idx (before ++ handle ∷ after) n
        ≡ (n, ok (some (idx + length before)))
  unfolding find_connected
  find_connected-first n idx [] after handle socket h e c =
      rw (is_connected_lem n handle socket e, c) (ap (λ i. (n, ok (some i))) (omega arith))
  find_connected-first n idx (x ∷ before) after handle socket h e c =
      rw (is_connected_lem n x (h.0.0) (h.0.1), h.0.2)
        (find_connected-first n (idx + 1) before after handle socket (h.1) e c
          ∙ ap (λ i. (n, ok (some i))) (omega arith))
