-- ===== src/NetThread/ListenTable/Sizes.antt =====
-- The sizes of the table and the queues of crates/net-thread/src/smoltcp_impl/listen_table.rs.
use rust_root_task_demo_mi_d.Prelude.{
  ℕ, zero, suc, ◌<◌, ◌≤◌, ◌≡◌, refl, ap, subst, ◌∙◌, List, [], ◌∷◌, Option, none, some, length,
  length-set, replicate, get_elem?, set, arith, Option-cases, inl, inr,
}
use rust_root_task_demo_mi_d.NetThread.ListenTable.{
  ListenTableEntry, port_num, listen_queue_size, new_table, swap_remove_front,
}

abbrev pub Fits : Option ListenTableEntry → Type 0
Fits none = Unit {0}
Fits (some entry) = length entry.syn_queue ≤ listen_queue_size

-- No queue of the table holds more handles than LISTEN_QUEUE_SIZE.
abbrev pub IsBounded : List (Option ListenTableEntry) → Type 0
IsBounded [] = Unit {0}
IsBounded (entry ∷ table) = Fits entry × IsBounded table

-- The table has PORT_NUM entries, and its queues are bounded.
abbrev pub IsTable : List (Option ListenTableEntry) → Type 0
IsTable table = IsBounded table × (length table ≡ port_num)

set-IsBounded :
    (table : List (Option ListenTableEntry)) (i : ℕ) (entry : Option ListenTableEntry)
    → Fits entry
    → IsBounded table
    → IsBounded (set table i entry)
set-IsBounded [] i entry f b = tt
set-IsBounded (x ∷ table) zero entry f b = (f, b.1)
set-IsBounded (x ∷ table) (suc i) entry f b = (b.0, set-IsBounded table i entry f (b.1))

pub set-IsTable :
    (table : List (Option ListenTableEntry)) (i : ℕ) (entry : Option ListenTableEntry)
    → Fits entry
    → IsTable table
    → IsTable (set table i entry)
set-IsTable table i entry f b =
    (set-IsBounded table i entry f (b.0), length-set table i entry ∙ b.1)

pub get_elem?-Fits :
    (table : List (Option ListenTableEntry)) (i : ℕ) (entry : Option ListenTableEntry)
    → get_elem? table i ≡ some entry
    → IsBounded table
    → Fits entry
get_elem?-Fits [] i entry e b = cc
get_elem?-Fits (x ∷ table) zero entry e b = let same : x ≡ entry = cc in subst Fits same (b.0)
get_elem?-Fits (x ∷ table) (suc i) entry e b = get_elem?-Fits table i entry e (b.1)

replicate-IsBounded : (n : ℕ) → IsBounded (replicate n none)
replicate-IsBounded zero = tt
replicate-IsBounded (suc n) = (tt, replicate-IsBounded n)

length-replicate : (n : ℕ) → length (replicate {A = Option ListenTableEntry} n none) ≡ n
length-replicate zero = refl
length-replicate (suc n) = ap suc (length-replicate n)

pub new_table-IsTable : IsTable new_table
unfolding new_table
new_table-IsTable = (replicate-IsBounded port_num, length-replicate port_num)

pub length-swap_remove_front :
    (queue : List ℕ) (i handle : ℕ) (rest : List ℕ)
    → swap_remove_front queue i ≡ some (handle, rest)
    → length rest ≤ length queue
length-swap_remove_front [] i handle rest e = cc
length-swap_remove_front (front ∷ queue) zero handle rest e =
    let same : queue ≡ rest = cc in omega (arith, ap length same)
length-swap_remove_front (front ∷ queue) (suc i) handle rest e =
    elim (Option-cases (get_elem? queue i)) [
      | inl absent ↦ absurd (let h = rw absent at e in cc)
      | inr (x, found) ↦
          let h : some (x, set queue i front) ≡ some (handle, rest) = rw found at e in
          let same : set queue i front ≡ rest = cc in
          omega (arith, ap length same, length-set queue i front)
    ]

get_elem?-replicate :
    (n i : ℕ) → i < n → get_elem? (replicate {A = Option ListenTableEntry} n none) i ≡ some none
get_elem?-replicate zero i h = absurd (omega arith)
get_elem?-replicate (suc n) zero h = refl
get_elem?-replicate (suc n) (suc i) h = get_elem?-replicate n i (omega arith)

-- Every port is free at first.
pub new_table-free : (port : ℕ) → port < port_num → get_elem? new_table port ≡ some none
unfolding new_table
new_table-free port h = get_elem?-replicate port_num port h
