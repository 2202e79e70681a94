-- ===== src/Tests/Protocols.antt =====
-- The message protocols at concrete messages.
use rust_root_task_demo_mi_d.Prelude.{ℕ, ◌+◌, ◌≤◌, ◌≡◌, refl, List, [], ◌∷◌, some, arith, ok, ◌>>=◌}
use rust_root_task_demo_mi_d.Ipc.{Ipc}
use rust_root_task_demo_mi_d.Protocol.Custom
use rust_root_task_demo_mi_d.Protocol.Root
use rust_root_task_demo_mi_d.Protocol.Blk
use rust_root_task_demo_mi_d.Protocol.Net
use rust_root_task_demo_mi_d.Protocol.Net.Frame
use rust_root_task_demo_mi_d.Protocol.Disjoint

pub record Word : Type 0 where
  pub label : ℕ
  pub unwrapped : ℕ
  pub caps : ℕ
  pub length : ℕ

abbrev pub words : Ipc
words = record {
  MessageInfo = Word;
  new = λ l u c n. record { label = l; unwrapped = u; caps = c; length = n };
  label = λ w. w.label;
  extra_caps = λ w. w.caps;
  length = λ w. w.length;
  label-new = λ l u c n h. refl;
  extra_caps-new = λ l u c n h. refl;
  length-new = λ l u c n h. refl;
}

abbrev zeros : List ℕ
zeros = 0 ∷ 0 ∷ 0 ∷ 0 ∷ 9 ∷ []

abbrev exit_message : Word
exit_message = record { label = 0x102; unwrapped = 0; caps = 0; length = 0 }

net_example :
    (Net.build words {E = ⊥} (Net.send 1 2 3) >>= Net.try_from words) zeros
    ≡ ((Net.build words {E = ⊥} (Net.send 1 2 3) zeros).0, ok (some (Net.send 1 2 3)))
net_example = Frame.net_round_trip words (Net.send 1 2 3) zeros (omega arith)

at_most_one_example :
    (Disjoint.recognised (Custom.try_from words exit_message)
        + Disjoint.read_as (Root.try_from words {E = ⊥} exit_message zeros)
        + Disjoint.read_as (Blk.try_from words {E = ⊥} exit_message zeros)
        + Disjoint.read_as (Net.try_from words {E = ⊥} exit_message zeros)
      ≤ 1)
at_most_one_example = (Disjoint.at_most_one words exit_message zeros).0
