-- ===== src/BTree.antt =====
-- `BTreeMap` with number keys (of the alloc crate), as the code uses it: the pairs in order of
-- their keys.
use rust_root_task_demo_mi_d.Prelude.{
  ℕ, suc, ◌≤◌, ◌<◌, ◌≡◌, refl, List, [], ◌∷◌, Option, none, some, arith, ltb, ◌==◌, if◌then◌else◌,
}

abbrev pub BTreeMap : Type 0 → Type 0
BTreeMap V = List (ℕ × V)

module _ {V : Type 0} where
  unfoldable pub get : BTreeMap V → ℕ → Option V
  get [] k = none
  get ((j, v) ∷ m) k = if j == k then some v else get m k

  unfoldable pub insert : ℕ → V → BTreeMap V → BTreeMap V
  insert k v [] = (k, v) ∷ []
  insert k v ((j, w) ∷ m) =
      if j == k then (k, v) ∷ m else if ltb k j then (k, v) ∷ (j, w) ∷ m else (j, w) ∷ insert k v m

  unfoldable pub remove : ℕ → BTreeMap V → BTreeMap V
  remove k [] = []
  remove k ((j, w) ∷ m) = if j == k then m else (j, w) ∷ remove k m

  -- Keys rise along the list, from `lo` on.
  abbrev pub Rising : ℕ → BTreeMap V → Type 0
  Rising lo [] = Unit {0}
  Rising lo ((j, w) ∷ m) = (lo ≤ j) × Rising (suc j) m

  pub get-insert :
      (k : ℕ) (v : V) (m : BTreeMap V) (i : ℕ)
      → get (insert k v m) i ≡ (if k == i then some v else get m i)
  unfolding get insert
  get-insert k v [] i = refl
  get-insert k v ((j, w) ∷ m) i = ground (arith, get-insert k v m i)

  pub insert-Rising :
      (k : ℕ) (v : V) (m : BTreeMap V) (lo : ℕ) → lo ≤ k → Rising lo m → Rising lo (insert k v m)
  unfolding insert
  insert-Rising k v [] lo h r = (h, tt)
  insert-Rising k v ((j, w) ∷ m) lo h r = ground (arith, insert-Rising k v m (suc j))

  Rising-mono : (m : BTreeMap V) (lo hi : ℕ) → lo ≤ hi → Rising hi m → Rising lo m
  Rising-mono [] lo hi h r = tt
  Rising-mono ((j, w) ∷ m) lo hi h r = (omega arith, r.1)

  pub remove-Rising : (k : ℕ) (m : BTreeMap V) (lo : ℕ) → Rising lo m → Rising lo (remove k m)
  unfolding remove
  remove-Rising k [] lo r = tt
  remove-Rising k ((j, w) ∷ m) lo r =
      ground (arith, remove-Rising k m (suc j), Rising-mono m lo (suc j))

  get_below : (m : BTreeMap V) (lo k : ℕ) → Rising lo m → k < lo → get m k ≡ none
  unfolding get
  get_below [] lo k r h = refl
  get_below ((j, w) ∷ m) lo k r h = ground (arith, get_below m (suc j) k r.1)

  pub get-remove :
      (k : ℕ) (m : BTreeMap V) (lo i : ℕ)
      → Rising lo m
      → get (remove k m) i ≡ (if k == i then none else get m i)
  unfolding get remove
  get-remove k [] lo i r = ground arith
  get-remove k ((j, w) ∷ m) lo i r =
      ground (arith, get-remove k m (suc j) i r.1, get_below m (suc j) i r.1)
