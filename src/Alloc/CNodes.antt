-- ===== src/Alloc/CNodes.antt =====
-- The two-level CSpace behind `ObjectAllocator::allocate_slot`
-- (crates/common/src/obj_allocator.rs): slot `raw` lies in the second-level CNode `raw >> 12`.
use rust_root_task_demo_mi_d.Prelude.{
  ℕ, suc, ◌*◌, ◌<◌, ◌^◌, ◌≡◌, refl, sym, ap, subst, inl, inr, ltb, ◌==◌, Bool-cases, >>=-eq-ok, ◌∙◌,
  ltb→lt, arith, Outcome, pure, ok, err, panic, unwrap_outcome,
}
use rust_root_task_demo_mi_d.Sel4.{Kernel, RetypeLaws, CNodePath, root_cnode, relative_bits}
use rust_root_task_demo_mi_d.Alloc.{
  Machine, slot_of, cnode_of, next_slot, retype, new_cnode, allocate_slot, allocate_and_retype,
  placed, retyped,
}

module _ (k : Kernel) (laws : RetypeLaws k) where
  open laws use {HasCNode}

  -- Every slot that was handed out lies in a CNode that exists.
  abbrev pub HasCNodes : Machine k → Type 0
  HasCNodes m = (c : ℕ) → c * 2 ^ 12 < m.allocator.next → HasCNode m.kernel c

module _ (k : Kernel) (laws : RetypeLaws k) (E : Type 0) where
  open laws use {HasCNode}

  -- The state and the outcome of a kernel call behind one that did not panic.
  returned :
      (m m' : Machine k) (p : k.State × Outcome k.Error (Unit {0}))
      → (let (s, r) = unwrap_outcome {F = E} p in
          ◌≡◌ {A = Machine k × Outcome E (Unit {0})} (record m { kernel = s }, r) (m', ok tt))
      → (m' ≡ record m { kernel = p.0 }) × (p.1 ≡ ok tt)
  returned m m' (s, ok tt) e = (sym (ap (λ q. q.0) e), refl)
  returned m m' (s, err x) e = cc
  returned m m' (s, panic) e = cc

  retype_returned :
      (m m' : Machine k) (b : k.Blueprint) (path : CNodePath) (slot : ℕ)
      → retype {k = k} {E = E} b path slot m ≡ (m', ok tt)
      → (m' ≡ record m { kernel = (k.untyped_retype m.allocator.ut b path slot 1 m.kernel).0 })
        × ((k.untyped_retype m.allocator.ut b path slot 1 m.kernel).1 ≡ ok tt)
  unfolding retype
  retype_returned m m' b path slot e =
      returned m m' (k.untyped_retype m.allocator.ut b path slot 1 m.kernel) e

  -- A retyping keeps the CNodes and the allocator.
  retype-keeps :
      (m m' : Machine k) (b : k.Blueprint) (path : CNodePath) (slot : ℕ)
      → retype {k = k} {E = E} b path slot m ≡ (m', ok tt)
      → (m'.allocator ≡ m.allocator) × ((c : ℕ) → HasCNode m.kernel c → HasCNode m'.kernel c)
  retype-keeps m m' b path slot e =
      let (state, done) = retype_returned m m' b path slot e in
      (
        ap (λ x. x.allocator) state,
        λ c h.
            subst (λ x. HasCNode x.kernel c) (sym state)
              (laws.retype-keeps m.kernel m.allocator.ut b path slot c h),
      )

  -- A CNode that was just made, and those that were there.
  made_cnode :
      (raw : ℕ) (m m' : Machine k)
      → retype {k = k} {E = E} (k.cnode_blueprint 12) root_cnode (cnode_of raw) m ≡ (m', ok tt)
      → ((c : ℕ) → c * 2 ^ 12 < raw → HasCNode m.kernel c)
      → (c : ℕ) → c * 2 ^ 12 < suc raw
      → HasCNode m'.kernel c
  made_cnode raw m m' e below c h = elim (Bool-cases (ltb (c * 2 ^ 12) raw)) [
    | inl old ↦ (retype-keeps m m' _ _ _ e).1 c (below c (ltb→lt _ _ old))
    | inr new ↦
        let (state, done) = retype_returned m m' _ _ _ e in
        let here : cnode_of raw ≡ c = ground arith in
        subst (λ x. HasCNode x.kernel c) (sym state)
          (subst (HasCNode _) here
            (laws.retype-cnode m.kernel m.allocator.ut 12 (cnode_of raw) done))
  ]

  -- After `new_cnode raw` the CNode of `raw` exists, if the CNodes of all slots below it did.
  new_cnode-HasCNode :
      (raw : ℕ) (m m' : Machine k)
      → new_cnode {k = k} {E = E} raw m ≡ (m', ok tt)
      → ((c : ℕ) → c * 2 ^ 12 < raw → HasCNode m.kernel c)
      → (m'.allocator ≡ m.allocator) × ((c : ℕ) → c * 2 ^ 12 < suc raw → HasCNode m'.kernel c)
  unfolding new_cnode
  new_cnode-HasCNode raw m m' e below = elim (Bool-cases (slot_of raw == 0)) [
    | inl first ↦
        let e' : retype (k.cnode_blueprint 12) root_cnode (cnode_of raw) m ≡ (m', ok tt) =
          rw first at e in
        ((retype-keeps m m' _ _ _ e').0, made_cnode raw m m' e' below)
    | inr later ↦
        let e' : m ≡ m' = ap (λ p. p.0) (rw later at e) in
        (
          ap (λ x. x.allocator) (sym e'),
          λ c h. subst (λ x. HasCNode x.kernel c) e' (below c (ground arith)),
        )
  ]

  next_slot_ok :
      (m m' : Machine k) (raw : ℕ)
      → next_slot {k = k} {E = E} m ≡ (m', ok raw)
      → (raw ≡ m.allocator.next) × (m'.allocator.next ≡ suc raw) × (m'.kernel ≡ m.kernel)
  unfolding next_slot
  next_slot_ok m m' raw e = ground arith

  -- The slot that `allocate_slot` hands out lies in a CNode that exists.
  allocate_slot-HasCNodes :
      (m m' : Machine k) (slot cnode raw : ℕ)
      → HasCNodes k laws m
      → allocate_slot {k = k} {E = E} m ≡ (m', ok (slot, cnode, raw))
      → HasCNodes k laws m' × HasCNode m'.kernel (cnode_of raw)
  unfolding allocate_slot
  allocate_slot-HasCNodes m m' slot cnode raw have e =
      let (m₁, i, e₁, f₁) = >>=-eq-ok next_slot placed m e in
      let (m₂, _, e₂, f₂) = >>=-eq-ok (new_cnode i) (λ _. pure (slot_of i, cnode_of i, i)) m₁ f₁ in
      let (at, after, same) = next_slot_ok m m₁ i e₁ in
      let (kept, all) =
        new_cnode-HasCNode i m₁ m₂ e₂
          (λ c h. subst (λ s. HasCNode s c) (sym same) (have c (omega arith))) in
      let state : m₂ ≡ m' = ap (λ p. p.0) f₂ in
      let index : i ≡ raw = ground arith in
      let next : m'.allocator.next ≡ suc i =
        ap (λ x. x.allocator.next) (sym state) ∙ ap (λ a. a.next) kept ∙ after in
      (
        λ c h. subst (λ x. HasCNode x.kernel c) state (all c (omega (arith, next))),
        subst (λ x. HasCNode x.kernel (cnode_of raw)) state
            (all (cnode_of raw) (omega (arith, index))),
      )

  -- Where allocate_and_retype succeeds, the CNode of the slot that it used exists, and so do the
  -- CNodes of all slots handed out before, if that held before the call.
  pub allocate_and_retype-HasCNodes :
      (m m' : Machine k) (b : k.Blueprint) (raw : ℕ)
      → HasCNodes k laws m
      → allocate_and_retype {k = k} {E = E} b m ≡ (m', ok raw)
      → HasCNodes k laws m' × HasCNode m'.kernel (cnode_of raw)
  unfolding allocate_and_retype
  allocate_and_retype-HasCNodes m m' b raw have e =
      let (m₁, t, e₁, f₁) = >>=-eq-ok allocate_slot (retyped b) m e in
      let (m₂, _, e₂, f₂) = >>=-eq-ok (retype b (relative_bits t.1 52) t.0) (λ _. pure t.2) m₁ f₁ in
      let (kept, all) = retype-keeps m₁ m₂ b (relative_bits t.1 52) t.0 e₂ in
      let (before, here) = allocate_slot-HasCNodes m m₁ t.0 t.1 t.2 have e₁ in
      let state : m₂ ≡ m' = ap (λ p. p.0) f₂ in
      let next : m'.allocator.next ≡ m₁.allocator.next =
        ap (λ x. x.allocator.next) (sym state) ∙ ap (λ a. a.next) kept in
      let index : t.2 ≡ raw = ground arith in
      (
        λ c h. subst (λ x. HasCNode x.kernel c) state (all c (before c (omega (arith, next)))),
        subst (λ x. HasCNode x.kernel (cnode_of raw)) state
            (all _ (subst (λ r. HasCNode m₁.kernel (cnode_of r)) index here)),
      )
