-- ===== src/Cpu/Flags.antt =====
-- The flag of a flow says once that the flow is new.
use tcp_hw.Base.{
  ℕ, zero, suc, ◌<◌, ◌≡◌, ◌⊎◌, inl, inr, refl, ap, arith, true, false, some, List, [], ◌∷◌, length,
  get_elem?, set, lt→ltb,
}
use tcp_hw.Cpu.{
  FlowLookup, Endpoints, FlowWrite, lookup_of, write_of, set_new_flow, tick_flow_valid,
}

module _ {ℓ} {A : Type ℓ} where
  get_elem?-set : (xs : List A) (i : ℕ) (v : A) → i < length xs → get_elem? (set xs i v) i ≡ some v
  get_elem?-set [] i v h = absurd (omega arith)
  get_elem?-set (x ∷ xs) zero v h = refl
  get_elem?-set (x ∷ xs) (suc i) v h = get_elem?-set xs i v (omega arith)

  get_elem?_other :
      (xs : List A) (i j : ℕ) (v : A) → (j ≡ i) ⊎ (get_elem? (set xs i v) j ≡ get_elem? xs j)
  get_elem?_other [] i j v = inr refl
  get_elem?_other (x ∷ xs) zero zero v = inl refl
  get_elem?_other (x ∷ xs) zero (suc j) v = inr refl
  get_elem?_other (x ∷ xs) (suc i) zero v = inr refl
  get_elem?_other (x ∷ xs) (suc i) (suc j) v = elim (get_elem?_other xs i j v) [
    | inl e ↦ inl (ap suc e)
    | inr e ↦ inr e
  ]

  set-set : (xs : List A) (i : ℕ) (v w : A) → set (set xs i v) i w ≡ set xs i w
  set-set [] i v w = refl
  set-set (x ∷ xs) zero v w = refl
  set-set (x ∷ xs) (suc i) v w = ap (λ t. x ∷ t) (set-set xs i v w)

-- For a flow in the table, `set_new_flow` announces it under its number with its first
-- acknowledgement. The next `tick_flow_valid` of the flow answers true and every later one false,
-- and no other flow of the table has changed.
pub set-tick :
    (stale flow_id : ℕ) (state : Endpoints) (flows : List FlowLookup)
    → flow_id < length flows
    → (written : FlowWrite) × (flows' : List FlowLookup) × (flows'' : List FlowLookup)
      × (set_new_flow stale flow_id state flows ≡ some (written, flows'))
      × (written.new_flowid ≡ flow_id)
      × (written.init_ack_num ≡ state.init_ack_num)
      × (tick_flow_valid flow_id flows' ≡ some (true, flows''))
      × (tick_flow_valid flow_id flows'' ≡ some (false, flows''))
      × ((j : ℕ) → (j ≡ flow_id) ⊎ (get_elem? flows'' j ≡ get_elem? flows j))
unfolding set_new_flow tick_flow_valid
set-tick stale flow_id state flows h =
    let lookup : FlowLookup = lookup_of flow_id state in
    let seen : FlowLookup = record lookup { flow_drive_valid = false } in
    (
      write_of stale flow_id state,
      set flows flow_id lookup,
      set flows flow_id seen,
      rw (lt→ltb flow_id (length flows) h) refl,
      refl,
      refl,
      rw (get_elem?-set flows flow_id lookup h, set-set) refl,
      rw (get_elem?-set flows flow_id seen h, set-set) refl,
      λ j. get_elem?_other flows flow_id j seen,
    )
