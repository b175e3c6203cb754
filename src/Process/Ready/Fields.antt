-- ===== src/Process/Ready/Fields.antt =====
-- What the two writes to a control block leave in each slot.
use openkernel.Base.{
  ℕ, ◌≡◌, ◌≢◌, refl, sym, ap, ◌∙◌, ◌⊎◌, inl, inr, Bool-cases, Option, none, some, Option-cases,
  ◌==◌, ==_eq, arith,
}
use openkernel.Process.{State, ready, Processes}
use openkernel.Process.Ready.{set_next, set_state, add_to_ready_queue}

module _ (i : ℕ) (s : Processes) where
  pub next_set_self : (n : Option ℕ) → ((set_next i n s).pcbs i).next ≡ n
  next_set_self n = ground arith

  pub next_set_other :
      (n : Option ℕ) (j : ℕ) → i ≢ j → ((set_next i n s).pcbs j).next ≡ (s.pcbs j).next
  next_set_other n j ne = ground arith

  pub state_set_next : (n : Option ℕ) (j : ℕ) → ((set_next i n s).pcbs j).state ≡ (s.pcbs j).state
  state_set_next n j = elim (Bool-cases (i == j)) [
    | inl here ↦ rw here (ap (λ k. (s.pcbs k).state) (==_eq i j here))
    | inr other ↦ rw other refl
  ]

  pub state_set_self : (t : State) → ((set_state i t s).pcbs i).state ≡ t
  state_set_self t = ground arith

  pub state_set_other :
      (t : State) (j : ℕ) → i ≢ j → ((set_state i t s).pcbs j).state ≡ (s.pcbs j).state
  state_set_other t j ne = ground arith

  pub next_set_state : (t : State) (j : ℕ) → ((set_state i t s).pcbs j).next ≡ (s.pcbs j).next
  next_set_state t j = elim (Bool-cases (i == j)) [
    | inl here ↦ rw here (ap (λ k. (s.pcbs k).next) (==_eq i j here))
    | inr other ↦ rw other refl
  ]

-- `add_to_ready_queue` writes the `next` of the process and of the head, and the state of the
-- process.
module _ (p : ℕ) (s : Processes) where
  pub add-state : ((add_to_ready_queue p s).pcbs p).state ≡ ready
  unfolding add_to_ready_queue
  add-state = elim (Option-cases s.ready_queue) [
    | inl e ↦
        rw (e, add_to_ready_queue)
          (state_set_next p (record (set_state p ready s) { ready_queue = some p }) (some p) p
            ∙ state_set_self p s ready)
    | inr (q, e) ↦
        let r = set_state p ready s in
        let linked = set_next p (r.pcbs q).next r in
        rw (e, add_to_ready_queue)
          (state_set_next q linked (some p) p
            ∙ state_set_next p r (r.pcbs q).next p
            ∙ state_set_self p s ready)
  ]

  pub add-state_other : (j : ℕ) → p ≢ j → ((add_to_ready_queue p s).pcbs j).state ≡ (s.pcbs j).state
  unfolding add_to_ready_queue
  add-state_other j ne = elim (Option-cases s.ready_queue) [
    | inl e ↦
        rw (e, add_to_ready_queue)
          (state_set_next p (record (set_state p ready s) { ready_queue = some p }) (some p) j
            ∙ state_set_other p s ready j ne)
    | inr (q, e) ↦
        let r = set_state p ready s in
        let linked = set_next p (r.pcbs q).next r in
        rw (e, add_to_ready_queue)
          (state_set_next q linked (some p) j
            ∙ state_set_next p r (r.pcbs q).next j
            ∙ state_set_other p s ready j ne)
  ]

  pub add-next_other :
      (j : ℕ)
      → p ≢ j
      → ((q : ℕ) → s.ready_queue ≡ some q → q ≢ j)
      → ((add_to_ready_queue p s).pcbs j).next ≡ (s.pcbs j).next
  unfolding add_to_ready_queue
  add-next_other j ne away = elim (Option-cases s.ready_queue) [
    | inl e ↦
        rw (e, add_to_ready_queue)
          (next_set_other p (record (set_state p ready s) { ready_queue = some p }) (some p) j ne
            ∙ next_set_state p s ready j)
    | inr (q, e) ↦
        let r = set_state p ready s in
        let linked = set_next p (r.pcbs q).next r in
        rw (e, add_to_ready_queue)
          (next_set_other q linked (some p) j (away q e)
            ∙ next_set_other p r (r.pcbs q).next j ne
            ∙ next_set_state p s ready j)
  ]

  -- The head stays, or is the process.
  pub add-head :
      (q : ℕ) → (add_to_ready_queue p s).ready_queue ≡ some q → (p ≡ q) ⊎ (s.ready_queue ≡ some q)
  unfolding add_to_ready_queue
  add-head q h = elim (Option-cases s.ready_queue) [
    | inl e ↦ inl (let h' : some p ≡ some q = head_none e ∙ h in cc)
    | inr (r, e) ↦ inr (head_some r e ∙ h)
  ]
    where
      head_none : s.ready_queue ≡ none → some p ≡ (add_to_ready_queue p s).ready_queue
      head_none e = rw (e, add_to_ready_queue) refl

      head_some :
          (r : ℕ) → s.ready_queue ≡ some r → s.ready_queue ≡ (add_to_ready_queue p s).ready_queue
      head_some r e = rw (e, add_to_ready_queue) (sym e)
