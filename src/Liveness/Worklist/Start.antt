-- ===== src/Liveness/Worklist/Start.antt =====
-- The queue with which `handleFunction` of src/passes/LivenessAnalysisPass.hpp starts.
use drob.Prelude.{ℕ, ◌≡◌, ◌⊎◌, inl, inr, refl, ap, ◌∙◌, subst, true, false, List, [], ◌∷◌, ◌++◌}
use drob.Liveness.{Mask}
use drob.Liveness.Worklist.{SuperBlock, Analysis, update, push, enqueue_returns}
use drob.Liveness.Worklist.Entry.{Named, update_other}
use drob.Liveness.Worklist.Alive.{Distinct, IsQueue, is_alive, push-IsQueue, push-alive}

module _ (bits : ℕ) (live_ret : Mask) (graph : ℕ → SuperBlock) where
  -- The blocks that are put into the queue at first.
  pub enqueue-IsQueue :
      (xs : List ℕ) (st : Analysis)
      → Distinct xs
      → ((c : ℕ) → st.valid c ≡ false)
      → ((c : ℕ) → Named c xs → st.queued c ≡ false)
      → IsQueue st
      → IsQueue (enqueue_returns bits live_ret graph xs st)
        × ((c : ℕ)
            → Named c xs ⊎ (is_alive st c ≡ true)
            → is_alive (enqueue_returns bits live_ret graph xs st) c ≡ true)
  unfolding Distinct Named push
  enqueue-IsQueue [] st d v q i = (i, λ c h. elim h [ inl n ↦ absurd n | inr a ↦ a ])
  enqueue-IsQueue (x ∷ xs) st (apart, d) v q i =
      let next = record st { queued = update x true st.queued; queue = st.queue ++ x ∷ [] } in
      let free : st.queued x ≡ false = q x (inl refl) in
      let same : push x st ≡ next = rw free refl in
      let a = λ (c : ℕ).
        subst (λ s. (s.queued x ≡ true) × (is_alive st c ≡ true → is_alive s c ≡ true)) same
          (push-alive x st c) in
      let r =
        enqueue-IsQueue xs next d v
          (λ c n.
            update_other x true st.queued c (λ e. apart (subst (λ (y : ℕ). Named y xs) e n))
            ∙ q c (inr n))
          (subst (λ s. IsQueue s) same (push-IsQueue x st (v x) i)) in
      (
        r.0,
        λ c h. r.1 c (elim h [
          | inl n ↦ elim n [
            | inl e ↦ inr (rw (v c, ap next.queued e, (a x).0) refl)
            | inr m ↦ inl m
          ]
          | inr l ↦ inr ((a c).1 l)
        ]),
      )

  pub enqueue_returns-invalid :
      (xs : List ℕ) (st : Analysis)
      → ((c : ℕ) → st.valid c ≡ false)
      → (c : ℕ) → (enqueue_returns bits live_ret graph xs st).valid c ≡ false
  enqueue_returns-invalid [] st h c = h c
  enqueue_returns-invalid (x ∷ xs) st h c =
      enqueue_returns-invalid xs
        (record st { queued = update x true st.queued; queue = st.queue ++ x ∷ [] }) h c
