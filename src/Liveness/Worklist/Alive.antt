-- ===== src/Liveness/Worklist/Alive.antt =====
-- The queue of src/passes/LivenessAnalysisPass.hpp has each block at most once, none that is valid, and
-- the calls that fill it lose no block.
use drob.Prelude.{
  ℕ, ◌≡◌, ◌⊎◌, inl, inr, refl, sym, ap, ◌∙◌, subst, arith, ◌==◌, ==_iff, Bool, true, false, ◌||◌,
  Bool-cases, List, [], ◌∷◌, ◌++◌,
}
use drob.Liveness.Worklist.{Analysis, update, push, reenqueue, reenqueue_all}
use drob.Liveness.Worklist.Entry.{Named, update_same, update_other, true-ne-false}

pub same_or_apart : (a b : ℕ) → (a ≡ b) ⊎ (a ≡ b → ⊥)
same_or_apart a b = elim (Bool-cases (a == b)) [
  | inl e ↦ inl ((==_iff a b).0 e)
  | inr e ↦ inr (λ i. true-ne-false (sym ((==_iff a b).1 i) ∙ e))
]

-- No number twice.
unfoldable pub Distinct : List ℕ → Type 0
Distinct [] = Unit
Distinct (x ∷ xs) = (Named x xs → ⊥) × Distinct xs

-- The marks are those of the queue, which has no valid block and no block twice.
pub record IsQueue (st : Analysis) : Type 0 where
  pub queued_in : (c : ℕ) → st.queued c ≡ true → Named c st.queue
  pub in_queued : (c : ℕ) → Named c st.queue → st.queued c ≡ true
  pub distinct : Distinct st.queue
  pub fresh : (c : ℕ) → st.queued c ≡ true → st.valid c ≡ false

-- A block is valid or in the queue.
abbrev pub is_alive : Analysis → ℕ → Bool
is_alive st c = st.valid c || st.queued c

Named-snoc : (c b : ℕ) (xs : List ℕ) → Named c (xs ++ b ∷ []) → Named c xs ⊎ (c ≡ b)
unfolding Named
Named-snoc c b [] n = elim n [ inl e ↦ inr e | inr f ↦ inl f ]
Named-snoc c b (x ∷ xs) n = elim n [
  | inl e ↦ inl (inl e)
  | inr m ↦ elim (Named-snoc c b xs m) [ inl k ↦ inl (inr k) | inr e ↦ inr e ]
]

Named-front : (c b : ℕ) (xs : List ℕ) → Named c xs → Named c (xs ++ b ∷ [])
unfolding Named
Named-front c b [] n = inr n
Named-front c b (x ∷ xs) n = elim n [ inl e ↦ inl e | inr m ↦ inr (Named-front c b xs m) ]

Named-last : (b : ℕ) (xs : List ℕ) → Named b (xs ++ b ∷ [])
unfolding Named
Named-last b [] = inl refl
Named-last b (x ∷ xs) = inr (Named-last b xs)

Distinct-snoc : (b : ℕ) (xs : List ℕ) → Distinct xs → (Named b xs → ⊥) → Distinct (xs ++ b ∷ [])
unfolding Distinct Named
Distinct-snoc b [] d n = (λ k. k, tt)
Distinct-snoc b (x ∷ xs) (a, d) n = (
  λ k. elim (Named-snoc x b xs k) [ inl m ↦ a m | inr e ↦ n (inl (sym e)) ],
  Distinct-snoc b xs d (λ m. n (inr m)),
)

enqueued : ℕ → Analysis → Analysis
enqueued b st = record st { queued = update b true st.queued; queue = st.queue ++ b ∷ [] }

enqueued-IsQueue :
    (b : ℕ) (st : Analysis)
    → st.valid b ≡ false
    → st.queued b ≡ false
    → IsQueue st
    → IsQueue (enqueued b st)
unfolding enqueued
enqueued-IsQueue b st v q i = record {
  queued_in = λ c h. elim (same_or_apart c b) [
    | inl e ↦ subst (λ (x : ℕ). Named x (st.queue ++ b ∷ [])) (sym e) (Named-last b st.queue)
    | inr a ↦ Named-front c b st.queue (i.queued_in c (sym (update_other b true st.queued c a) ∙ h))
  ];
  in_queued = λ c n. elim (same_or_apart c b) [
    | inl e ↦ update_same b true st.queued c e
    | inr a ↦
        update_other b true st.queued c a
        ∙ i.in_queued c (elim (Named-snoc c b st.queue n) [ inl m ↦ m | inr e ↦ absurd (a e) ])
  ];
  distinct = Distinct-snoc b st.queue i.distinct (λ n. true-ne-false (sym (i.in_queued b n) ∙ q));
  fresh = λ c h. elim (same_or_apart c b) [
    | inl e ↦ ap st.valid e ∙ v
    | inr a ↦ i.fresh c (sym (update_other b true st.queued c a) ∙ h)
  ];
}

pub push-IsQueue : (b : ℕ) (st : Analysis) → st.valid b ≡ false → IsQueue st → IsQueue (push b st)
unfolding push enqueued
push-IsQueue b st v i = elim (Bool-cases (st.queued b)) [
  | inl q ↦ rw q i
  | inr q ↦ rw q (enqueued-IsQueue b st v q i)
]

pub push-alive :
    (b : ℕ) (st : Analysis) (c : ℕ)
    → ((push b st).queued b ≡ true) × (is_alive st c ≡ true → is_alive (push b st) c ≡ true)
unfolding push
push-alive b st c = (ground arith, λ h. ground (arith, h))

-- What a call that fills the queue keeps.
pub record Fills (xs : List ℕ) (st st' : Analysis) : Type 0 where
  pub queue : IsQueue st → IsQueue st'
  pub alive : (c : ℕ) → is_alive st c ≡ true → is_alive st' c ≡ true
  pub named : (c : ℕ) → Named c xs → is_alive st' c ≡ true

invalid-IsQueue :
    (src : ℕ) (st : Analysis)
    → IsQueue st
    → IsQueue (record st { valid = update src false st.valid })
invalid-IsQueue src st i = record {
  queued_in = i.queued_in;
  in_queued = i.in_queued;
  distinct = i.distinct;
  fresh = λ c h. elim (same_or_apart c src) [
    | inl e ↦ update_same src false st.valid c e
    | inr a ↦ update_other src false st.valid c a ∙ i.fresh c h
  ];
}

reenqueue-IsQueue :
    (changed : Bool) (src : ℕ) (st : Analysis) → IsQueue st → IsQueue (reenqueue changed src st)
unfolding reenqueue
reenqueue-IsQueue true src st i = rw (update_same src false st.valid src refl) (
    push-IsQueue src (record st { valid = update src false st.valid })
      (update_same src false st.valid src refl) (invalid-IsQueue src st i))
reenqueue-IsQueue false src st i = elim (Bool-cases (st.valid src)) [
  | inl v ↦ rw v i
  | inr v ↦ rw v (push-IsQueue src st v i)
]

reenqueue-alive :
    (changed : Bool) (src : ℕ) (st : Analysis) (c : ℕ)
    → (is_alive (reenqueue changed src st) src ≡ true)
      × (is_alive st c ≡ true → is_alive (reenqueue changed src st) c ≡ true)
unfolding reenqueue push
reenqueue-alive changed src st c = (ground arith, λ h. ground (arith, h))

pub reenqueue_all-Fills :
    (changed : Bool) (xs : List ℕ) (st : Analysis) → Fills xs st (reenqueue_all changed xs st)
unfolding reenqueue_all Named
reenqueue_all-Fills changed [] st = record {
  queue = λ i. i;
  alive = λ c h. h;
  named = λ c n. absurd n;
}
reenqueue_all-Fills changed (x ∷ xs) st =
    let r = reenqueue_all-Fills changed xs (reenqueue changed x st) in
    record {
      queue = λ i. r.queue (reenqueue-IsQueue changed x st i);
      alive = λ c h. r.alive c ((reenqueue-alive changed x st c).1 h);
      named = λ c n. elim n [
        | inl e ↦ r.alive c (
            subst (λ (d : ℕ). is_alive (reenqueue changed x st) d ≡ true) (sym e)
              (reenqueue-alive changed x st x).0)
        | inr m ↦ r.named c m
      ];
    }
