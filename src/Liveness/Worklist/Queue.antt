-- ===== src/Liveness/Worklist/Queue.antt =====
-- The calls of src/passes/LivenessAnalysisPass.hpp that fill the queue, and which blocks they make
-- invalid.
use drob.Prelude.{
  ℕ, ◌≡◌, inl, inr, refl, sym, ◌∙◌, if◌then◌else◌, if_cases, Bool, true, false, List, [], ◌∷◌,
}
use drob.Liveness.Worklist.{Analysis, update, push, reenqueue, reenqueue_all}
use drob.Liveness.Worklist.Entry.{Named, update_same, update_other, true-ne-false}

-- What the calls that fill the queue keep, and which blocks they make invalid.
pub record Keeps (changed : Bool) (xs : List ℕ) (st st' : Analysis) : Type 0 where
  pub blocks : st'.blocks ≡ st.blocks
  pub attached : st'.attached ≡ st.attached
  pub valid : (c : ℕ) → st'.valid c ≡ true → st.valid c ≡ true
  pub unnamed : (c : ℕ) → st'.valid c ≡ true → changed ≡ true → Named c xs → ⊥

Keeps-nothing : (changed : Bool) (st : Analysis) → Keeps changed [] st st
unfolding Named
Keeps-nothing changed st = record {
  blocks = refl;
  attached = refl;
  valid = λ c h. h;
  unnamed = λ c h e n. n;
}

Keeps-more :
    (changed : Bool) (x : ℕ) (xs : List ℕ) (a b c : Analysis)
    → Keeps changed (x ∷ []) a b
    → Keeps changed xs b c
    → Keeps changed (x ∷ xs) a c
unfolding Named
Keeps-more changed x xs a b c p q = record {
  blocks = q.blocks ∙ p.blocks;
  attached = q.attached ∙ p.attached;
  valid = λ d h. p.valid d (q.valid d h);
  unnamed =
      λ d h e n. elim n [ inl i ↦ p.unnamed d (q.valid d h) e (inl i) | inr i ↦ q.unnamed d h e i ];
}

pub push-Keeps : (changed : Bool) (b : ℕ) (st : Analysis) → Keeps changed [] st (push b st)
unfolding push Named
push-Keeps changed b st =
    if_cases (Keeps changed [] st) (st.queued b) (λ _. Keeps-nothing changed st)
      (λ _. record { blocks = refl; attached = refl; valid = λ c h. h; unnamed = λ c h e n. n })

pub still_valid :
    (src : ℕ) (valid : ℕ → Bool) (c : ℕ) → update src false valid c ≡ true → c ≡ src → ⊥
still_valid src valid c h e = true-ne-false (sym h ∙ update_same src false valid c e)

-- The block is made invalid, or nothing changed.
invalidate-Keeps :
    (changed : Bool) (src : ℕ) (st : Analysis)
    → Keeps changed
        (src ∷ [])
        st
        (if changed then record st { valid = update src false st.valid } else st)
unfolding Named
invalidate-Keeps false src st = record {
  blocks = refl;
  attached = refl;
  valid = λ c h. h;
  unnamed = λ c h e n. true-ne-false (sym e);
}
invalidate-Keeps true src st = record {
  blocks = refl;
  attached = refl;
  valid = λ c h. rw (update_other src false st.valid c (still_valid src st.valid c h)) at h;
  unnamed = λ c h e n. elim n [ inl i ↦ still_valid src st.valid c h i | inr i ↦ i ];
}

pub then_push :
    (changed : Bool) (xs : List ℕ) (a b : Analysis) (src : ℕ)
    → Keeps changed xs a b
    → Keeps changed xs a (push src b)
then_push changed xs a b src k =
    let p = push-Keeps changed src b in
    record {
      blocks = p.blocks ∙ k.blocks;
      attached = p.attached ∙ k.attached;
      valid = λ c h. k.valid c (p.valid c h);
      unnamed = λ c h. k.unnamed c (p.valid c h);
    }

reenqueue-Keeps :
    (changed : Bool) (src : ℕ) (st : Analysis)
    → Keeps changed (src ∷ []) st (reenqueue changed src st)
unfolding reenqueue
reenqueue-Keeps changed src st =
    let st' = if changed then record st { valid = update src false st.valid } else st in
    let k = invalidate-Keeps changed src st in
    if_cases (Keeps changed (src ∷ []) st) (st'.valid src) (λ _. k)
      (λ _. then_push changed (src ∷ []) st st' src k)

pub reenqueue_all-Keeps :
    (changed : Bool) (xs : List ℕ) (st : Analysis)
    → Keeps changed xs st (reenqueue_all changed xs st)
unfolding reenqueue_all
reenqueue_all-Keeps changed [] st = Keeps-nothing changed st
reenqueue_all-Keeps changed (x ∷ xs) st =
    Keeps-more changed x xs st (reenqueue changed x st) _ (reenqueue-Keeps changed x st)
      (reenqueue_all-Keeps changed xs (reenqueue changed x st))
