-- ===== src/Rag/Worker/Abandoned.antt =====
-- A job whose worker ends in its last attempt.
use capere_ai.Base.{
  ℕ, ◌≤◌, ◌≡◌, ◌≢◌, refl, sym, ap, ◌∙◌, subst, Bool, true, false, ◌==◌, some, List, [], ◌∷◌, arith,
  find, update, All, Bool-cases, inl, inr, some_same,
}
use capere_ai.Rag.Rows.{RagJob, RagJobStatus, Store}
use capere_ai.Rag.Access.{owns, with_lease}
use capere_ai.Rag.Ingestion.{repeats}
use capere_ai.Rag.Worker.{is_claimable, claim_row, succeeded_row, failed_row}
use capere_ai.Rag.Worker.Steps.{Step, Reach}
use capere_ai.Rag.Worker.Invariant.{Inv, all_reached-Inv, Claimed, claim-Claimed, same_jobs}

-- The row of the job's id is `r`.
abbrev pub Row : RagJob → Store → Type 0
Row r db = find (λ x. x.id == r.id) db.jobs ≡ some r

-- An update that does not select the row keeps it.
find-update_other :
    (id : ℕ) (r : RagJob) (p : RagJob → Bool) (f : RagJob → RagJob)
    → ((x : RagJob) → (f x).id ≡ x.id)
    → p r ≡ false
    → (xs : List RagJob) → find (λ x. x.id == id) xs ≡ some r
    → find (λ x. x.id == id) (update p f xs) ≡ some r
find-update_other id r p f same out [] h = absurd cc
find-update_other id r p f same out (x ∷ xs) h = elim (Bool-cases (x.id == id)) [
  | inl y ↦
      let e : x ≡ r = some_same x r (rw y at h) in
      let kept : p x ≡ false = subst (λ z. p z ≡ false) (sym e) out in rw kept (rw y (ap some e))
  | inr n ↦ elim (Bool-cases (p x)) [
    | inl u ↦ rw (u, same x, n) (find-update_other id r p f same out xs (rw n at h))
    | inr u ↦ rw (u, n) (find-update_other id r p f same out xs (rw n at h))
  ]
]

All-find :
    (P : RagJob → Type 0) (p : RagJob → Bool) (xs : List RagJob) (r : RagJob)
    → find p xs ≡ some r
    → All P xs
    → P r
All-find P p [] r e h = absurd cc
All-find P p (x ∷ xs) r e h = elim (Bool-cases (p x)) [
  | inl y ↦ subst P (some_same x r (rw y at e)) h.0
  | inr n ↦ All-find P p xs r (rw n at e) h.1
]

module _ (r : RagJob) (token : ℕ) (running : r.status ≡ RagJobStatus.running)
    (held : r.claimed_by ≡ some token) (spent : r.max_attempts ≤ r.attempts) where
  not_owned : (job t : ℕ) → t ≢ token → owns job t r ≡ false
  not_owned job t other = rw (running, held) (ground (arith, other))

  not_claimable : (now : ℕ) → is_claimable now r ≡ false
  unfolding is_claimable
  not_claimable now = ground arith

  not_taken :
      (now id : ℕ) → ((r.id == id) ≡ true → is_claimable now r ≡ true) → (r.id == id) ≡ false
  not_taken now id f = elim (Bool-cases (r.id == id)) [
    | inl y ↦ absurd (let u = f y in let v = not_claimable now in cc)
    | inr n ↦ n
  ]

  Row-update :
      (db : Store) (p : RagJob → Bool) (f : RagJob → RagJob)
      → ((x : RagJob) → (f x).id ≡ x.id)
      → p r ≡ false
      → Row r db
      → Row r (record db { jobs = update p f db.jobs })
  Row-update db p f same out h = find-update_other r.id r p f same out db.jobs h

  Claimed-Row : (t now : ℕ) (db db' : Store) → Claimed t now db db' → Row r db → Row r db'
  Claimed-Row t now db db' (Claimed.nothing e) h = subst (Row r) (sym e) h
  Claimed-Row t now db db' (Claimed.taken id claimable e) h = subst (Row r) (sym e) (
      Row-update db (λ x. x.id == id) (claim_row t now) (λ x. refl)
        (not_taken now id (
          All-find (λ x. (x.id == id) ≡ true → is_claimable now x ≡ true) (λ x. x.id == r.id)
            db.jobs r h claimable))
        h)

  Step-Row : (t : ℕ) (db db' : Store) → t ≢ token → Inv db → Step t db db' → Row r db → Row r db'
  Step-Row t db db' other v (Step.claims locked now o e) h =
      Claimed-Row t now db db' (claim-Claimed locked t now db db' o v.distinct e) h
  Step-Row t db db' other v (Step.renews job now) h =
      Row-update db (owns job t) (with_lease now) (λ x. refl) (not_owned job t other) h
  Step-Row t db db' other v (Step.stores job version rows o e) h =
      subst (λ js. find (λ x. x.id == r.id) js ≡ some r)
        (sym (same_jobs version rows db db' (repeats rows) e)) h
  Step-Row t db db' other v (Step.indexes job document version count o) h = h
  Step-Row t db db' other v (Step.erases job document version_ids o) h = h
  Step-Row t db db' other v (Step.succeeds job) h =
      Row-update db (owns job t) succeeded_row (λ x. refl) (not_owned job t other) h
  Step-Row t db db' other v (Step.fails j message now of_token o) h =
      Row-update db (owns j.id j.claim_token) (failed_row j message now) (λ x. refl)
        (not_owned j.id j.claim_token (λ same. other (sym of_token ∙ same))) h

  -- No worker takes it up again: the row stays as it is, running, whatever the other workers do.
  pub abandoned : (db db' : Store) → Inv db → Row r db → Reach (λ t. t ≢ token) db db' → Row r db'
  abandoned db db' v h Reach.here = h
  abandoned db db' v h (Reach.next {mid} t other before s) =
      Step-Row t mid db' other (all_reached-Inv (λ x. x ≢ token) db mid v before) s
        (abandoned db mid v h before)
