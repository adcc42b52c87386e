-- ===== src/Rag/Ingestion/Quiet.antt =====
-- Actions of a worker that nothing disturbs: its lease holds, no other connection interferes, the database
-- and the services answer.
use capere_ai.Base.{
  ℕ, ◌≡◌, refl, ap, ◌∙◌, Bool, true, false, none, List, [], ◌∷◌, arith, any, select, update, length,
  Bool-cases, inl, inr, if◌then◌else◌,
}
use capere_ai.Rag.Rows.{RagJob, Store}
use capere_ai.Rag.Access.{
  lease_lost, Answer, answered, Flow, Action, Host, VectorRecord, and_then, ◌>>=◌, ◌>>◌, settle,
  unless_refused, answer, call, owns, is_owned, transact, swap, transaction, with_lease, renew,
  or_lost, assert_lease,
}

pub record IsQuiet {S : Type 0} {V : Type 0} (w : Host S V) : Type 0 where
  pub alone : (s : S) (db : Store) → w.others s db ≡ (s, db)
  pub accepts : (s : S) → w.refusal s ≡ none
  pub beats : (s : S) → w.is_heartbeat_lost s ≡ false

abbrev pub Answers : {S A : Type 0} → (S → S × Answer A) → Type 0
Answers {S} {A} f = (s : S) → (s' : S) × (a : A) × (f s ≡ (s', answered a))

pub record Serves {S : Type 0} {V : Type 0} (w : Host S V) (source : List ℕ → List ℕ) : Type 0 where
  pub stored :
      (path : List ℕ) (s : S) → (s' : S) × (w.get_source path s ≡ (s', answered (source path)))
  pub embeds : (texts : List (List ℕ)) → Answers (w.embed texts)
  pub collects : Answers w.ensure_collection
  pub deletes_version : (version : ℕ) → Answers (w.delete_version version)
  pub deletes_document : (document : ℕ) → Answers (w.delete_document document)
  pub batched : (records : List (VectorRecord V)) → Answers (w.batches_of records)
  pub writes : (records : List (VectorRecord V)) → Answers (w.write_batch records)

-- From tables with `Q` the action returns a result, and `R` holds of it and the tables.
abbrev pub Goes : {S A : Type 0} → Action S A → (Store → Type 0) → (A → Store → Type 0) → Type 0
Goes {S} {A} m Q R =
    (db : Store) (s : S)
    → Q db
    → (db' : Store) × (s' : S) × (a : A) × (m db s ≡ Flow.next db' s' a) × R a db'

module _ {S : Type 0} {A : Type 0} {B : Type 0} (Q : Store → Type 0) (R : A → Store → Type 0)
    (R' : B → Store → Type 0) where
  pub Goes-bind :
      (m : Action S A) (k : A → Action S B)
      → Goes m Q R
      → ((a : A) → Goes (k a) (R a) R')
      → Goes (m >>= k) Q R'
  Goes-bind m k go_m go_k db s q =
      let (db1, s1, a, e, r) = go_m db s q in
      let (db2, s2, b, e', r') = go_k a db1 s1 r in (db2, s2, b, ap (λ f. and_then f k) e ∙ e', r')

-- An action after a fact about an earlier result.
pub Goes-given :
    {S A E : Type 0} (m : Action S A) (Q : Store → Type 0) (R : A → Store → Type 0)
    → (E → Goes m Q R)
    → Goes m (λ db. E × Q db) R
Goes-given m Q R go db s (e, q) = go e db s q

module _ {S : Type 0} {A : Type 0} {B : Type 0} (Q : Store → Type 0) (R' : B → Store → Type 0) where
  pub Goes-call :
      (f : S → S × Answer A) (k : A → Action S B)
      → Answers f
      → ((a : A) → Goes (k a) Q R')
      → Goes (call f >>= k) Q R'
  Goes-call f k ans go_k db s q =
      let (s1, a, e) = ans s in
      let (db2, s2, b, e', r') = go_k a db s1 q in
      (db2, s2, b, ap (λ p. and_then (answer db p) k) e ∙ e', r')

module _ {S : Type 0} {V : Type 0} (w : Host S V) (quiet : IsQuiet w) where
  pub Goes-transaction :
      {A : Type 0} (Q : Store → Type 0) (R : A → Store → Type 0)
      (f : ℕ → Store → Answer (Store × A))
      → ((now : ℕ) (db : Store)
          → Q db
          → (db' : Store) × (a : A) × (f now db ≡ answered (db', a)) × R a db')
      → Goes (transaction w f) Q R
  Goes-transaction Q R f run db s q =
      let (db', a, e, r) = run (w.now s) db q in
      (
        db',
        s,
        a,
        ap (λ p. transact w f (swap w p)) (quiet.alone s db)
            ∙ ap (λ o. unless_refused o db s (settle db s (f (w.now s) db))) (quiet.accepts s)
            ∙ ap (settle db s) e,
        r,
      )

module _ (p : RagJob → Bool) (f : RagJob → RagJob)
    (same : (r : RagJob) → p r ≡ true → p (f r) ≡ true) where
  length-select-update :
      (xs : List RagJob) → length (select p (update p f xs)) ≡ length (select p xs)
  length-select-update [] = refl
  length-select-update (x ∷ xs) = elim (Bool-cases (p x)) [
    | inl y ↦ rw (y, same x y) (omega (arith, length-select-update xs))
    | inr n ↦ rw (n, n) (length-select-update xs)
  ]

any_of_one : (p : RagJob → Bool) (xs : List RagJob) → length (select p xs) ≡ 1 → any p xs ≡ true
any_of_one p [] h = absurd (omega (arith, h))
any_of_one p (x ∷ xs) h = elim (Bool-cases (p x)) [
  | inl y ↦ rw y refl
  | inr n ↦ rw n (any_of_one p xs (rw n at h))
]

-- The content of the tables is that of `c`, and the job is running under the token.
pub record Held (job token : ℕ) (c : Store) (db : Store) : Type 0 where
  pub documents : db.documents ≡ c.documents
  pub versions : db.versions ≡ c.versions
  pub chunks : db.chunks ≡ c.chunks
  pub held : length (select (owns job token) db.jobs) ≡ 1

pub Held-is_owned :
    (job token : ℕ) (c db : Store) → Held job token c db → is_owned job token db ≡ true
Held-is_owned job token c db h = any_of_one (owns job token) db.jobs h.held

module _ {S : Type 0} {V : Type 0} (w : Host S V) (quiet : IsQuiet w) (job token : ℕ) where
  owns_leased :
      (now : ℕ) (r : RagJob) → owns job token r ≡ true → owns job token (with_lease now r) ≡ true
  owns_leased now r h = h

  Goes-assert_lease :
      (c : Store) → Goes (assert_lease w job token) (Held job token c) (λ _. Held job token c)
  unfolding assert_lease
  Goes-assert_lease c db s h =
      let go =
        Goes-bind (Held job token c) (λ hit db'. (hit ≡ true) × Held job token c db')
          (λ _. Held job token c) (transaction w (renew job token)) or_lost
          (Goes-transaction w quiet (Held job token c)
            (λ hit db'. (hit ≡ true) × Held job token c db') (renew job token)
            λ now db1 q. (
              _,
              _,
              refl,
              (
                rw (q.held) refl,
                record {
                  documents = q.documents;
                  versions = q.versions;
                  chunks = q.chunks;
                  held =
                      length-select-update (owns job token) (with_lease now) (owns_leased now)
                        db1.jobs
                      ∙ q.held;
                },
              ),
            ))
          goes_on db s h in
      (
        go.0,
        go.1,
        go.2,
        ap
              (λ b.
                if b
                then Flow.stop db s lease_lost
                else (transaction w (renew job token) >>= or_lost) db s)
              (quiet.beats s)
            ∙ go.3,
        go.4,
      )
    where
      goes_on :
          (hit : Bool)
          → Goes {S = S}
              (or_lost hit)
              (λ db'. (hit ≡ true) × Held job token c db')
              (λ _. Held job token c)
      goes_on true db1 s1 (e, q) = (db1, s1, tt, refl, q)
      goes_on false db1 s1 (e, q) = absurd cc

  -- After an assertion of the lease.
  pub Goes-asserted :
      {B : Type 0} (c : Store) (R' : B → Store → Type 0) (m : Action S B)
      → Goes m (Held job token c) R'
      → Goes (assert_lease w job token >> m) (Held job token c) R'
  Goes-asserted c R' m go =
      Goes-bind (Held job token c) (λ _. Held job token c) R' (assert_lease w job token) (λ _. m)
        (Goes-assert_lease c) (λ _. go)
