-- ===== src/Rag/Worker/Rules.antt =====
-- What the actions of a worker keep: its writes are steps of the transition system.
use capere_ai.Base.{
  ℕ, ◌≡◌, refl, ap, subst, Bool, true, false, Option, none, some, String, Bool-cases, inl, inr,
}
use capere_ai.Rag.Rows.{Store}
use capere_ai.Rag.Access.{
  lease_lost, Answer, answered, Flow, Action, Host, and_then, ◌>>=◌, ◌>>◌, settle, unless_refused,
  answer, call, is_owned, transaction, renew, or_lost, assert_lease, if_owned,
}
use capere_ai.Rag.Worker.Steps.{Step}

abbrev pub tables_of : {S A : Type 0} → Flow S A → Store
tables_of (Flow.next db s a) = db
tables_of (Flow.stop db s e) = db

module _ {S : Type 0} {V : Type 0} (w : Host S V) (P : Store → Type 0)
    (others : (s : S) (db : Store) → P db → P (w.others s db).1) where
  -- An action keeps a property of the tables, however it ends.
  abbrev pub Keeps : {A : Type 0} → Action S A → Type 0
  Keeps m = (db : Store) (s : S) → P db → P (tables_of (m db s))

  pub Keeps-and_then :
      {A B : Type 0} (f : Flow S A) (k : A → Action S B)
      → P (tables_of f)
      → ((a : A) → Keeps (k a))
      → P (tables_of (and_then f k))
  Keeps-and_then (Flow.next db s a) k h keep = keep a db s h
  Keeps-and_then (Flow.stop db s e) k h keep = h

  pub Keeps-answer :
      {A : Type 0} (db : Store) (r : S × Answer A) → P db → P (tables_of (answer db r))
  Keeps-answer db (s, Answer.answered a) h = h
  Keeps-answer db (s, Answer.failed e) h = h

  Keeps-settle :
      {A : Type 0} (r : Option String) (db : Store) (s : S) (a : Answer (Store × A))
      → P db
      → ((db' : Store) (x : A) → a ≡ answered (db', x) → P db')
      → P (tables_of (unless_refused r db s (settle db s a)))
  Keeps-settle (some m) db s a h keep = h
  Keeps-settle none db s (Answer.answered (db', x)) h keep = keep db' x refl
  Keeps-settle none db s (Answer.failed e) h keep = h

  -- A transaction runs on what the other connections have left.
  pub Keeps-transaction :
      {A : Type 0} (f : ℕ → Store → Answer (Store × A))
      → ((now : ℕ) (db db' : Store) (x : A) → f now db ≡ answered (db', x) → P db → P db')
      → Keeps (transaction w f)
  Keeps-transaction f keep db s h =
      let (s', db') = w.others s db in
      Keeps-settle (w.refusal s') db' s' (f (w.now s') db') (others s db h)
        (λ db2 x e. keep (w.now s') db' db2 x e (others s db h))

pub if_owned-answered :
    {A : Type 0} (job token : ℕ) (db : Store) (a : Answer (Store × A)) (p : Store × A)
    → if_owned job token db a ≡ answered p
    → (is_owned job token db ≡ true) × (a ≡ answered p)
if_owned-answered job token db a p e = elim (Bool-cases (is_owned job token db)) [
  | inl y ↦ (y, rw y at e)
  | inr n ↦ absurd (let e' : Answer.failed lease_lost ≡ answered p = rw n at e in cc)
]

pub same_answer : {A : Type 0} (p q : Store × A) → answered p ≡ answered q → p.0 ≡ q.0
same_answer p q e = ap (λ a. tables_or p.0 a) e
  where
    tables_or : {A : Type 0} → Store → Answer (Store × A) → Store
    tables_or db (Answer.answered r) = r.0
    tables_or db (Answer.failed f) = db

module _ {S : Type 0} {V : Type 0} (w : Host S V) (P : Store → Type 0)
    (others : (s : S) (db : Store) → P db → P (w.others s db).1) where
  pub Keeps-or_lost : (b : Bool) → Keeps w P others (or_lost b)
  Keeps-or_lost true db s h = h
  Keeps-or_lost false db s h = h

  pub Keeps-call :
      {A B : Type 0} (f : S → S × Answer A) (k : A → Action S B)
      → ((a : A) → Keeps w P others (k a))
      → Keeps w P others (call f >>= k)
  Keeps-call f k keep db s h =
      Keeps-and_then w P others (call f db s) k (Keeps-answer w P others db (f s) h) keep

  -- A read, and what follows it.
  pub Keeps-read :
      {A B : Type 0} (f : ℕ → Store → Answer (Store × A)) (k : A → Action S B)
      → ((now : ℕ) (db : Store) (p : Store × A) → f now db ≡ answered p → db ≡ p.0)
      → ((a : A) → Keeps w P others (k a))
      → Keeps w P others (transaction w f >>= k)
  Keeps-read f k same keep db s h =
      Keeps-and_then w P others (transaction w f db s) k
        (Keeps-transaction w P others f (λ now db1 db2 x e p. subst P (same now db1 (db2, x) e) p)
          db s h)
        keep

module _ {S : Type 0} {V : Type 0} (w : Host S V) (P : Store → Type 0)
    (others : (s : S) (db : Store) → P db → P (w.others s db).1) (job t : ℕ)
    (step : (db db' : Store) → P db → Step t db db' → P db') where
  Keeps-assert_lease : Keeps w P others (assert_lease w job t)
  unfolding assert_lease
  Keeps-assert_lease db s h = elim (Bool-cases (w.is_heartbeat_lost s)) [
    | inl y ↦ rw y h
    | inr n ↦ rw n (
        Keeps-and_then w P others (transaction w (renew job t) db s) or_lost
          (Keeps-transaction w P others (renew job t)
            (λ now db1 db2 x e p.
              subst P (same_answer _ (db2, x) e) (step db1 _ p (Step.renews job now)))
            db s h)
          (Keeps-or_lost w P others))
  ]

  -- After an assertion of the lease.
  pub Keeps-asserted :
      {A : Type 0} (m : Action S A)
      → Keeps w P others m
      → Keeps w P others (assert_lease w job t >> m)
  Keeps-asserted m keep db s h =
      Keeps-and_then w P others (assert_lease w job t db s) (λ _. m) (Keeps-assert_lease db s h)
        (λ _. keep)
