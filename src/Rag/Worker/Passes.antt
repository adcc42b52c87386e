-- ===== src/Rag/Worker/Passes.antt =====
-- A pass of a worker is a sequence of steps.
use capere_ai.Base.{
  ℕ, ◌≡◌, refl, sym, subst, Bool, true, false, Option, none, some, List, [], ◌∷◌, String,
}
use capere_ai.Rag.Rows.{RagJob, RagJobOperation, Store}
use capere_ai.Rag.Access.{
  lease_lost, thrown, Answer, answered, settle, unless_refused, Flow, Host, transaction, or_lost,
}
use capere_ai.Rag.Ingestion.{RagSettings}
use capere_ai.Rag.Worker.{
  ClaimedRagJob, claim_first, claimable_jobs, claim, mark_succeeded, mark_failed, failed_store,
  ingest_version, work_of, work, after_fail, after_work, after_claim, tick,
}
use capere_ai.Rag.Worker.Runs.{Keeps-ingest, Keeps-purge}
use capere_ai.Rag.Worker.Steps.{Step, Reach, Reach-trans}
use capere_ai.Rag.Worker.Rules.{
  tables_of, Keeps, Keeps-and_then, Keeps-transaction, Keeps-or_lost, Keeps-asserted,
  if_owned-answered, same_answer,
}

module _ {S : Type 0} {V : Type 0} (w : Host S V) (P : Store → Type 0)
    (others : (s : S) (db : Store) → P db → P (w.others s db).1) (T : ℕ → Type 0)
    (step : (t : ℕ) (db db' : Store) → T t → P db → Step t db db' → P db') where
  module _ (j : ClaimedRagJob) (mine : T j.claim_token) where
    steps : (db db' : Store) → P db → Step j.claim_token db db' → P db'
    steps db db' = step j.claim_token db db' mine

    Keeps-ingest_version :
        (settings : RagSettings) (version : Option ℕ)
        → Keeps w P others (ingest_version w settings j version)
    Keeps-ingest_version settings none = λ db s h. h
    Keeps-ingest_version settings (some version) =
        Keeps-ingest w P others j.id j.claim_token steps settings j.document_id version

    Keeps-work_of :
        (settings : RagSettings) (o : RagJobOperation) → Keeps w P others (work_of w settings j o)
    Keeps-work_of settings RagJobOperation.delete =
        Keeps-purge w P others j.id j.claim_token steps j.document_id
    Keeps-work_of settings RagJobOperation.ingest = Keeps-ingest_version settings j.version_id
    Keeps-work_of settings RagJobOperation.reindex = Keeps-ingest_version settings j.version_id

    Keeps-work : (settings : RagSettings) → Keeps w P others (work w settings j)
    unfolding work mark_succeeded
    Keeps-work settings = Keeps-asserted w P others j.id j.claim_token steps _ λ db s h.
        Keeps-and_then w P others (work_of w settings j j.operation db s) _
          (Keeps-work_of settings j.operation db s h)
          λ _ db s h.
            Keeps-and_then w P others (transaction w (mark_succeeded j) db s) or_lost
              (Keeps-transaction w P others (mark_succeeded j)
                (λ now db db' x e h.
                  subst P (same_answer _ (db', x) e) (steps db _ h (Step.succeeds j.id)))
                db s h)
              (Keeps-or_lost w P others)

    Keeps-mark_failed :
        (message : String) → Keeps w P others (transaction w (mark_failed j message))
    unfolding mark_failed
    Keeps-mark_failed message =
        Keeps-transaction w P others (mark_failed j message) (λ now db db' x e h.
          let owned =
            if_owned-answered j.id j.claim_token db (answered (failed_store j message now db, tt))
              (db', x) e in
          subst P (same_answer _ (db', x) owned.1)
            (steps db _ h (Step.fails j message now refl owned.0)))

    after_fail-keeps : (f : Flow S (Unit {0})) → P (tables_of f) → P (after_fail w f).0
    after_fail-keeps (Flow.next db s u) h = h
    after_fail-keeps (Flow.stop db s e) h = h

    after_work-keeps : (f : Flow S (Unit {0})) → P (tables_of f) → P (after_work w j f).0
    after_work-keeps (Flow.next db s u) h = h
    after_work-keeps (Flow.stop db s lease_lost) h = h
    after_work-keeps (Flow.stop db s (thrown m)) h =
        after_fail-keeps (transaction w (mark_failed j m) db s) (Keeps-mark_failed m db s h)

  token_of :
      (token now : ℕ) (db db' : Store) (js : List RagJob) (j : ClaimedRagJob)
      → claim_first token now db js ≡ answered (db', some j)
      → j.claim_token ≡ token
  token_of token now db db' [] j e = absurd cc
  token_of token now db db' (x ∷ js) j e = cc

  module _ (settings : RagSettings) (locked : ℕ → Bool) (token now : ℕ) (mine : T token) where
    after_claim-keeps :
        (db db' : Store) (s : S) (o : Option ClaimedRagJob)
        → claim locked token now db ≡ answered (db', o)
        → P db
        → P (after_claim w settings (Flow.next db' s o)).0
    unfolding claim
    after_claim-keeps db db' s none e h = step token db db' mine h (Step.claims locked now none e)
    after_claim-keeps db db' s (some j) e h =
        let of_token = token_of token now db db' (claimable_jobs locked now db) j e in
        let taken : P db' = step token db db' mine h (Step.claims locked now (some j) e) in
        let work_mine = subst T (sym of_token) mine in
        after_work-keeps j work_mine (work w settings j db' s)
          (Keeps-work j work_mine settings db' s taken)

    claimed-keeps :
        (refusal : Option String) (db : Store) (s : S) (a : Answer (Store × Option ClaimedRagJob))
        → claim locked token now db ≡ a
        → P db
        → P (after_claim w settings (unless_refused refusal db s (settle db s a))).0
    claimed-keeps (some m) db s a e h = h
    claimed-keeps none db s (Answer.answered (db', o)) e h = after_claim-keeps db db' s o e h
    claimed-keeps none db s (Answer.failed f) e h = h

  -- What the steps of the worker's own tokens and the other connections keep, a pass keeps.
  pub Keeps-tick :
      (settings : RagSettings) (is_busy : Bool) (db : Store) (s : S)
      → T (w.new_token s)
      → P db
      → P (tick w settings is_busy db s).0
  unfolding tick
  Keeps-tick settings true db s mine h = h
  Keeps-tick settings false db s mine h =
      let (s', db') = w.others s db in
      claimed-keeps settings (w.is_locked s) (w.new_token s) (w.now s') mine (w.refusal s') db' s'
        (claim (w.is_locked s) (w.new_token s) (w.now s') db') refl (others s db h)

-- A pass of a worker is a sequence of steps of the transition system, its own under the token of the pass
-- and those of the other connections, whatever the services do and however the pass ends.
pub tick_steps :
    {S V : Type 0} (w : Host S V) (T : ℕ → Type 0)
    → ((s : S) (db : Store) → Reach T db (w.others s db).1)
    → (settings : RagSettings) (is_busy : Bool) (db : Store) (s : S) → T (w.new_token s)
    → Reach T db (tick w settings is_busy db s).0
tick_steps w T others settings is_busy db s mine =
    Keeps-tick w (Reach T db) (λ s' db' r. Reach-trans r (others s' db')) T
      (λ t db1 db2 m r st. Reach.next t m r st) settings is_busy db s mine Reach.here
