-- ===== src/Insights/Again.antt =====
-- A condition that is detected again: no second row and no second event.
use capere_ai.Base.{
  ℕ, ◌+◌, ◌≡◌, refl, ap₂, ◌∙◌, ◌==◌, str_eq, eq_refl, Bool, true, false, ◌&&◌, Option, none, some,
  List, [], ◌∷◌, String, arith, find, any, any-append, any-find, any-update, update, All, All-imp,
  Bool-cases, inl, inr,
}
use capere_ai.Outbox.{DomainEvent}
use capere_ai.Insights.{
  InsightRow, InsightDraft, InsightGenerator, Store, Source, has_key, refresh, new_row, write,
  persist, persist_all, dismiss_resolved_integration_insights, drafts_of, event_id_of, resolve,
  count, run_batches, run, dismiss, is_resolved, dismissed_at,
}

-- An insight of the organization has the draft's key.
Keyed : ℕ → Store → InsightDraft → Type 0
Keyed org st d = any (has_key org d.dedupe_key) st.insights ≡ true

-- Nothing was published and nothing counted.
unfoldable pub IsQuiet : Store → Store × ℕ → Type 0
IsQuiet before (after, n) = (after.events ≡ before.events) × (n ≡ 0)

abbrev count_of : Store × Bool → Store × ℕ
count_of (st, b) = (st, count b)

KeepsKey : (InsightRow → InsightRow) → Type 0
KeepsKey f = (org : ℕ) (key : String) (r : InsightRow) → has_key org key (f r) ≡ has_key org key r

refresh-KeepsKey : (now : ℕ) (d : InsightDraft) → KeepsKey (refresh now d)
unfolding KeepsKey refresh
refresh-KeepsKey now d org key r = refl

update-Keyed :
    (org : ℕ) (p : InsightRow → Bool) (f : InsightRow → InsightRow) (d : InsightDraft) (st : Store)
    → KeepsKey f
    → Keyed org st d
    → Keyed org (record st { insights = update p f st.insights }) d
unfolding Keyed KeepsKey
update-Keyed org p f d st k h =
    any-update (has_key org d.dedupe_key) p f (k org d.dedupe_key) st.insights ∙ h

find_keyed :
    (p : InsightRow → Bool) (xs : List InsightRow)
    → any p xs ≡ true
    → (r : InsightRow) × (find p xs ≡ some r)
find_keyed p [] h = absurd cc
find_keyed p (x ∷ xs) h = elim (Bool-cases (p x)) [
  | inl y ↦ (x, rw y refl)
  | inr n ↦ let rest = find_keyed p xs (ground (arith, h, n)) in (rest.0, rw n rest.1)
]

module _ (org : ℕ) where
  resolve-Keyed :
      (now : ℕ) (g : InsightGenerator) (ds : List InsightDraft) (d : InsightDraft) (st : Store)
      → Keyed org st d
      → Keyed org (resolve now org g ds st) d
  unfolding dismiss_resolved_integration_insights KeepsKey
  resolve-Keyed now g ds d st h = elim (Bool-cases (str_eq g.name "integration_health")) [
    | inl y ↦ rw y (update-Keyed org (is_resolved org ds) (dismissed_at now) d st (λ o k r. refl) h)
    | inr n ↦ rw n h
  ]

  dismiss-Keyed :
      (now id : ℕ) (d : InsightDraft) (st : Store)
      → Keyed org st d
      → Keyed org (dismiss now org id st) d
  unfolding dismiss KeepsKey
  dismiss-Keyed now id d st h =
      update-Keyed org (λ r. r.organization_id == org && r.id == id) (dismissed_at now) d st
        (λ o k r. refl) h

  module _ (src : Source) (now : ℕ) (name : String) (event : Option ℕ) where
    write-keeps :
        (d e : InsightDraft) (st : Store) (o : Option InsightRow)
        → Keyed org st e
        → Keyed org (write src now org name d event st o).0 e
    unfolding Keyed
    write-keeps d e st none h = any-append (has_key org e.dedupe_key) st.insights _ ∙ rw h refl
    write-keeps d e st (some r) h =
        update-Keyed org _ (refresh now d) e st (refresh-KeepsKey now d) h

    write-Keyed :
        (d : InsightDraft) (st : Store) (o : Option InsightRow)
        → find (has_key org d.dedupe_key) st.insights ≡ o
        → Keyed org (write src now org name d event st o).0 d
    unfolding Keyed new_row
    write-Keyed d st none h =
        any-append (has_key org d.dedupe_key) st.insights _ ∙ rw (eq_refl d.dedupe_key) ground arith
    write-Keyed d st (some r) h =
        update-Keyed org _ (refresh now d) d st (refresh-KeepsKey now d)
          (any-find (has_key org d.dedupe_key) st.insights r h)

    persist-Keyed :
        (d : InsightDraft) (st : Store) → Keyed org (persist src now org name d event st).0 d
    unfolding persist
    persist-Keyed d st = write-Keyed d st (find (has_key org d.dedupe_key) st.insights) refl

    persist_all-keeps :
        (ds : List InsightDraft) (e : InsightDraft) (st : Store)
        → Keyed org st e
        → Keyed org (persist_all src now org name event ds st).0 e
    unfolding persist_all persist
    persist_all-keeps [] e st h = h
    persist_all-keeps (d ∷ ds) e st h =
        persist_all-keeps ds e _
          (write-keeps d e st (find (has_key org d.dedupe_key) st.insights) h)

    persist_all-Keyed :
        (ds : List InsightDraft) (st : Store)
        → All (Keyed org (persist_all src now org name event ds st).0) ds
    unfolding persist_all
    persist_all-Keyed [] st = tt
    persist_all-Keyed (d ∷ ds) st = (
      persist_all-keeps ds d _ (persist-Keyed d st),
      persist_all-Keyed ds (persist src now org name d event st).0,
    )

    persist_again :
        (d : InsightDraft) (st : Store)
        → Keyed org st d
        → IsQuiet st (count_of (persist src now org name d event st))
    unfolding Keyed persist IsQuiet
    persist_again d st h =
        let found = find_keyed (has_key org d.dedupe_key) st.insights h in rw found.1 (refl, refl)

    persist_all_again :
        (ds : List InsightDraft) (st : Store)
        → All (Keyed org st) ds
        → IsQuiet st (persist_all src now org name event ds st)
    unfolding persist_all IsQuiet persist
    persist_all_again [] st h = (refl, refl)
    persist_all_again (d ∷ ds) st (h, hs) =
        let after = (persist src now org name d event st).0 in
        let one = persist_again d st h in
        let rest = persist_all_again ds after (
          All-imp (Keyed org st) (Keyed org after)
            (λ e. write-keeps d e st (find (has_key org d.dedupe_key) st.insights)) ds hs) in
        (rest.0 ∙ one.0, ap₂ (λ m n. m + n) one.1 rest.1)

  module _ (src : Source) (now : ℕ) (event : Option DomainEvent) where
    run_batches-keeps :
        (gs : List InsightGenerator) (e : InsightDraft) (st : Store)
        → Keyed org st e
        → Keyed org (run_batches src now org event gs st).0 e
    unfolding run_batches
    run_batches-keeps [] e st h = h
    run_batches-keeps (g ∷ gs) e st h = run_batches-keeps gs e _ (
        persist_all-keeps src now g.name (event_id_of event) (drafts_of org event g) e _
          (resolve-Keyed now g (drafts_of org event g) e st h))

    run_batches-Keyed :
        (gs : List InsightGenerator) (st : Store)
        → All
            (λ g. All (Keyed org (run_batches src now org event gs st).0) (drafts_of org event g))
            gs
    unfolding run_batches
    run_batches-Keyed [] st = tt
    run_batches-Keyed (g ∷ gs) st =
        let ds = drafts_of org event g in
        let one = persist_all src now org g.name (event_id_of event) ds (resolve now org g ds st) in
        (
          All-imp (Keyed org one.0) (Keyed org (run_batches src now org event gs one.0).0)
              (λ e. run_batches-keeps gs e one.0) ds
              (persist_all-Keyed src now g.name (event_id_of event) ds (resolve now org g ds st)),
          run_batches-Keyed gs one.0,
        )

    resolve_events :
        (g : InsightGenerator) (ds : List InsightDraft) (st : Store)
        → (resolve now org g ds st).events ≡ st.events
    unfolding dismiss_resolved_integration_insights
    resolve_events g ds st = elim (Bool-cases (str_eq g.name "integration_health")) [
      | inl y ↦ rw y refl
      | inr n ↦ rw n refl
    ]

    run_batches_again :
        (gs : List InsightGenerator) (st : Store)
        → All (λ g. All (Keyed org st) (drafts_of org event g)) gs
        → IsQuiet st (run_batches src now org event gs st)
    unfolding run_batches IsQuiet
    run_batches_again [] st h = (refl, refl)
    run_batches_again (g ∷ gs) st (h, hs) =
        let ds = drafts_of org event g in
        let before = resolve now org g ds st in
        let id = event_id_of event in
        let one =
          persist_all_again src now g.name id ds before
            (All-imp (Keyed org st) (Keyed org before) (λ e. resolve-Keyed now g ds e st) ds h) in
        let after = (persist_all src now org g.name id ds before).0 in
        let rest = run_batches_again gs after (
          All-imp (λ g'. All (Keyed org st) (drafts_of org event g'))
            (λ g'. All (Keyed org after) (drafts_of org event g'))
            (λ g'.
              All-imp (Keyed org st) (Keyed org after)
                (λ e k.
                  persist_all-keeps src now g.name id ds e before (resolve-Keyed now g ds e st k))
                (drafts_of org event g'))
            gs hs) in
        (rest.0 ∙ one.0 ∙ resolve_events g ds st, ap₂ (λ m n. m + n) one.1 rest.1)

-- A second run of generators with the same drafts, also after an insight was dismissed, adds no
-- event and returns 0.
pub run_again :
    (src src' : Source) (now later now' : ℕ) (enabled : Bool) (org id : ℕ)
    (gs : List InsightGenerator) (event : Option DomainEvent) (st : Store)
    → let between = dismiss later org id (run src now true org gs event st).0 in
      IsQuiet between (run src' now' enabled org gs event between)
unfolding run dismiss IsQuiet
run_again src src' now later now' false org id gs event st = (refl, refl)
run_again src src' now later now' true org id gs event st =
    let first = (run_batches src now org event gs st).0 in
    let between = dismiss later org id first in
    run_batches_again org src' now' event gs between (
      All-imp (λ g. All (Keyed org first) (drafts_of org event g))
        (λ g. All (Keyed org between) (drafts_of org event g))
        (λ g.
          All-imp (Keyed org first) (Keyed org between) (λ e. dismiss-Keyed org later id e first)
            (drafts_of org event g))
        gs (run_batches-Keyed org src now event gs st))
