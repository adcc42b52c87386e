-- ===== src/Memory/Facts.antt =====
-- The facts of an organization: what is set is read until it expires or is forgotten.
use capere_ai.Base.{
  ℕ, ◌≡◌, refl, Bool, true, false, not, ◌&&◌, Option, none, some, List, [], ◌∷◌, ◌++◌, String,
  eq_refl, arith, find, any, select, update, Bool-cases, inl, inr,
}
use capere_ai.Memory.{FactRow, Tables, is_fact, is_live, get_fact, set_fact, forget_fact}

abbrev pub value_of : Option FactRow → Option String
value_of none = none
value_of (some f) = some f.value

-- The value of a fact where it has not expired.
abbrev pub value_if : Bool → String → Option String
value_if true value = some value
value_if false value = none

module _ (now at : ℕ) (org key : String) (new : FactRow) where
  abbrev is_read : FactRow → Bool
  is_read f = is_fact org key f && is_live at f

  abbrev changed : FactRow → FactRow
  changed f = record f {
    value = new.value;
    source = new.source;
    confidence = new.confidence;
    expires_at = new.expires_at;
    updated_at = now;
  }

  unread :
      (rows : List FactRow)
      → is_live at new ≡ false
      → value_of (find is_read (update (is_fact org key) changed rows)) ≡ none
  unread [] dead = refl
  unread (f ∷ rows) dead = elim (Bool-cases (is_fact org key f)) [
    | inl y ↦ rw (y, y, dead) (unread rows dead)
    | inr n ↦ rw (n, n) (unread rows dead)
  ]

  read_updated :
      (rows : List FactRow)
      → any (is_fact org key) rows ≡ true
      → value_of (find is_read (update (is_fact org key) changed rows))
        ≡ value_if (is_live at new) new.value
  read_updated [] h = absurd cc
  read_updated (f ∷ rows) h = elim (Bool-cases (is_fact org key f)) [
    | inl y ↦ elim (Bool-cases (is_live at new)) [
      | inl live ↦ rw (y, y, live) refl
      | inr dead ↦ rw (y, y, dead) (unread rows dead)
    ]
    | inr n ↦ rw (n, n) (read_updated rows (rw n at h))
  ]

  read_added :
      (rows : List FactRow) (f : FactRow)
      → any (is_fact org key) rows ≡ false
      → is_fact org key f ≡ true
      → value_of (find is_read (rows ++ f ∷ [])) ≡ value_if (is_live at f) f.value
  read_added [] f h y = elim (Bool-cases (is_live at f)) [
    | inl live ↦ rw (y, live) refl
    | inr dead ↦ rw (y, dead) refl
  ]
  read_added (r ∷ rows) f h y = elim (Bool-cases (is_fact org key r)) [
    | inl z ↦ absurd (ground arith)
    | inr n ↦ rw n (read_added rows f (rw n at h) y)
  ]

-- A fact that is set is read, at any time, until it expires, and is gone once it is forgotten.
pub get_fact-set_fact :
    (now at : ℕ) (new : FactRow) (t : Tables)
    → (value_of (get_fact at new.organization_id new.key (set_fact now new t))
        ≡ value_if (is_live at new) new.value)
      × (get_fact at new.organization_id new.key (forget_fact new.organization_id new.key t) ≡ none)
unfolding get_fact set_fact forget_fact
get_fact-set_fact now at new t = (
  elim (Bool-cases (any (is_fact new.organization_id new.key) t.facts)) [
    | inl y ↦ rw y (read_updated now at new.organization_id new.key new t.facts y)
    | inr n ↦ rw n (
        read_added now at new.organization_id new.key new t.facts (record new { updated_at = now })
          n (rw (eq_refl new.organization_id) (eq_refl new.key)))
  ],
  gone t.facts,
)
  where
    gone :
        (rows : List FactRow)
        → find
            (λ f. is_fact new.organization_id new.key f && is_live at f)
            (select (λ f. not (is_fact new.organization_id new.key f)) rows)
          ≡ none
    gone [] = refl
    gone (f ∷ rows) = elim (Bool-cases (is_fact new.organization_id new.key f)) [
      | inl y ↦ rw y (gone rows)
      | inr n ↦ rw (n, n) (gone rows)
    ]
