-- ===== src/Tools/Offers.antt =====
-- The tools that are offered to the model, and the names of the registry.
use capere_ai.Base.{
  ◌≡◌, refl, subst, Bool, true, false, not, ◌||◌, some, List, [], ◌∷◌, ◌++◌, String, eq_iff,
  eq_refl, arith, All, All-imp, All-map, All-select, All-zip, All-not_any, any-append, Bool-cases,
  inl, inr, some_same, codes,
}
use capere_ai.Tools.{
  Tool, ToolDescriptor, includes, is_tool_name, get, is_named, has, register, permits_agent,
  descriptor, descriptors_for,
}
use capere_ai.Tools.Schema.{ZodType}

module _ {V : Type 0} {S : Type 0} where
  -- No two tools have one name, and every name is one that the providers take.
  unfoldable pub Registry : List (Tool V S) → Type 0
  Registry [] = Unit
  Registry (t ∷ ts) = (has ts t.name ≡ false) × (is_tool_name (codes t.name) ≡ true) × Registry ts

  -- Each tool is the one that its name finds.
  named : (ts : List (Tool V S)) → Registry ts → All (λ t. get ts t.name ≡ some t) ts
  unfolding Registry get has
  named [] h = tt
  named (t ∷ ts) (new, shape, h) = (
    rw (eq_refl t.name) refl,
    All-imp (λ u. (is_named t.name u ≡ false) × (get ts u.name ≡ some u))
        (λ u. get (t ∷ ts) u.name ≡ some u)
        (λ u both. elim (Bool-cases (is_named u.name t)) [
          | inl y ↦ absurd (ground (arith, (eq_iff t.name u.name).0 y, eq_refl u.name))
          | inr n ↦ rw n both.1
        ])
        ts (All-zip _ _ ts (All-not_any (is_named t.name) ts new) (named ts h)),
  )

  has-append :
      (name : String) (t : Tool V S) (ts : List (Tool V S))
      → has (ts ++ t ∷ []) name ≡ has ts name || is_named name t
  unfolding has
  has-append name t ts = any-append (is_named name) ts t

  same_name : (t u : Tool V S) → is_named t.name u ≡ false → is_named u.name t ≡ false
  same_name t u h = elim (Bool-cases (is_named u.name t)) [
    | inl y ↦ absurd (ground (arith, (eq_iff t.name u.name).0 y, eq_refl u.name))
    | inr n ↦ n
  ]

  Registry-append :
      (tool : Tool V S) (ts : List (Tool V S))
      → Registry ts
      → has ts tool.name ≡ false
      → is_tool_name (codes tool.name) ≡ true
      → Registry (ts ++ tool ∷ [])
  unfolding Registry has
  Registry-append tool [] h new shape = (refl, shape, tt)
  Registry-append tool (t ∷ ts) (old, ok, h) new shape = elim (Bool-cases (is_named tool.name t)) [
    | inl y ↦ absurd (ground arith)
    | inr n ↦ (
      rw (has-append t.name tool ts, old) (same_name tool t (rw n refl)),
      ok,
      Registry-append tool ts h (rw n at new) shape,
    )
  ]

  -- Each registration keeps the names apart and in shape.
  pub register-Registry :
      (tool : Tool V S) (ts ts' : List (Tool V S))
      → Registry ts
      → register tool ts ≡ some ts'
      → Registry ts'
  unfolding register
  register-Registry tool ts ts' h e = elim (Bool-cases (has ts tool.name)) [
    | inl y ↦ absurd (ground (arith, rw y at e))
    | inr n ↦ elim (Bool-cases (is_tool_name (codes tool.name))) [
      | inr bad ↦ absurd (ground (arith, rw (n, bad) at e))
      | inl ok ↦
          subst Registry (some_same (ts ++ tool ∷ []) ts' (rw (n, ok) at e))
            (Registry-append tool ts h n ok)
    ]
  ]

  unfoldable pub Usable : List (Tool V S) → String → Bool → String → ToolDescriptor → Type 0
  Usable tools role include_mutating agent d =
      (tool : Tool V S) × (get tools d.name ≡ some tool)
      × (includes role tool.permissions ≡ true)
      × (permits_agent agent tool.agents ≡ true)
      × (include_mutating || not tool.mutates ≡ true)

  -- In a registry, every tool that is offered to a role and an agent is found by its name and passes the
  -- checks of that role and agent; none of them changes state where such tools are left out.
  pub descriptors_for-Usable :
      (is_optional : ZodType → Bool) (tools : List (Tool V S)) (role : String)
      (include_mutating : Bool) (agent : String)
      → Registry tools
      → All
          (Usable tools role include_mutating agent)
          (descriptors_for is_optional tools role include_mutating (some agent))
  unfolding descriptors_for Usable
  descriptors_for-Usable is_optional tools role include_mutating agent h =
      All-map (Usable tools role include_mutating agent) (descriptor is_optional) _ (
        All-select _ (λ t. Usable tools role include_mutating agent (descriptor is_optional t))
          (λ t. include_mutating || not t.mutates) (λ t q m. (t, q.0, q.1.0, q.1.1, m)) _
          (All-select _
            (λ t.
              (get tools t.name ≡ some t)
              × ((includes role t.permissions ≡ true) × (permits_agent agent t.agents ≡ true)))
            (λ t. permits_agent agent t.agents) (λ t q a. (q.0, (q.1, a))) _
            (All-select (λ t. get tools t.name ≡ some t)
              (λ t. (get tools t.name ≡ some t) × (includes role t.permissions ≡ true))
              (λ t. includes role t.permissions) (λ t q r. (q, r)) tools (named tools h))))
