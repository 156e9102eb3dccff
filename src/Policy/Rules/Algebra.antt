-- ===== src/Policy/Rules/Algebra.antt =====
-- What the policies decide, against what they were told to require and to grant.
use ai_microservices.Base.Dict.{lookup-insert}
use ai_microservices.Base.{
  contains, arith, ◌≡◌, refl, sym, ap, ◌∙◌, inl, inr, Bool, ◌&&◌, ◌||◌, List, [], ◌∷◌, Bool-cases,
  all, ◌==◌, nat_eq, string_eq, pair_eq, Eq, true, not, any, ℕ, ◌↔◌, ◌⊎◌, false, some, Option-cases,
}
use ai_microservices.Policy.Roles.{
  Role, role_eq, Permission, permission_eq, AuthContext, has_role, has_any_role, has_all_roles,
  role_beq_iff,
}
use ai_microservices.Policy.Rules.{
  RolePolicy, Request, Policies, Grants, add, update, require_role, require_all_roles, has_required,
  grant_permission, granted, permissions_of, get_user_permissions, evaluate, evaluate_all,
  evaluate_any, and_mode, or_mode, composite, with_policy, none_added, is_empty,
}

module _ {ℓ} {A : Type ℓ} ⦃e : Eq A⦄ where
  contains-add : (x y : A) (xs : List A) → contains (add x xs) y ≡ (x == y || contains xs y)
  contains-add x y xs = elim (Bool-cases (contains xs x)) [
    | inl c ↦ elim (Bool-cases (x == y)) [
      | inl q ↦ simp (c, q) (ap (contains xs) (sym ((e.eqb_iff x y).0 q)) ∙ c)
      | inr q ↦ simp (c, q)
    ]
    | inr c ↦ simp c
  ]

  contains-update :
      (ys xs : List A) (y : A) → contains (update ys xs) y ≡ (contains ys y || contains xs y)
  contains-update [] xs y = refl
  contains-update (x ∷ ys) xs y =
      simp (contains-update ys (add x xs) y, contains-add) (ground arith)

  all-contains :
      (p : A → Bool) (x : A) (xs : List A) → contains xs x ≡ true → all p xs ≡ true → p x ≡ true
  all-contains p x [] c h = cc
  all-contains p x (y ∷ xs) c h = elim (Bool-cases (p y)) [
    | inl q ↦ elim (Bool-cases (y == x)) [
      | inl d ↦ ap p (sym ((e.eqb_iff y x).0 d)) ∙ q
      | inr d ↦ all-contains p x xs (simp d at c) (simp q at h)
    ]
    | inr q ↦ cc (simp q at h)
  ]

  -- a test of all members, of a list with one more
  all-add : (p : A → Bool) (x : A) (xs : List A) → all p (add x xs) ≡ (p x && all p xs)
  all-add p x xs = elim (Bool-cases (contains xs x)) [
    | inl c ↦ elim (Bool-cases (all p xs)) [
      | inl a ↦ simp (c, a, all-contains p x xs c a)
      | inr a ↦ simp (c, a) (ground arith)
    ]
    | inr c ↦ simp c
  ]

  guarded_all :
      (p : A → Bool) (xs : List A) → (not (is_empty xs) && not (all p xs)) ≡ not (all p xs)
  guarded_all p [] = refl
  guarded_all p (x ∷ xs) = refl

  all-update : (p : A → Bool) (ys xs : List A) → all p (update ys xs) ≡ (all p ys && all p xs)
  all-update p [] xs = refl
  all-update p (y ∷ ys) xs = simp (all-update p ys (add y xs), all-add) (ground arith)

-- A role policy grants a request exactly where the user has all the roles required one by one, all
-- those required together, and one at least of those allowed, if any are named.
pub has_required_lem :
    (p : RolePolicy) (c : AuthContext)
    → has_required p c ≡ (
        has_all_roles p.required_roles c
        && has_all_roles p.all_roles c
        && (is_empty p.any_role || has_any_role p.any_role c))
unfolding has_required
has_required_lem p c =
    simp
      (guarded_all (contains c.roles) p.required_roles, guarded_all (contains c.roles) p.all_roles)
      (ground arith)

-- Requiring one more role never lets in anybody new: the policy that results grants what the policy
-- before granted to those who have the role.
pub require_role_narrows :
    (r : Role) (p : RolePolicy) (c : AuthContext)
    → has_required (require_role r p) c ≡ (has_required p c && has_role r c)
unfolding require_role
require_role_narrows r p c = simp (has_required_lem, all-add) (ground arith)

-- Requiring a list of roles grants what the policy before granted to those who have them all.
pub require_all_roles_narrows :
    (rs : List Role) (p : RolePolicy) (c : AuthContext)
    → has_required (require_all_roles rs p) c ≡ (has_required p c && has_all_roles rs c)
unfolding require_all_roles
require_all_roles_narrows rs p c = simp (has_required_lem, all-update) (ground arith)

granted-grant :
    (r s : Role) (p q : Permission) (g : Grants)
    → contains (granted s (grant_permission r p g)) q
      ≡ ((r == s && p == q) || contains (granted s g) q)
unfolding grant_permission
granted-grant r s p q g = elim (Bool-cases (r == s)) [
  | inl e ↦
      let x : granted r g ≡ granted s g = ap (λ y. granted y g) ((role_beq_iff r s).0 e) in
      simp (lookup-insert, e, contains-add, x, granted)
  | inr e ↦ simp (lookup-insert, e, granted)
]

permissions_of-contains :
    (g : Grants) (rs : List Role) (ps : List Permission) (q : Permission)
    → contains (permissions_of g rs ps) q
      ≡ (any (λ r. contains (granted r g) q) rs || contains ps q)
permissions_of-contains g [] ps q = refl
permissions_of-contains g (r ∷ rs) ps q =
    simp (permissions_of-contains g rs (update (granted r g) ps) q, contains-update) (ground arith)

role_sym : (r s : Role) → (r == s) ≡ (s == r)
role_sym r s = ground (arith, role_beq_iff r s, role_beq_iff s r)

any-granted :
    (rs : List Role) (r : Role) (p q : Permission) (g : Grants)
    → any (λ s. contains (granted s (grant_permission r p g)) q) rs
      ≡ ((contains rs r && p == q) || any (λ s. contains (granted s g) q) rs)
any-granted [] r p q g = refl
any-granted (s ∷ rs) r p q g =
    simp (granted-grant, any-granted rs r p q g, role_sym r s) (ground arith)

-- After a permission is granted to a role, a user has it who has the role, and the permissions that
-- anybody had before are as they were.
pub grant_permission_exact :
    (r : Role) (p q : Permission) (g : Grants) (c : AuthContext)
    → contains (get_user_permissions (grant_permission r p g) c) q
      ≡ ((has_role r c && p == q) || contains (get_user_permissions g c) q)
grant_permission_exact r p q g c = simp (permissions_of-contains, any-granted) (ground arith)

module _ (now : ℕ) (c : AuthContext) (q : Request) where
  -- every policy of a list grants
  abbrev pub AllGrant : Policies → Type 0
  AllGrant none_added = Unit
  AllGrant (with_policy p ps) = (evaluate now c q p ≡ some true) × AllGrant ps

  -- a policy of a list grants, and those before it refuse without raising
  abbrev pub SomeGrants : Policies → Type 0
  SomeGrants none_added = ⊥
  SomeGrants (with_policy p ps) =
      (evaluate now c q p ≡ some true) ⊎ ((evaluate now c q p ≡ some false) × SomeGrants ps)

  evaluate_all_iff : (ps : Policies) → (evaluate_all now c q ps ≡ some true) ↔ AllGrant ps
  unfolding evaluate_all
  evaluate_all_iff none_added = ((λ _. tt), (λ _. refl))
  evaluate_all_iff (with_policy p ps) = elim (Option-cases (evaluate now c q p)) [
    | inl n ↦ simp n ((λ h. cc), (λ h. cc))
    | inr (true, f) ↦
        simp f ((λ h. (refl, (evaluate_all_iff ps).0 h)), (λ h. (evaluate_all_iff ps).1 h.1))
    | inr (false, f) ↦ simp f ((λ h. cc), (λ h. cc))
  ]

  evaluate_any_iff : (ps : Policies) → (evaluate_any now c q ps ≡ some true) ↔ SomeGrants ps
  unfolding evaluate_any
  evaluate_any_iff none_added = ((λ h. cc), (λ h. absurd h))
  evaluate_any_iff (with_policy p ps) = elim (Option-cases (evaluate now c q p)) [
    | inl n ↦ simp n ((λ h. cc), (λ h. elim h [ inl x ↦ x | inr x ↦ cc ]))
    | inr (true, f) ↦ simp f ((λ h. inl refl), (λ h. refl))
    | inr (false, f) ↦ simp f (
      (λ h. inr (refl, (evaluate_any_iff ps).0 h)),
      (λ h. elim h [ inl x ↦ cc | inr x ↦ (evaluate_any_iff ps).1 x.1 ]),
    )
  ]

  -- A composite policy in the mode "and" grants exactly where each policy added to it grants. Without
  -- any policy it grants.
  pub composite_and_iff :
      (ps : Policies) → (evaluate now c q (composite and_mode ps) ≡ some true) ↔ AllGrant ps
  unfolding evaluate
  composite_and_iff none_added = ((λ _. tt), (λ _. refl))
  composite_and_iff (with_policy p ps) = evaluate_all_iff (with_policy p ps)

  -- A composite policy in the mode "or" grants exactly where it has no policy, or one that grants
  -- after policies that refuse without raising.
  pub composite_or_iff :
      (ps : Policies)
      → (evaluate now c q (composite or_mode ps) ≡ some true) ↔ ((ps ≡ none_added) ⊎ SomeGrants ps)
  unfolding evaluate
  composite_or_iff none_added = ((λ h. inl refl), (λ h. refl))
  composite_or_iff (with_policy p ps) = (
    λ h. inr ((evaluate_any_iff (with_policy p ps)).0 h),
    λ h. elim h [ inl e ↦ cc | inr g ↦ (evaluate_any_iff (with_policy p ps)).1 g ],
  )
