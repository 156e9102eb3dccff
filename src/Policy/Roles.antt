-- ===== src/Policy/Roles.antt =====
-- shared/shared_auth/models.py: the roles, the permissions and the context of a request. A time is
-- a number of microseconds.
use ai_microservices.Base.Value.{Fields}
use ai_microservices.Base.{
  ℕ, String, ◌≡◌, refl, ◌↔◌, Bool, true, false, ◌&&◌, Option, none, some, List, [], ◌∷◌,
  if◌then◌else◌, Eq, ◌==◌, string_eq, nat_eq, pair_eq, contains, all, any, ltb, arith, eq_iff,
  Bool-cases, inl, inr, ◌⊎◌, sym, ap, ◌∙◌, ◌||◌,
}

pub data Role : Type 0 where
  admin : Role
  user : Role
  worker : Role

abbrev pub value : Role → String
value admin = "admin"
value user = "user"
value worker = "worker"

abbrev pub role_beq : Role → Role → Bool
role_beq admin admin = true
role_beq user user = true
role_beq worker worker = true
role_beq _ _ = false

pub role_beq_iff : (r s : Role) → (role_beq r s ≡ true) ↔ (r ≡ s)
role_beq_iff admin admin = ((λ e. refl), (λ e. refl))
role_beq_iff user user = ((λ e. refl), (λ e. refl))
role_beq_iff worker worker = ((λ e. refl), (λ e. refl))
role_beq_iff admin user = ((λ e. cc), (λ e. cc))
role_beq_iff admin worker = ((λ e. cc), (λ e. cc))
role_beq_iff user admin = ((λ e. cc), (λ e. cc))
role_beq_iff user worker = ((λ e. cc), (λ e. cc))
role_beq_iff worker admin = ((λ e. cc), (λ e. cc))
role_beq_iff worker user = ((λ e. cc), (λ e. cc))

instance abbrev pub role_eq : Eq Role
role_eq = record { eqb = role_beq; eqb_iff = role_beq_iff }

-- `Role(role)`, where `Role.is_valid(role)`
unfoldable pub of_value : String → Option Role
of_value s =
    if s == "admin"
    then some admin
    else if s == "user"
    then some user
    else if s == "worker"
    then some worker
    else none

-- `Role.from_list`
abbrev pub from_list : List String → List Role
from_list [] = []
from_list (s ∷ ss) = elim (of_value s) [ none ↦ from_list ss | some r ↦ r ∷ from_list ss ]

pub record Permission : Type 0 where
  pub resource : String
  pub action : String
  pub owner_required : Bool

abbrev bool_beq : Bool → Bool → Bool
bool_beq true b = b
bool_beq false true = false
bool_beq false false = true

-- `Permission.__eq__`
abbrev pub permission_beq : Permission → Permission → Bool
permission_beq p q =
    p.resource == q.resource && p.action == q.action && bool_beq p.owner_required q.owner_required

pub permission_beq_iff : (p q : Permission) → (permission_beq p q ≡ true) ↔ (p ≡ q)
permission_beq_iff p q = ground (arith, eq_iff p.resource q.resource, eq_iff p.action q.action)

instance abbrev pub permission_eq : Eq Permission
permission_eq = record { eqb = permission_beq; eqb_iff = permission_beq_iff }

-- a `datetime` without a zone, and one with it
pub data Moment : Type 0 where
  naive : ℕ → Moment
  aware : ℕ → Moment

-- `a > b`: none is the TypeError of a comparison of the two kinds
abbrev pub later : Moment → Moment → Option Bool
later (naive a) (naive b) = some (ltb b a)
later (aware a) (aware b) = some (ltb b a)
later (naive a) (aware b) = none
later (aware a) (naive b) = none

pub record AuthContext : Type 0 where
  pub user_id : String
  pub roles : List Role
  pub session_id : String
  pub issued_at : Moment
  pub expires_at : Moment
  pub jti : String
  pub email : Option String
  pub provider : Option String
  pub extra_claims : Fields

abbrev pub has_role : Role → AuthContext → Bool
has_role r c = contains c.roles r

abbrev pub has_any_role : List Role → AuthContext → Bool
has_any_role rs c = any (contains c.roles) rs

abbrev pub has_all_roles : List Role → AuthContext → Bool
has_all_roles rs c = all (contains c.roles) rs

abbrev pub is_admin : AuthContext → Bool
is_admin c = has_role admin c

abbrev pub is_worker : AuthContext → Bool
is_worker c = has_role worker c

-- `datetime.utcnow()` has no zone
abbrev pub is_expired : ℕ → AuthContext → Option Bool
is_expired now c = later (naive now) c.expires_at

value_beq : (r s : Role) → (value r == value s) ≡ (r == s)
value_beq admin admin = refl
value_beq admin user = refl
value_beq admin worker = refl
value_beq user admin = refl
value_beq user user = refl
value_beq user worker = refl
value_beq worker admin = refl
value_beq worker user = refl
value_beq worker worker = refl

named_none :
    (s : String)
    → (s == "admin") ≡ false
    → (s == "user") ≡ false
    → (s == "worker") ≡ false
    → (r : Role) → (s == value r) ≡ false
named_none s a u w admin = a
named_none s a u w user = u
named_none s a u w worker = w

of_value-cases :
    (s : String)
    → ((r : Role) × (s ≡ value r) × (of_value s ≡ some r))
      ⊎ ((of_value s ≡ none) × ((r : Role) → (s == value r) ≡ false))
unfolding of_value
of_value-cases s = elim (Bool-cases (s == "admin")) [
  | inl a ↦ inl (admin, (eq_iff s "admin").0 a, simp a)
  | inr a ↦ elim (Bool-cases (s == "user")) [
    | inl u ↦ inl (user, (eq_iff s "user").0 u, simp (a, u))
    | inr u ↦ elim (Bool-cases (s == "worker")) [
      | inl w ↦ inl (worker, (eq_iff s "worker").0 w, simp (a, u, w))
      | inr w ↦ inr (simp (a, u, w), named_none s a u w)
    ]
  ]
]

-- The roles read from a list of texts are exactly those whose text is in the list: a text that
-- names no role is dropped.
pub from_list-contains :
    (ss : List String) (r : Role) → contains (from_list ss) r ≡ contains ss (value r)
from_list-contains [] r = refl
from_list-contains (s ∷ ss) r = elim (of_value-cases s) [
  | inl (t, p, q) ↦
      let h : (t == r) ≡ (s == value r) = sym (ap (λ z. z == value r) p ∙ value_beq t r) in
      simp (q, from_list-contains ss r, from_list) (ap (λ b. b || contains ss (value r)) h)
  | inr (q, n) ↦ simp (q, n, from_list-contains ss r, from_list)
]
