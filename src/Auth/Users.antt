-- ===== src/Auth/Users.antt =====
-- services/auth_service/src/domain/entities/user.py and the store of users in
-- infrastructure/persistence/in_memory_user_repository.py; `create` and `record_login` are in Login.
-- `str.lower` is the argument `lower`, and passlib the arguments `hash` and `verify`.
use mathlib.Core.List.Memᴰ.{tail}
use mathlib.Core.List.Memᴰ.{head, tail}
use mathlib.Core.List.{Memᴰ}
use ai_microservices.Base.Dict.{values, Dict, lookup, insert, lookup-insert}
use ai_microservices.Base.Text.{truthy}
use ai_microservices.Base.{
  String, ◌≡◌, Bool, true, false, not, ◌&&◌, ◌||◌, Option, none, some, List, ◌++◌, if◌then◌else◌,
  filter, ◌==◌, nat_eq, string_eq, pair_eq, contains, ℕ, refl, inl, inr, [], ◌∷◌, arith, eq_iff,
  Bool-cases, ==_refl, sym, ap, ◌∙◌,
}

pub record User : Type 0 where
  pub id : String
  pub provider : String
  pub provider_user_id : String
  pub email : String
  pub display_name : String
  pub roles : List String
  pub active : Bool
  pub created_at : ℕ
  pub last_login_at : Option ℕ
  pub avatar_url : Option String
  pub username : Option String
  pub password_hash : Option String

abbrev pub has_role : String → User → Bool
has_role role user = contains user.roles role

unfoldable pub add_role : String → User → User
add_role role user =
    if contains user.roles role then user else record user { roles = user.roles ++ (role ∷ []) }

unfoldable pub remove_role : String → User → User
remove_role role user = record user { roles = filter (λ r. not (r == role)) user.roles }

abbrev pub deactivate : User → User
deactivate user = record user { active = false }

abbrev pub is_valid : User → Bool
is_valid user = truthy user.id && truthy user.provider && truthy user.email && user.active

unfoldable set_password : (String → String) → String → User → User
set_password hash raw_password user = record user { password_hash = some (hash raw_password) }

-- none where `verify` raises, as it does for a text that is no hash
abbrev checked_against : (String → String → Option Bool) → String → Option String → Option Bool
checked_against verify raw_password none = some false
checked_against verify raw_password (some password_hash) =
    if not (truthy password_hash) then some false else verify raw_password password_hash

unfoldable check_password : (String → String → Option Bool) → String → User → Option Bool
check_password verify raw_password user = checked_against verify raw_password user.password_hash

pub record UserStore : Type 0 where
  pub by_id : Dict String User
  pub by_provider : Dict (String × String) String
  pub by_username : Dict String String

abbrev pub find_by_id : String → UserStore → Option User
find_by_id user_id store = lookup user_id store.by_id

-- `self._by_id.get(user_id) if user_id else None`
abbrev user_at : Option String → UserStore → Option User
user_at none store = none
user_at (some user_id) store = if truthy user_id then find_by_id user_id store else none

unfoldable pub find_by_provider : String → String → UserStore → Option User
find_by_provider provider provider_user_id store =
    user_at (lookup (provider, provider_user_id) store.by_provider) store

unfoldable pub find_by_username : (String → String) → String → UserStore → Option User
find_by_username lower username store = user_at (lookup (lower username) store.by_username) store

-- the first user, in the order of the ids' first insertion, that has the email in any case
abbrev first_with : (String → String) → String → List User → Option User
first_with lower email [] = none
first_with lower email (user ∷ users) =
    let rest = first_with lower email users in
    if lower user.email == lower email then some user else rest

unfoldable find_by_email : (String → String) → String → UserStore → Option User
find_by_email lower email store = first_with lower email (values store.by_id)

abbrev list_all : UserStore → List User
list_all store = values store.by_id

-- `if user.username: self._by_username[user.username.lower()] = user.id`
abbrev with_username :
    (String → String) → Option String → String → Dict String String → Dict String String
with_username lower none user_id d = d
with_username lower (some username) user_id d =
    if truthy username then insert (lower username) user_id d else d

unfoldable pub save : (String → String) → User → UserStore → UserStore
save lower user store = record {
  by_id = insert user.id user store.by_id;
  by_provider = insert (user.provider, user.provider_user_id) user.id store.by_provider;
  by_username = with_username lower user.username user.id store.by_username;
}

-- `update_roles`: none where it raises `UserNotFoundError`
unfoldable pub update_roles : String → List String → UserStore → Option UserStore
update_roles user_id roles store = elim (find_by_id user_id store) [
  | none ↦ none
  | some user ↦
      some (record store { by_id = insert user_id (record user { roles = roles }) store.by_id })
]

contains-append :
    (r : String) (xs ys : List String) → contains (xs ++ ys) r ≡ (contains xs r || contains ys r)
contains-append r [] ys = refl
contains-append r (x ∷ xs) ys = ground (arith, contains-append r xs ys)

contains-filter_ne :
    (r s : String) (xs : List String)
    → contains (filter (λ x. not (x == s)) xs) r ≡ (not (s == r) && contains xs r)
contains-filter_ne r s [] = ground arith
contains-filter_ne r s (x ∷ xs) =
    ground (arith, contains-filter_ne r s xs, eq_iff x s, eq_iff s r, eq_iff x r)

-- After a role is added the user holds that role and those held before, and no other.
pub has_role-add_role :
    (r s : String) (user : User) → has_role r (add_role s user) ≡ (s == r || has_role r user)
unfolding add_role
has_role-add_role r s user = elim (Bool-cases (contains user.roles s)) [
  | inl e ↦ grind (arith, eq_iff s r, e)
  | inr e ↦ simp e (ground (arith, contains-append r user.roles (s ∷ [])))
]

-- After a role is removed the user holds the other roles held before, and no other, however often
-- the role was listed.
pub has_role-remove_role :
    (r s : String) (user : User)
    → has_role r (remove_role s user) ≡ (not (s == r) && has_role r user)
unfolding remove_role
has_role-remove_role r s user = contains-filter_ne r s user.roles

-- A user that is saved under a non-empty id is found by id and by provider.
pub save_found :
    (lower : String → String) (user : User) (store : UserStore)
    → truthy user.id ≡ true
    → (find_by_id user.id (save lower user store) ≡ some user)
      × (find_by_provider user.provider user.provider_user_id (save lower user store) ≡ some user)
unfolding save find_by_provider
save_found lower user store h = (simp (lookup-insert, ==_refl), simp (lookup-insert, ==_refl, h))

first_with-some :
    (lower : String → String) (email : String) (users : List User) (user : User)
    → first_with lower email users ≡ some user
    → Memᴰ user users × (lower user.email ≡ lower email)
first_with-some lower email [] user h = cc
first_with-some lower email (u ∷ users) user h = elim (Bool-cases (lower u.email == lower email)) [
  | inl e ↦
      let same : u ≡ user = cc (simp (first_with, e) at h) in
      (
        head (sym same),
        ap (λ z. lower z.email) (sym same) ∙ (eq_iff (lower u.email) (lower email)).0 e,
      )
  | inr e ↦
      let (m, p) = first_with-some lower email users user (simp (first_with, e) at h) in (tail m, p)
]

-- A user that is found by an email is one of those listed, and has that email up to case.
find_by_email_listed :
    (lower : String → String) (email : String) (store : UserStore) (user : User)
    → find_by_email lower email store ≡ some user
    → Memᴰ user (list_all store) × (lower user.email ≡ lower email)
unfolding find_by_email
find_by_email_listed lower email store user h =
    first_with-some lower email (values store.by_id) user h

-- Where the library's hash is no empty text, a password that was set is checked as the library
-- verifies it against its hash.
check_password-set_password :
    (hash : String → String) (verify : String → String → Option Bool) (raw other : String)
    (user : User)
    → truthy (hash raw) ≡ true
    → check_password verify other (set_password hash raw user) ≡ verify other (hash raw)
unfolding check_password set_password
check_password-set_password hash verify raw other user h = simp h
