-- ===== src/Api/UseCases/Commit.antt =====
-- The end of a use case that writes: the job is saved, the event is published, the DTO is made.
use ai_microservices.Base.{
  String, ◌≡◌, refl, ◌⊎◌, inl, inr, some, if◌then◌else◌, ◌==◌, nat_eq, string_eq, pair_eq, arith,
  ◌∙◌, eq_iff, Bool-cases,
}
use ai_microservices.Api.Result.{Error, Result, ok, err, repository_error}
use ai_microservices.Api.Effects.{Exec, ◌>>=◌, ◌>>◌, lift}
use ai_microservices.Api.Repository.{IsLawful, TouchesOne}
use ai_microservices.Api.Job.{Job}
use ai_microservices.Api.UseCases.{Service, World, persist, assign, publish, Event}

pub Result-cases :
    {A : Type 0} (r : Result A) → ((a : A) × (r ≡ ok a)) ⊎ ((e : Error) × (r ≡ err e))
Result-cases (ok a) = inl (a, refl)
Result-cases (err e) = inr (e, refl)

module _ (S : Service) (L : IsLawful S.repository) where
  open S use {repository.{find_by_id, save}}

  abbrev pub Keeps : {A : Type 0} → Exec (World S) A → Type 0
  Keeps m = (w : World S) → (m w).1.store ≡ w.store

  -- Publishing and building the DTO keep the store.
  pub publish-Keeps : {A : Type 0} (e : Event) (r : Result A) → Keeps (publish S e >> lift r)
  unfolding publish
  publish-Keeps e r w = ground arith

  -- After a saved job, whatever follows that keeps the store.
  pub persist_ok :
      {A : Type 0} (j : Job) (k : Job → Exec (World S) A) (w : World S) {a : A}
      → ((x : Job) → Keeps (k x))
      → ((persist S j >>= k) w).0 ≡ ok a
      → (i : String)
      → find_by_id i ((persist S j >>= k) w).1.store
        ≡ (if j.id == i then ok (some j) else find_by_id i w.store)
  unfolding persist
  persist_ok j k w keeps h i = elim (Result-cases (save j w.store).0) [
    | inr (e, p) ↦ cc
    | inl (x, p) ↦
        rw (p, ◌>>=◌)
          (rw (keeps x (record w { store = (save j w.store).1 })) (L.find-save j x i w.store p))
  ]

  -- A save that fails leaves the store alone, and nothing follows.
  pub persist_err :
      {A : Type 0} (j : Job) (k : Job → Exec (World S) A) (w : World S) {e : Error}
      → (save j w.store).0 ≡ err e
      → (persist S j >>= k) w ≡ (err repository_error, w)
  unfolding persist
  persist_err j k w {e} p = rw (p, ◌>>=◌) (ground (arith, L.save_error j e w.store p))

module _ (S : Service) (L : IsLawful S.repository) (T : TouchesOne S.repository) where
  open S use {repository.{find_by_id, save}}

  -- The same after assignments to the job that is saved.
  pub commit_ok :
      {A : Type 0} (j : Job) (k : Job → Exec (World S) A) (w : World S) {a : A}
      → ((x : Job) → Keeps S L (k x))
      → ((assign S j >> (persist S j >>= k)) w).0 ≡ ok a
      → (i : String)
      → find_by_id i ((assign S j >> (persist S j >>= k)) w).1.store
        ≡ (if j.id == i then ok (some j) else find_by_id i w.store)
  unfolding assign
  commit_ok j k w keeps h i =
      persist_ok S L j k (record w { store = S.repository.touch j w.store }) keeps h i
      ∙ elim (Bool-cases (j.id == i)) [
        | inl e ↦ simp e
        | inr e ↦ simp e (T j i w.store (λ q. cc (e, (eq_iff j.id i).1 q)))
      ]
