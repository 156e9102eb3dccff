-- ===== src/Engine/Tasks/Summarization/Total.antt =====
-- The payloads that the summarization task of ai_engine/application/tasks/summarization.py accepts, and
-- its execution on them.
use ai_microservices.Base.{
  ◌≤◌, String, true, some, List, [], ◌∷◌, length, ◌≡◌, ◌↔◌, refl, Bool-cases, Option-cases, inl,
  inr, All, false, Option, none, arith, ltb,
}
use ai_microservices.Base.Int.{pos, negsuc}
use ai_microservices.Base.Text.{truthy, strip}
use ai_microservices.Base.Text.Split.{split}
use ai_microservices.Base.Value.{Fields, get, text, Value}
use ai_microservices.Engine.Job.{failure, done, JobResult}
use ai_microservices.Engine.Tasks.Summarization.{
  validate_payload, execute, present, check_body, sentences_of, output_of, reported, joined,
  Environment, given, is_positive, fits, limit_keys, check_limits, check_text, first_sentences,
  Summarized, concluded, lightweight,
}

-- each limit is missing, None or a positive integer
abbrev pub HasLimits : List String → Fields → Type 0
HasLimits keys payload = All (λ key. fits (given key payload) ≡ true) keys

-- What the task asks of a payload.
pub record IsPayload (payload : Fields) : Type 0 where
  pub body : String
  pub body_is : get "text" payload ≡ some (text body)
  pub not_blank : truthy (strip body) ≡ true
  pub long_enough : 20 ≤ length (split body)
  pub short_enough : length (split body) ≤ 50000
  pub limits : HasLimits limit_keys payload

module _ (env : Environment) where
  check_limits_iff :
      (keys : List String) (payload : Fields)
      → (check_limits env keys payload ≡ done tt) ↔ HasLimits keys payload
  check_limits_iff [] payload = ((λ h. tt), (λ h. refl))
  check_limits_iff (key ∷ keys) payload = elim (Option-cases (given key payload)) [
    | inl e ↦ (
      (λ h. (simp e, (check_limits_iff keys payload).0 (simp (check_limits, e) at h))),
      (λ h. simp (check_limits, e) ((check_limits_iff keys payload).1 h.1)),
    )
    | inr (v, e) ↦ elim (Bool-cases (is_positive v)) [
      | inl p ↦ (
        (λ h. (simp (e, p), (check_limits_iff keys payload).0 (simp (check_limits, e, p) at h))),
        (λ h. simp (check_limits, e, p) ((check_limits_iff keys payload).1 h.1)),
      )
      | inr p ↦ ((λ h. cc (simp (check_limits, e, p) at h)), (λ h. cc (simp (e, p) at (h.0))))
    ]
  ]

  check_text_iff :
      (payload : Fields) (s : String)
      → (check_text env payload s ≡ done tt) ↔ (
          (truthy (strip s) ≡ true)
          × (ltb (length (split s)) 20 ≡ false)
          × (ltb 50000 (length (split s)) ≡ false)
          × HasLimits limit_keys payload)
  check_text_iff payload s = elim (Bool-cases (truthy (strip s))) [
    | inr e ↦ ((λ h. cc (simp (check_text, e) at h)), (λ h. let x = h.0 in cc))
    | inl e ↦ elim (Bool-cases (ltb (length (split s)) 20)) [
      | inl q ↦ ((λ h. cc (simp (check_text, e, q) at h)), (λ h. let x = h.1 in cc))
      | inr q ↦ elim (Bool-cases (ltb 50000 (length (split s)))) [
        | inl r ↦ ((λ h. cc (simp (check_text, e, q, r) at h)), (λ h. let x = h.2 in cc))
        | inr r ↦ (
          (λ h.
              (e, q, r, (check_limits_iff limit_keys payload).0 (simp (check_text, e, q, r) at h))),
          (λ h. simp (check_text, e, q, r) ((check_limits_iff limit_keys payload).1 h.3)),
        )
      ]
    ]
  ]

  check_body_text :
      (payload : Fields) (o : Option Value)
      → check_body env payload o ≡ done tt
      → (s : String) × (o ≡ some (text s)) × (check_text env payload s ≡ done tt)
  check_body_text payload (some (text s)) h = (s, refl, h)
  check_body_text payload none h = cc
  check_body_text payload (some Value.null) h = cc
  check_body_text payload (some (Value.bool b)) h = cc
  check_body_text payload (some (Value.int n)) h = cc
  check_body_text payload (some (Value.float n)) h = cc
  check_body_text payload (some (Value.date n)) h = cc
  check_body_text payload (some (Value.array vs)) h = cc
  check_body_text payload (some (Value.object fs)) h = cc

  -- A payload is accepted exactly if its text is no blank text of 20 to 50,000 words and each of its
  -- three limits is missing, None or a positive integer.
  pub validate_payload_iff :
      (payload : Fields) → (validate_payload env payload ≡ done tt) ↔ IsPayload payload
  unfolding validate_payload
  validate_payload_iff payload = (
    (λ h.
        let (s, p, q) = check_body_text payload (get "text" payload) h in
        let (a, b, c, d) = (check_text_iff payload s).0 q in
        record {
          body = s;
          body_is = p;
          not_blank = a;
          long_enough = ground (arith, b);
          short_enough = ground (arith, c);
          limits = d;
        }),
    (λ h. simp (h.body_is) (
        (check_text_iff payload h.body).1
          (h.not_blank, ground (arith, h.long_enough), ground (arith, h.short_enough), h.limits))),
  )

  -- a limit that is accepted cuts the sentences
  first_sentences-some :
      (o : Option Value) (sentences : List String)
      → fits (present o) ≡ true
      → (r : List String) × (first_sentences o sentences ≡ some r)
  first_sentences-some none sentences h = (_, refl)
  first_sentences-some (some Value.null) sentences h = (_, refl)
  first_sentences-some (some (Value.int (pos n))) sentences h = (_, refl)
  first_sentences-some (some (Value.int (negsuc n))) sentences h = (_, refl)
  first_sentences-some (some (Value.bool true)) sentences h = (_, refl)
  first_sentences-some (some (Value.bool false)) sentences h = (_, refl)
  first_sentences-some (some (Value.float n)) sentences h = cc
  first_sentences-some (some (text s)) sentences h = cc
  first_sentences-some (some (Value.date n)) sentences h = cc
  first_sentences-some (some (Value.array vs)) sentences h = cc
  first_sentences-some (some (Value.object fs)) sentences h = cc

  concluded_done :
      (s : String) (o : Option Value) (x : Summarized)
      → fits (present o) ≡ true
      → (r : JobResult) × (concluded env (text s) o x ≡ done r)
  concluded_done s o (Summarized.output out) h = (_, refl)
  concluded_done s o (Summarized.unexpected e) h = (_, refl)
  concluded_done s o (Summarized.summarization_error e) h =
      elim (Bool-cases (env.mentions_transformers e)) [
        | inr b ↦ (failure e, simp (concluded, b))
        | inl b ↦
            let (r, q) = first_sentences-some o (sentences_of env s) h in
            (reported env (output_of env s (joined r)), simp (concluded, lightweight, b, q))
      ]

  -- On a payload that is accepted, the execution returns a result, whatever the service does: it raises
  -- nothing.
  pub execute_returns :
      (payload : Fields)
      → validate_payload env payload ≡ done tt
      → (r : JobResult) × (execute env payload ≡ done r)
  unfolding execute
  execute_returns payload h =
      let p = (validate_payload_iff payload).0 h in
      let (r, q) =
        concluded_done p.body (get "max_sentences" payload)
          (env.summarize (text p.body) (given "max_new_tokens" payload)
            (given "min_new_tokens" payload))
          (p.limits.1.1.0) in
      (r, simp (execute, p.body_is) q)
