-- ===== src/Engine/Tasks/Sentiment/Threshold.antt =====
-- The label of a text, and what becomes of a payload with a threshold.
use ai_microservices.Base.{
  String, ◌≡◌, ◌↔◌, inl, inr, true, Option, some, ltb, Option-cases, refl, sym, ap, ◌∙◌, false,
  arith, Bool-cases, nat_eq, string_eq, ◌==◌, pair_eq,
}
use ai_microservices.Base.Value.{Value, Fields, get}
use ai_microservices.Api.Status.Diagram.{Status}
use ai_microservices.Engine.Job.{JobType}
use ai_microservices.Engine.Orchestrator.{Task}
use ai_microservices.Engine.Orchestrator.Verdict.{verdict, attempted, judged, Attempt-cases}
use ai_microservices.Engine.Tasks.Summarization.{given}
use ai_microservices.Engine.Tasks.Sentiment.{
  Environment, analyze, hits, positive_words, negative_words, execute, validate_payload, sentiment,
}

unlike : (u : String) {s t : String} → s ≡ t → (s == u) ≡ true → (t == u) ≡ false → ⊥
unlike u e p q = cc (sym p ∙ ap (λ w. w == u) e ∙ q)

module _ (env : Environment) where
  -- A text is positive if more of the positive words than of the negative words are among its words,
  -- negative if fewer are, and neutral if as many are.
  pub analyze_label :
      (s : String)
      → (((analyze env s).label ≡ "positive")
          ↔ (ltb (hits env negative_words s) (hits env positive_words s) ≡ true))
        × (((analyze env s).label ≡ "negative")
            ↔ (ltb (hits env positive_words s) (hits env negative_words s) ≡ true))
        × (((analyze env s).is_neutral ≡ true)
            ↔ (hits env positive_words s ≡ hits env negative_words s))
  unfolding analyze
  analyze_label s =
      elim (Bool-cases (ltb (hits env negative_words s) (hits env positive_words s))) [
        | inl a ↦
            let l : (analyze env s).label ≡ "positive" = simp (analyze, a) in
            let k : (analyze env s).is_neutral ≡ false = simp (analyze, a) in
            (
              ((λ h. a), (λ h. l)),
              (
                (λ h. absurd (unlike "positive" (sym l ∙ h) refl refl)),
                (λ h. absurd (ground (arith, a, h))),
              ),
              ((λ h. cc (sym k ∙ h)), (λ h. absurd (ground (arith, a, h)))),
            )
        | inr a ↦ elim (Bool-cases (ltb (hits env positive_words s) (hits env negative_words s))) [
          | inl b ↦
              let l : (analyze env s).label ≡ "negative" = simp (analyze, a, b) in
              let k : (analyze env s).is_neutral ≡ false = simp (analyze, a, b) in
              (
                (
                  (λ h. absurd (unlike "positive" (sym h ∙ l) refl refl)),
                  (λ h. absurd (ground (arith, a, h))),
                ),
                ((λ h. b), (λ h. l)),
                ((λ h. cc (sym k ∙ h)), (λ h. absurd (ground (arith, b, h)))),
              )
          | inr b ↦
              let l : (analyze env s).label ≡ "neutral" = simp (analyze, a, b) in
              let k : (analyze env s).is_neutral ≡ true = simp (analyze, a, b) in
              (
                (
                  (λ h. absurd (unlike "positive" (sym h ∙ l) refl refl)),
                  (λ h. absurd (ground (arith, a, h))),
                ),
                (
                  (λ h. absurd (unlike "negative" (sym h ∙ l) refl refl)),
                  (λ h. absurd (ground (arith, b, h))),
                ),
                ((λ h. ground (arith, a, b)), (λ h. k)),
              )
        ]
      ]

  executed_fails :
      (registry : JobType → Option Task) (payload : Fields) (v : Value)
      → given "neutral_threshold" payload ≡ some v
      → (judged registry (execute env payload)).0 ≡ Status.failed
  unfolding execute
  executed_fails registry payload v h = elim (Option-cases (get "text" payload)) [
    | inl e ↦ simp (execute, e)
    | inr (t, e) ↦ simp (execute, e, h)
  ]

  -- As the container builds the task, a job for sentiment analysis whose payload gives a threshold
  -- fails, whatever the text and the threshold.
  pub threshold_fails :
      (registry : JobType → Option Task) (payload : Fields) (v : Value)
      → registry JobType.sentiment_analysis ≡ some (sentiment env)
      → given "neutral_threshold" payload ≡ some v
      → (verdict registry JobType.sentiment_analysis payload).0 ≡ Status.failed
  threshold_fails registry payload v known h = elim (Attempt-cases (validate_payload env payload)) [
    | inl (e, p) ↦ simp (verdict, known, attempted, p)
    | inr (u, p) ↦ simp (verdict, known, attempted, p) (executed_fails registry payload v h)
  ]
