-- ===== src/Api/Ai/Payload.antt =====
-- The payload of a validated summarization request at the task that runs it.
use mathlib.Core.Option.{some-injective}
use mathlib.Core.Path.{subst}
use ai_microservices.Base.Text.Split.{split}
use ai_microservices.Base.Text.{truthy, strip}
use ai_microservices.Base.{
  ◌≡◌, true, some, ◌≤◌, String, refl, ◌↔◌, Option, none, arith, length, inl, inr, Bool-cases,
}
use ai_microservices.Base.Value.{field, end, text, int}
use ai_microservices.Base.Int.{ℤ, pos, negsuc}
use ai_microservices.Engine.Job.{done}
use ai_microservices.Engine.Tasks.Summarization.{
  Environment, validate_payload, is_positive, limit_keys,
}
use ai_microservices.Engine.Tasks.Summarization.Total.{validate_payload_iff, HasLimits}
use ai_microservices.Api.Ai.{SummarizeRequest, validate_summarize, fits_summarize, within}
use ai_microservices.Api.Ai.Submit.{summarize_payload, field_if}

-- a limit in its range is positive
within_positive : (high n : ℤ) → within (pos 1) high (some n) ≡ true → is_positive (int n) ≡ true
within_positive high (pos n) h = ground (arith, h)
within_positive high (negsuc n) h = ground (arith, h)

limits_written :
    (body : String) (high low : Option ℤ)
    → within (pos 1) (pos 1024) high ≡ true
    → within (pos 1) (pos 512) low ≡ true
    → HasLimits limit_keys (
        field "text"
          (text body)
          (field_if int "max_new_tokens" high (field_if int "min_new_tokens" low end)))
limits_written body none none h k = (refl, (refl, (refl, tt)))
limits_written body none (some m) h k = (refl, (within_positive (pos 512) m k, (refl, tt)))
limits_written body (some n) none h k = (within_positive (pos 1024) n h, (refl, (refl, tt)))
limits_written body (some n) (some m) h k =
    (within_positive (pos 1024) n h, (within_positive (pos 512) m k, (refl, tt)))

-- what the schema asks of a request
fits_of :
    (r : SummarizeRequest)
    → fits_summarize r ≡ true
    → (truthy (strip r.body) ≡ true)
      × (within (pos 1) (pos 1024) r.max_new_tokens ≡ true)
      × (within (pos 1) (pos 512) r.min_new_tokens ≡ true)
fits_of r h = (ground (arith, h), ground (arith, h), ground (arith, h))

validated_fits :
    (r r' : SummarizeRequest) → validate_summarize r ≡ some r' → fits_summarize r' ≡ true
unfolding validate_summarize
validated_fits r r' h = elim (Bool-cases (fits_summarize (record r { body = strip r.body }))) [
  | inl e ↦
      subst (λ q. fits_summarize q ≡ true) (some-injective _ _ (simp (validate_summarize, e) at h))
        e
  | inr e ↦ cc (simp (validate_summarize, e) at h)
]

-- The payload of a summarization request that its schema accepts is accepted by the task exactly if
-- the text has 20 to 50,000 words: the task refuses no other request that the schema lets through.
pub accepted_payload_iff :
    (env : Environment) (r r' : SummarizeRequest)
    → validate_summarize r ≡ some r'
    → (validate_payload env (summarize_payload r') ≡ done tt)
      ↔ ((20 ≤ length (split r'.body)) × (length (split r'.body) ≤ 50000))
accepted_payload_iff env r r' h =
    let fits' : fits_summarize r' ≡ true = validated_fits r r' h in
    let (not_blank, high, low) = fits_of r' fits' in
    (
      (λ ok.
          let p = (validate_payload_iff env (summarize_payload r')).0 ok in
          let same : p.body ≡ r'.body = cc (p.body_is) in
          subst (λ s. (20 ≤ length (split s)) × (length (split s) ≤ 50000)) same
            (p.long_enough, p.short_enough)),
      (λ words. (validate_payload_iff env (summarize_payload r')).1 (record {
        body = r'.body;
        body_is = refl;
        not_blank = not_blank;
        long_enough = words.0;
        short_enough = words.1;
        limits = limits_written r'.body r'.max_new_tokens r'.min_new_tokens high low;
      })),
    )
