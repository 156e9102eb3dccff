-- ===== src/Engine/Examples/Summaries.antt =====
-- The summarization task on a text of twenty words.
use ai_microservices.Base.{true, [], ◌∷◌, ◌≡◌, refl}
use ai_microservices.Base.Text.{strip, is_space}
use ai_microservices.Base.Text.Split.{split}
use ai_microservices.Base.Value.{Value, Fields, end, field, text}
use ai_microservices.Engine.Job.{done, JobResult}
use ai_microservices.Engine.Tasks.Summarization.{Environment, Summarized, validate_payload, execute}
use ai_microservices.Engine.Tasks.Summarization.Total.{execute_returns}

-- a service that cannot load its model
abbrev pub environment : Environment
environment = record {
  summarize = λ s max min. Summarized.summarization_error "transformers is not installed";
  mentions_transformers = λ e. true;
  sentences_in = λ s. s ∷ [];
  ratio = λ a b. 0;
  elapsed = 0;
  show = λ n. "n";
  repr = λ v. "v";
  no_strip = λ v. "no attribute 'strip'";
}

abbrev payload : Fields
payload =
    field "text" (text "a b c d e f g h i j k l m n o p q r s t")
      (field "max_sentences" Value.null end)

accepted : validate_payload environment payload ≡ done tt
unfolding validate_payload strip split is_space
accepted = refl

execute_returns_example : (r : JobResult) × (execute environment payload ≡ done r)
execute_returns_example = execute_returns environment payload accepted
