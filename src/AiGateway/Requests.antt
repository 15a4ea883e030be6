-- ===== src/AiGateway/Requests.antt =====
-- The requests that the gateway takes: `AIGateway.generate`, `embed` and `transcribe`.
use customers_manager_hub.Prelude.{
  ℕ, String, Bool, true, false, Option, List, [], ◌∷◌, any, if◌then◌else◌,
}
use text.Mathlib.Text.{◌==◌ as str_eq}
use customers_manager_hub.Prelude.Result.{Result, ok, err}
use customers_manager_hub.AiModels.{AiTaskType, embedding, voice_transcription}
use customers_manager_hub.AiGateway.State.{
  AiOperation, generation, embedding_operation, transcription, AiError, Adapter, Environment, State,
  task_operation,
}
use customers_manager_hub.AiGateway.Execute.{execute}

-- What a request raises: a `ValueError` of its own, or an error of `_execute`.
pub data RequestError : Type 0 where
  task_of_another_operation blank_input empty_audio : RequestError
  execute_error : AiError → RequestError

-- The parts of the requests that the gateway itself reads.
pub record EmbeddingRequest : Type 0 where
  pub inputs : List String
  pub message_id : Option ℕ

pub record TranscriptionRequest : Type 0 where
  pub audio : List ℕ
  pub message_id : Option ℕ

abbrev pub same_operation : AiOperation → AiOperation → Bool
same_operation generation generation = true
same_operation embedding_operation embedding_operation = true
same_operation transcription transcription = true
same_operation _ _ = false

-- `AIGateway._require_operation`
abbrev pub require_operation : AiTaskType → AiOperation → Result RequestError (Unit {0})
require_operation task_type operation =
    if same_operation (task_operation task_type) operation
    then ok tt
    else err task_of_another_operation

abbrev pub from_execute : {A : Type 0} → Result AiError A → Result RequestError A
from_execute (ok a) = ok a
from_execute (err e) = err (execute_error e)

module _ {W R : Type 0} (env : Environment W R) (strip : String → String) (has_billing : Bool)
    (registry : List Adapter) where
  run : ℕ → AiTaskType → AiOperation → Option ℕ → State W → Result RequestError R × State W
  run tenant_id task_type operation message_id s =
      let (r, s') = execute env has_billing registry tenant_id task_type operation message_id s in
      (from_execute r, s')

  -- `AIGateway.generate`
  pub generate : ℕ → AiTaskType → Option ℕ → State W → Result RequestError R × State W
  unfolding run
  generate tenant_id task_type message_id s = elim (require_operation task_type generation) [
    | err e ↦ (err e, s)
    | ok _ ↦ run tenant_id task_type generation message_id s
  ]

  -- `AIGateway.embed`
  pub embed : ℕ → EmbeddingRequest → State W → Result RequestError R × State W
  unfolding run
  embed tenant_id request s = elim request.inputs [
    | [] ↦ (err blank_input, s)
    | _ ∷ _ ↦
        if any (λ item. str_eq (strip item) "") request.inputs
        then (err blank_input, s)
        else run tenant_id embedding embedding_operation request.message_id s
  ]

  -- `AIGateway.transcribe`
  pub transcribe : ℕ → TranscriptionRequest → State W → Result RequestError R × State W
  unfolding run
  transcribe tenant_id request s = elim request.audio [
    | [] ↦ (err empty_audio, s)
    | _ ∷ _ ↦ run tenant_id voice_transcription transcription request.message_id s
  ]
