-- ===== src/Handoff/Tests.antt =====
-- The operations on handoffs and their theorems at concrete inputs.
use customers_manager_hub.Prelude.{
  ℕ, ◌≡◌, ◌≢◌, ◌≤◌, ◌⊎◌, refl, true, false, none, some, [], ◌∷◌, arith, count, find, any,
}
use customers_manager_hub.Prelude.Result.{ok, err}
use customers_manager_hub.Prelude.Table.{update_row, has_key, HasKeys}
use customers_manager_hub.Prelude.Text.{truncate}
use customers_manager_hub.AgentModels.{AgentRun, pending, paused}
use customers_manager_hub.Models.{Conversation, open_status}
use customers_manager_hub.HandoffModels.{from_human, ConversationHandoff}
use customers_manager_hub.Handoff.{
  HandoffDb, already_claimed, not_owner, request_race, active_handoff, is_active_in, insert_handoff,
  conversation_of, is_conversation_ai_paused,
}
use customers_manager_hub.Handoff.WellFormed.{IsWellFormed}
use customers_manager_hub.Handoff.Steps.{request-IsWellFormed}
use customers_manager_hub.Handoff.Request.{
  HandoffRequest, new_handoff, commit_request, request_attempts, request_handoff,
}
use customers_manager_hub.Handoff.Escalation.{guard_ai_dispatch}
use customers_manager_hub.Handoff.Claim.{
  claim_handoff, release_handoff, resolve_handoff, resume, claimed_by, with_claim,
}
use customers_manager_hub.Handoff.Kept.{claim-IsGood}
use customers_manager_hub.Handoff.Reachable.{
  Surroundings, resolves, HandoffSteps, done, then_step, requests, claims, one_active_handoff,
}
use customers_manager_hub.Handoff.Ownership.{claim_exclusive, release-claim, resolve_closes}
use customers_manager_hub.Handoff.Pausing.{request_pauses, request_no_race, guard_pauses}

abbrev run : AgentRun
run = record {
  id = 11;
  tenant_id = 7;
  conversation_id = 3;
  agent_id = 8;
  prompt_version_id = 9;
  channel_account_id = 6;
  inbound_message_id = 20;
  outbound_message_id = none;
  status = pending;
  generated_text = some "draft";
  error_code = none;
  lease_token = some 5;
  lease_until = some 900;
}

abbrev conversation : Conversation
conversation = record {
  id = 3;
  tenant_id = 7;
  contact_id = 2;
  status = open_status;
  subject = none;
  last_message_at = none;
}

abbrev db : HandoffDb
db = record {
  conversations = conversation ∷ [];
  messages = [];
  events = [];
  agent_runs = run ∷ [];
  handoffs = [];
  policies = [];
  audit_events = [];
}

abbrev ids : ℕ → ℕ
ids n = 40

abbrev alone : ℕ → HandoffDb → HandoffDb
alone n d = d

abbrev request : HandoffRequest
request = record {
  tenant_id = 7;
  conversation_id = 3;
  request_source = from_human;
  reason_code = "asked";
  reason_text = none;
  requested_by_user_id = some 1;
  source_agent_run_id = none;
  source_tool_execution_id = none;
}

abbrev asked : ConversationHandoff
unfolding truncate
asked = new_handoff 40 request

-- The tables after the request, after the claim of operator 1, and after each of the ends.
abbrev waiting : HandoffDb
unfolding request_handoff
waiting = (request_handoff ids alone request db).1

db-IsWellFormed : IsWellFormed db.handoffs
unfolding count
db-IsWellFormed = record { keys = λ i. omega arith; one_active = λ c. omega arith }

request_run : (request_handoff ids alone request db).0 ≡ ok asked
unfolding asked request_handoff request_attempts commit_request insert_handoff find any
request_run = refl

request_pauses_example : active_handoff waiting 7 3 ≡ some asked
unfolding waiting
request_pauses_example =
    request_pauses ids alone (λ n d good. good) request db asked db-IsWellFormed request_run

request_no_race_example : (request_handoff ids alone request db).0 ≢ err request_race
request_no_race_example = request_no_race ids alone request db

-- A step alone in the database, which draws one id.
abbrev drawing : ℕ → Surroundings
drawing id = record { uuid4 = λ n. id; others = alone; keeps = λ n d good. good }

waiting_one : HandoffSteps (λ s. s) (λ s. s) db waiting
unfolding waiting
waiting_one = then_step db db waiting (done db) (requests (drawing 40) request db)

waiting-IsWellFormed : IsWellFormed waiting.handoffs
unfolding waiting request_handoff
waiting-IsWellFormed =
    request-IsWellFormed ids alone (λ n d good. good) request 2 0 db db-IsWellFormed

abbrev taken : ConversationHandoff
unfolding asked
taken = claimed_by 1 60 asked

abbrev mine : HandoffDb
unfolding waiting asked
mine = with_claim 7 3 1 60 asked waiting

claim_run : claim_handoff 7 3 1 60 waiting ≡ ok (taken, mine)
unfolding mine taken waiting asked claim_handoff request_handoff request_attempts commit_request
    insert_handoff find any update_row
claim_run = refl

claim_exclusive_example :
    (claim_handoff 7 3 2 61 mine ≡ err already_claimed)
    × (release_handoff 7 3 2 false mine ≡ err not_owner)
    × (resolve_handoff 7 3 2 61 false true false mine ≡ err not_owner)
claim_exclusive_example =
    claim_exclusive 7 3 1 2 60 61 true false waiting mine taken waiting-IsWellFormed
      (λ h. absurd (omega arith)) claim_run

found_waiting : active_handoff waiting 7 3 ≡ some asked
unfolding waiting
found_waiting =
    request_pauses ids alone (λ n d good. good) request db asked db-IsWellFormed request_run

there : conversation_of waiting 7 3 ≡ some conversation
unfolding waiting request_handoff request_attempts commit_request insert_handoff find any
there = refl

mine-IsWellFormed : IsWellFormed mine.handoffs
mine-IsWellFormed = claim-IsGood 7 3 1 60 waiting mine taken claim_run waiting-IsWellFormed

abbrev let_go : HandoffDb
unfolding release_handoff mine
let_go = elim (release_handoff 7 3 1 false mine) [ ok r ↦ r.1 | err _ ↦ mine ]

release_run : release_handoff 7 3 1 false mine ≡ ok (asked, let_go)
unfolding let_go mine taken waiting asked release_handoff claim_handoff request_handoff
    request_attempts commit_request insert_handoff find any update_row
release_run = refl

release-claim_example :
    (is_conversation_ai_paused let_go 7 3 ≡ true)
    × (after : HandoffDb) × (claim_handoff 7 3 2 70 let_go ≡ ok (claimed_by 2 70 asked, after))
release-claim_example =
    release-claim 7 3 1 2 70 false mine let_go asked mine-IsWellFormed release_run

abbrev finished : HandoffDb
unfolding resolve_handoff mine
finished = elim (resolve_handoff 7 3 1 80 false false false mine) [ ok r ↦ r.1 | err _ ↦ mine ]

resolve_run :
    resolve_handoff 7 3 1 80 false false false mine
    ≡ ok (record { handoff_id = 40; event_id_to_resume = none }, finished)
unfolding finished mine taken waiting asked resolve_handoff resume claim_handoff request_handoff
    request_attempts commit_request insert_handoff find any update_row
resolve_run = refl

resolve_closes_example : is_conversation_ai_paused finished 7 3 ≡ false
resolve_closes_example =
    resolve_closes 7 3 1 80 false false false mine finished
      (record { handoff_id = 40; event_id_to_resume = none }) mine-IsWellFormed resolve_run

abbrev guarded : HandoffDb
unfolding guard_ai_dispatch waiting
guarded = elim (guard_ai_dispatch 7 3 11 5 waiting) [ ok r ↦ r.1 | err _ ↦ waiting ]

guard_run : guard_ai_dispatch 7 3 11 5 waiting ≡ ok (false, guarded)
unfolding guarded waiting asked guard_ai_dispatch request_handoff request_attempts commit_request
    insert_handoff find any update_row
guard_run = refl

run_keys : HasKeys (λ r. r.id) waiting.agent_runs
unfolding waiting request_handoff request_attempts commit_request insert_handoff find any count
run_keys i = ground arith

guard_pauses_example :
    ((false ≡ true) × (is_conversation_ai_paused waiting 7 3 ≡ false) × (guarded ≡ waiting))
    ⊎ ((false ≡ false)
        × (is_conversation_ai_paused waiting 7 3 ≡ true)
        × (y : AgentRun) × (find (has_key (λ r. r.id) 11) guarded.agent_runs ≡ some y)
        × (y.status ≡ paused)
        × (y.generated_text ≡ none)
        × (y.lease_token ≡ none))
guard_pauses_example = guard_pauses 7 3 11 5 waiting guarded false run_keys guard_run

claimed_one : HandoffSteps (λ s. s) (λ s. s) db mine
claimed_one = then_step db waiting mine waiting_one (claims 7 3 1 60 waiting mine taken claim_run)

-- The conversation is closed and another handoff, with an id of its own, is requested.
abbrev again : HandoffDb
unfolding finished
again = (request_handoff (λ n. 41) alone request finished).1

second_active : is_conversation_ai_paused again 7 3 ≡ true
unfolding again finished mine taken waiting asked resolve_handoff resume claim_handoff
    request_handoff request_attempts commit_request insert_handoff find any update_row
second_active = refl

asked_again : HandoffSteps (λ s. s) (λ s. s) db again
unfolding again
asked_again =
    then_step db finished again
      (then_step db mine finished claimed_one (
        resolves 7 3 1 80 false false false mine finished
          (record { handoff_id = 40; event_id_to_resume = none }) resolve_run))
      (requests (drawing 41) request finished)

one_active_handoff_example : count (is_active_in 3) again.handoffs ≤ 1
one_active_handoff_example =
    one_active_handoff (λ s. s) (λ s. s) db again 3 asked_again db-IsWellFormed
