-- ===== src/AgentRuntime/Decision/Allowed.antt =====
-- A model can only ask for a tool that it was offered.
use text.Mathlib.Text.{◌==◌ as str_eq}
use customers_manager_hub.Prelude.{
  ◌≡◌, ◌≢◌, String, Bool, true, Option, none, some, List, any, arith, Bool-cases, inl, inr,
}
use customers_manager_hub.Prelude.Result.{ok, err≢ok}
use customers_manager_hub.Json.{Fields, get}
use customers_manager_hub.AgentRuntime.Decision.{
  Decision, final_answer, tool_request, decision_from, structured_tool_decision, only_decision_keys,
  or_invalid, as_string, as_fields,
}

-- Whether a decision asks for nothing that was not offered.
abbrev pub is_allowed_decision : List String → Decision → Bool
is_allowed_decision names (final_answer text) = true
is_allowed_decision names (tool_request name arguments) = any (str_eq name) names

-- The name of a tool that a decision asks for is one of those that were offered.
from-allowed :
    (names : List String) (a t n : Option String) (r : Option Fields) (d : Decision)
    → decision_from names a t n r ≡ some d
    → is_allowed_decision names d ≡ true
unfolding decision_from
from-allowed names (some a) (some t) (some n) (some r) d e = ground arith
from-allowed names (some a) (some t) (some n) none d e = ground arith
from-allowed names (some a) (some t) none r d e = ground arith
from-allowed names (some a) none n r d e = ground arith
from-allowed names none t n r d e = ground arith

or_invalid_ok : (o : Option Decision) (d : Decision) → or_invalid o ≡ ok d → o ≡ some d
or_invalid_ok none d e = absurd (err≢ok e)
or_invalid_ok (some c) d e = cc

none≢some : {d : Decision} → Option.none ≢ some d
none≢some h = cc

-- A decision that `_structured_tool_decision` accepts asks for no tool that was not offered.
pub decision-allowed :
    (names : List String) (structured : Option Fields) (d : Decision)
    → structured_tool_decision names structured ≡ ok d
    → is_allowed_decision names d ≡ true
unfolding structured_tool_decision
decision-allowed names none d e = absurd (err≢ok e)
decision-allowed names (some p) d e = elim (Bool-cases (only_decision_keys p)) [
  | inr extra ↦ absurd (err≢ok (rw (extra, structured_tool_decision) at e))
  | inl keys ↦
      from-allowed names (as_string (get p "action")) (as_string (get p "text"))
        (as_string (get p "tool_name")) (as_fields (get p "arguments")) d
        (or_invalid_ok _ d (rw (keys, structured_tool_decision) at e))
]
