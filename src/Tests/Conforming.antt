-- ===== src/Tests/Conforming.antt =====
-- Requests to the conformance runner. The bytes of a request are one byte, which says what it is.
use hacp_sidecar.Common.{
  length, ◌+◌, ◌≤◌, String, ◌≡◌, ◌↔◌, ◌≢◌, refl, true, false, none, some, List, [], ◌∷◌, arith,
  str_eq,
}
use hacp_sidecar.Common.Int.{pos, add_int64}
use hacp_sidecar.Common.Strings.{lookup, contains, ne_of_eq-false}
use hacp_sidecar.Revocation
use hacp_sidecar.Revocation.Laws
use hacp_sidecar.Revocation.Laws.{token}
use hacp_sidecar.Budget.{token_count, consume_token, count}
use hacp_sidecar.Wire.{Bytes, ScopeGrant, DecisionToken, verify_ed25519, sha256_hex}
use hacp_sidecar.Wire.Canonical.{text}
use hacp_sidecar.Wire.Parsing.{parsed, parse_decision_token}
use hacp_sidecar.Evaluate.ScopeGuard.{ProposedActionAttributes}
use hacp_sidecar.Evaluate.Pipeline
use hacp_sidecar.Evaluate.Pipeline.{max_uses}
use hacp_sidecar.Evaluate.Pipeline.Checks
use hacp_sidecar.Evaluate.Interfaces.{token_revoked, effective_clock, allow_decision, deny_decision}
use hacp_sidecar.Evaluate.ScopeGuard.{
  check_boundary, match_request_constraints, parse_proposed_action_attributes, scope_violation,
  first_violation, checks, quantity_violation, destination_violation, tool_violation,
}
use hacp_sidecar.Scope.Matrix.{evaluate_boundary_crossing}
use hacp_sidecar.Conformance.Protocol.{
  or_reply, Request, InputData, Decoder, Response, reason, is_json_null,
}
use hacp_sidecar.Conformance.Runner.{Runner}
use hacp_sidecar.Conformance.Inputs.{Arguments}
use hacp_sidecar.Conformance.Handling.{World, Reading, read_input, handle_evaluate, handle_request}
use hacp_sidecar.Conformance.Serving.{Line, serve}
use hacp_sidecar.Conformance.Authority.{Context, handle_evaluate-Granted}
use hacp_sidecar.Conformance.Isolation.{Exchange, run, run-isolated}
use hacp_sidecar.Conformance.Persistence.{run-never_allows}
use hacp_sidecar.Conformance.Answers.{asked_lines, scanned, serve-answers}
use hacp_sidecar.Conformance.Spending.{presented}
use hacp_sidecar.Conformance.Uses.{OfVector, allowed_in, allowed_in-le}
use hacp_sidecar.Tests.Decisions.{zeros, crypto, clock}
use hacp_sidecar.Tests.Parsing.{envelope_json, codec, canonical_bytes}

abbrev grant : ScopeGrant
grant = record {
  verbs = "read" ∷ [];
  resource_classes = "internal" ∷ [];
  audiences = "internal" ∷ [];
  reversibility = "reversible" ∷ [];
  externality = "internal" ∷ [];
  data_classes = "public" ∷ [];
  max_quantity = none;
  destinations = [];
  tool_names = [];
}

abbrev attributes_read : ProposedActionAttributes
attributes_read = record {
  verb = "read";
  resource_class = "internal";
  audience = "internal";
  reversibility = "reversible";
  externality = "internal";
  data_class = "public";
  quantity = none;
  destination = none;
  tool_name = none;
}

abbrev input : InputData
input = record {
  intent_envelope = 1 ∷ [];
  proposed_action = 1 ∷ [];
  decision_token = 1 ∷ [];
  policy_context = [];
  checkpoint = [];
  provenance_event = [];
  http_request = [];
}

abbrev request : String → String → Request
request operation vector_id = record {
  protocol_version = "1";
  operation = operation;
  vector_id = vector_id;
  input = 1 ∷ [];
}

abbrev decoder : Decoder
decoder = record {
  request = λ bytes. some (request "evaluate" "v1");
  input_data = λ bytes. some input;
  envelope_preflight = λ bytes. some (record { principal_kind = "system"; issued_at = pos 1 });
  action_preflight = λ bytes. some (record { verb = "read"; proposed_at = pos 0 });
  policy_preflight = λ bytes. none;
  policy_context = λ bytes. none;
  checkpoint = λ bytes. none;
  http_request = λ bytes. none;
  event_id = λ bytes. none;
  members = λ bytes. some (("target_id", text "t1") ∷ ("target_kind", text "token") ∷ []);
  trim_space = λ bytes. bytes;
}

abbrev pub world : World
world = record {
  decoder = decoder;
  codec = record codec {
    unmarshal_envelope = λ bytes. some record envelope_json { scope = some grant };
  };
  library = record {
    equal_fold = λ a b. str_eq a b;
    unmarshal_attributes = λ bytes. some attributes_read;
  };
  crypto = crypto;
  canonicalize_json = λ bytes. some bytes;
}

abbrev runner : Runner
runner = record {
  revocation = record {
    revoked_keys = [];
    revoked_envelopes = [];
    revoked_tokens = [];
    last_updated = 0;
  };
  key_resolver = record { keys = ("k1", zeros 32) ∷ [] };
  budget_ledger = record { token_consumed = []; autonomy_consumed = [] };
  current_vector_id = "v0";
}

abbrev now : Reading
now = record { timestamp = 3; clock = clock; latency_ns = pos 8 }

abbrev allowed : Response
allowed = record {
  protocol_version = "1";
  decision = "ALLOW";
  reason_codes = [];
  action_hash = "digest";
  provenance_id = "";
  latency_ns = some (pos 8);
  error_message = none;
  explanation = none;
}

allows : (handle_evaluate world runner (request "evaluate" "v1") now).response ≡ some allowed
unfolding handle_evaluate or_reply Checks.check_envelope Checks.check_control_state
    Checks.check_unresolved Checks.check_envelope_signature Checks.check_key Checks.deny_if
    Revocation.is_key_revoked verify_ed25519 Revocation.is_envelope_revoked
    Revocation.is_token_revoked Checks.is_expired Checks.evaluation_time effective_clock
    Checks.check_checkpoint Checks.check_token Checks.check_token_signature Checks.check_decision
    Checks.pause_if Checks.check_action_hash Pipeline.accept_provenance sha256_hex add_int64
    consume_token count lookup allow_decision deny_decision contains check_boundary
    match_request_constraints parse_proposed_action_attributes scope_violation first_violation
    evaluate_boundary_crossing checks quantity_violation destination_violation tool_violation
allows = refl

handle_evaluate-Granted_example :
    (i : InputData) × (a : Arguments) × (some input ≡ some i) × Context world runner "v1" now i a
handle_evaluate-Granted_example =
    handle_evaluate-Granted world runner (request "evaluate" "v1") now allowed allows refl

abbrev exchange : String → String → Exchange
exchange operation vector_id = record { request = request operation vector_id; now = now }

-- The other vector spends the same token twice.
abbrev other_vector : List Exchange
other_vector = exchange "evaluate" "v2" ∷ exchange "evaluate" "v2" ∷ []

run-isolated_example :
    (run world
      (run world runner other_vector).0
      (exchange "evaluate" "v1" ∷ exchange "evaluate" "v1" ∷ [])).1
    ≡ (run world runner (exchange "evaluate" "v1" ∷ exchange "evaluate" "v1" ∷ [])).1
run-isolated_example =
    run-isolated world runner other_vector (exchange "evaluate" "v1")
      (exchange "evaluate" "v1" ∷ []) (ne_of_eq-false "v1" "" refl) (ne_of_eq-false "v0" "v1" refl)
      (ne_of_eq-false "v2" "v1" refl, refl, (ne_of_eq-false "v2" "v1" refl, refl, tt))

abbrev revoked_runner : Runner
revoked_runner = record runner {
  revocation = record {
    revoked_keys = [];
    revoked_envelopes = [];
    revoked_tokens = "t1" ∷ [];
    last_updated = 0;
  };
}

abbrev denied : Response
denied = record allowed { decision = "DENY"; reason_codes = reason token_revoked ∷ [] }

denies :
    (handle_request world (run world revoked_runner []).0 (request "evaluate" "v1") now).response
    ≡ some denied
unfolding handle_request run or_reply Checks.check_envelope Checks.check_control_state
    Checks.check_unresolved Checks.check_envelope_signature Checks.check_key Checks.deny_if
    Revocation.is_key_revoked verify_ed25519 Revocation.is_envelope_revoked
    Revocation.is_token_revoked Checks.is_expired Checks.evaluation_time effective_clock
    Checks.check_checkpoint Checks.check_token Checks.check_token_signature add_int64 lookup
    deny_decision contains
denies = refl

token_revoked_there : Laws.is_revoked revoked_runner.revocation token "t1" ≡ true
unfolding Laws.is_revoked contains
token_revoked_there = refl

token_given : is_json_null decoder input.decision_token ≡ false
unfolding is_json_null
token_given = refl

abbrev parsed_token : DecisionToken
parsed_token = record {
  hacp_version = "0.9";
  token_id = "t1";
  envelope_id = "e1";
  action_hash = "digest";
  policy_digest = "p";
  principal = "agent";
  signer_key_id = "k1";
  issued_at = pos 1;
  expires_at = pos 100;
  decision = "ALLOW";
  constraints = none;
  signature = zeros 64;
  raw_json = canonical_bytes;
  canonical_json = canonical_bytes;
}

parses : parse_decision_token world.codec input.decision_token ≡ parsed parsed_token
unfolding parse_decision_token
parses = refl

run-never_allows_example : ◌≢◌ {A = String} "DENY" "ALLOW"
run-never_allows_example =
    run-never_allows world revoked_runner [] (request "evaluate" "v1") now denied input parsed_token
      token_revoked_there refl token_given parses denies

abbrev line : Bytes → Line
line bytes = record { bytes = bytes; now = now; writable = true }

-- Three lines, of which one is blank.
abbrev lines : List Line
lines = line (1 ∷ []) ∷ line [] ∷ line (1 ∷ []) ∷ []

serve-answers_example :
    ((serve world runner lines).crashed ≡ false)
    × (length (serve world runner lines).written ≡ asked_lines world (scanned world lines))
    × (((serve world runner lines).too_long ≡ false) ↔ (scanned world lines ≡ lines))
serve-answers_example = serve-answers world runner lines (refl, (refl, (refl, tt)))

two_lines : asked_lines world lines ≡ 2
unfolding asked_lines
two_lines = refl

presents : OfVector world "v0" "t1" 1 (exchange "evaluate" "v0" ∷ exchange "evaluate" "v0" ∷ [])
unfolding presented read_input or_reply max_uses
presents = (refl, (λ _. omega arith), (refl, (λ _. omega arith), tt))

nothing_spent : token_count runner.budget_ledger "t1" ≤ 1
unfolding token_count count lookup
nothing_spent = omega arith

allowed_in-le_example :
    allowed_in "t1" world runner (exchange "evaluate" "v0" ∷ exchange "evaluate" "v0" ∷ [])
      + token_count runner.budget_ledger "t1"
    ≤ 1
allowed_in-le_example =
    allowed_in-le world "t1" "v0" 1 runner
      (exchange "evaluate" "v0" ∷ exchange "evaluate" "v0" ∷ []) refl presents nothing_spent
