-- ===== src/Tests/Decisions.antt =====
-- Evaluations by internal/evaluate/pipeline.go with a signed envelope and a decision token. The library's functions are stand-ins: every signature of the right size
-- verifies, a digest is the text "digest", and JSON is its own canonical form.
use hacp_sidecar.Common.{
  ℕ, zero, suc, ◌+◌, ◌≤◌, String, ◌≡◌, refl, true, false, none, some, List, [], ◌∷◌, arith, str_eq,
}
use hacp_sidecar.Common.Int.{pos, add_int64}
use hacp_sidecar.Common.Strings.{lookup}
use hacp_sidecar.Wire.{Bytes, IntentEnvelope, DecisionToken, Crypto, verify_ed25519, sha256_hex}
use hacp_sidecar.Budget.{consume_token, consume_autonomy, count, token_count}
use hacp_sidecar.Evaluate.Interfaces.{
  RequestContext, resolved, RevocationStore, ScopeGuard, ProvenanceWriter, accepted, unspecified,
  effective_clock, human_required,
}
use hacp_sidecar.Evaluate.Pipeline.Checks.{Pipeline, Clock, evaluation_time}
use hacp_sidecar.Evaluate.Pipeline.Authorized.{EnvelopeAuthorized, TokenAuthorized}
use hacp_sidecar.Evaluate.Pipeline.{State, evaluate, max_uses}
use hacp_sidecar.Evaluate.Pipeline.Authorization.{
  allows, evaluate-allows_token, evaluate-allows-Autonomous,
}
use hacp_sidecar.Evaluate.Pipeline.Replay.{Attempt, TokenLimits, allowed_uses, allowed_uses-le}

abbrev pub zeros : ℕ → Bytes
zeros zero = []
zeros (suc n) = 0 ∷ zeros n

abbrev pub crypto : Crypto
crypto = record {
  ed25519_verify = λ key message signature. true;
  sha256 = λ bytes. bytes;
  hex_encode = λ bytes. "digest";
}

abbrev revocations : RevocationStore
revocations = record {
  is_key_revoked = λ id. str_eq id "old";
  is_envelope_revoked = λ id. str_eq id "old";
  is_token_revoked = λ id. str_eq id "old";
}

-- A guard that lets every action pass.
abbrev guard : ScopeGuard
guard = record {
  match_request_constraints = λ constraints req. true;
  check_boundary = λ scope req. (true, unspecified);
}

abbrev pub pipeline : Pipeline
pipeline = record {
  resolve_key = λ id. resolved (zeros 32);
  revocation = revocations;
  scope_guard = guard;
  control_state = none;
  crypto = crypto;
  canonicalize_json = λ bytes. some bytes;
  max_clock_skew_seconds = pos 5;
  max_revocation_staleness_ms = pos 5000;
}

abbrev pub writer : ProvenanceWriter (List String)
writer = record { accept = λ log env tok req. accepted (req.request_id ∷ log) }

abbrev pub env : IntentEnvelope
env = record {
  hacp_version = "1.0";
  envelope_id = "e1";
  principal = "agent";
  principal_kind = "system";
  intent_statement = "read";
  scope = none;
  issued_at = pos 0;
  expires_at = pos 100;
  signer_key_id = "k1";
  signature = zeros 64;
  autonomy_budget = some record { max_actions = pos 2; max_risk_class = "" };
  raw_json = 123 ∷ 125 ∷ [];
  canonical_json = 123 ∷ 125 ∷ [];
}

abbrev pub tok : DecisionToken
tok = record {
  hacp_version = "1.0";
  token_id = "t1";
  envelope_id = "e1";
  action_hash = "digest";
  policy_digest = "";
  principal = "agent";
  signer_key_id = "k1";
  issued_at = pos 0;
  expires_at = pos 100;
  decision = "ALLOW";
  constraints = none;
  signature = zeros 64;
  raw_json = 123 ∷ 125 ∷ [];
  canonical_json = 123 ∷ 125 ∷ [];
}

abbrev pub req : RequestContext
req = record {
  method = "GET";
  path = 47 ∷ [];
  tool_name = "";
  payload_hash = "";
  timestamp = 0;
  request_id = "r1";
  latency_ns = pos 0;
  clock = pos 50;
  proposed_action = 123 ∷ 125 ∷ [];
  policy = none;
  checkpoint = none;
}

abbrev pub clock : Clock
clock = record { control_now = 9; unix_now = pos 9 }

abbrev pub state : State (List String)
state = record { ledger = record { token_consumed = []; autonomy_consumed = [] }; provenance = [] }

env_authorized : EnvelopeAuthorized pipeline env req clock
unfolding verify_ed25519 evaluation_time effective_clock add_int64
env_authorized = record {
  fresh = tt;
  signed = record { key = zeros 32; known = refl; unrevoked = refl; verified = refl };
  unrevoked = refl;
  in_time = omega arith;
  clear = tt;
}

tok_authorized : TokenAuthorized pipeline env tok req (evaluation_time req clock)
unfolding verify_ed25519 evaluation_time effective_clock add_int64 sha256_hex
tok_authorized = record {
  signed = record { key = zeros 32; known = refl; unrevoked = refl; verified = refl };
  unrevoked = refl;
  in_time = omega arith;
  bound = refl;
  allows = refl;
  proposed = λ h. ground arith;
  canonical = 123 ∷ 125 ∷ [];
  canonicalized = refl;
  hashed = refl;
  matched = refl;
  inside = refl;
}

pub token_left : (consume_token state.ledger "t1" (max_uses tok)).1 ≡ true
unfolding consume_token max_uses count lookup
token_left = refl

autonomy_left : (consume_autonomy state.ledger "e1" (pos 2)).1 ≡ true
unfolding consume_autonomy count lookup
autonomy_left = refl

no_human : human_required req ≡ false
unfolding human_required
no_human = refl

evaluate-allows_token_example :
    allows (evaluate writer pipeline state (some env) (some tok) (some req) clock) ≡ true
evaluate-allows_token_example =
    (evaluate-allows_token writer pipeline state env tok req clock).1
      (env_authorized, tok_authorized, token_left, ("r1" ∷ [], refl))

evaluate-allows-Autonomous_example :
    allows (evaluate writer pipeline state (some env) none (some req) clock) ≡ true
evaluate-allows-Autonomous_example =
    (evaluate-allows-Autonomous writer pipeline state env req clock).1 (
      env_authorized,
      no_human,
      refl,
      (record { max_actions = pos 2; max_risk_class = "" }, refl, omega arith, refl, autonomy_left),
      ("r1" ∷ [], refl),
    )

-- The token is presented three times, and once no token.
abbrev attempts : List Attempt
attempts =
    record { envelope = some env; token = some tok; request = some req; clock = clock }
    ∷ record { envelope = some env; token = some tok; request = some req; clock = clock }
    ∷ record { envelope = some env; token = none; request = some req; clock = clock }
    ∷ record { envelope = none; token = some tok; request = some req; clock = clock }
    ∷ []

attempts_limited : TokenLimits "t1" (pos 1) attempts
unfolding max_uses
attempts_limited = ((λ _. omega arith), ((λ _. omega arith), (tt, ((λ _. omega arith), tt))))

unspent : token_count state.ledger "t1" ≤ 1
unfolding token_count count lookup
unspent = omega arith

allowed_uses-le_example :
    allowed_uses writer pipeline "t1" state attempts + token_count state.ledger "t1" ≤ 1
allowed_uses-le_example =
    allowed_uses-le writer pipeline "t1" 1 state attempts attempts_limited unspent
