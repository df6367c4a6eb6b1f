-- ===== src/Conformance/Persistence.antt =====
-- cmd/hacp-conformance-runner/main.go: a revocation outlasts its vector.
use hacp_sidecar.Common.{
  String, ◌≡◌, ◌≢◌, sym, ap, ◌∙◌, subst, Bool, true, false, Option, none, some, List, [], ◌∷◌,
  arith,
}
use hacp_sidecar.Common.Time.{Time}
use hacp_sidecar.Revocation.{InMemoryRevocationStore}
use hacp_sidecar.Revocation.Laws
use hacp_sidecar.Revocation.Laws.{
  Class, key, token, envelope, same_class, revoke, is_revoked-revoke,
}
use hacp_sidecar.Wire.{Bytes, DecisionToken, IntentEnvelope}
use hacp_sidecar.Budget.{Ledger}
use hacp_sidecar.Evaluate.Interfaces.{RequestContext}
use hacp_sidecar.Wire.Parsing.{Codec, parsed, parse_decision_token}
use hacp_sidecar.Wire.Canonical.{Json}
use hacp_sidecar.Evaluate.Pipeline.Checks.{Pipeline, Clock, new_pipeline}
use hacp_sidecar.Conformance.Protocol.{
  Decoder, Request, InputData, Response, error_response, is_json_null,
}
use hacp_sidecar.Conformance.Runner.{Runner, pipeline_of, prepare_vector_state}
use hacp_sidecar.Conformance.Handling.{
  World, Reading, member_string, revoke_target, handle_revoke, handle_prepared, handle_request,
  revoke_input,
}
use hacp_sidecar.Conformance.Isolation.{
  Exchange, run, handle_evaluate-Spends, prepare_vector_state-revocation,
}
use hacp_sidecar.Conformance.Quiet.{handle_prepared-allow}
use hacp_sidecar.Conformance.Reads.{TokenFrom}
use hacp_sidecar.Conformance.Authority.{Granted, handle_evaluate-Granted}

abbrev RevokedIn : Runner → Class → String → Type 0
RevokedIn r c j = Laws.is_revoked r.revocation c j ≡ true

true_ne_false : ◌≢◌ {A = Bool} true false
true_ne_false h = cc h

-- What is revoked stays revoked under another revocation.
revoke-RevokedIn :
    (s : InMemoryRevocationStore) (c d : Class) (id j : String) (now : Time)
    → Laws.is_revoked s d j ≡ true
    → Laws.is_revoked (revoke s c id now) d j ≡ true
revoke-RevokedIn s c d id j now h = let e = is_revoked-revoke s c d id j now in ground (arith, e, h)

revoke_target-RevokedIn :
    (r : Runner) (target_id target_kind : String) (now : Time) (d : Class) (j : String)
    → RevokedIn r d j
    → RevokedIn (revoke_target r target_id target_kind now).runner d j
unfolding revoke_target revoke
revoke_target-RevokedIn r target_id target_kind now d j h =
    let t = revoke-RevokedIn r.revocation token d target_id j now h in
    let e = revoke-RevokedIn r.revocation envelope d target_id j now h in
    let k = revoke-RevokedIn r.revocation key d target_id j now h in ground (arith, h, t, e, k)

revoke_input-RevokedIn :
    (r : Runner) (now : Time) (o : Option (List (String × Json))) (d : Class) (j : String)
    → RevokedIn r d j
    → RevokedIn (revoke_input r now o).runner d j
unfolding error_response
revoke_input-RevokedIn r now none d j h = h
revoke_input-RevokedIn r now (some input) d j h =
    revoke_target-RevokedIn r (member_string "target_id" input) (member_string "target_kind" input)
      now d j h

handle_revoke-RevokedIn :
    (x : World) (r : Runner) (req : Request) (now : Time) (d : Class) (j : String)
    → RevokedIn r d j
    → RevokedIn (handle_revoke x r req now).runner d j
unfolding handle_revoke
handle_revoke-RevokedIn x r req now d j h =
    revoke_input-RevokedIn r now (x.decoder.members req.input) d j h

handle_prepared-RevokedIn :
    (x : World) (r : Runner) (req : Request) (now : Reading) (d : Class) (j : String)
    → RevokedIn r d j
    → RevokedIn (handle_prepared x r req now).runner d j
unfolding handle_prepared
handle_prepared-RevokedIn x r req now d j h =
    let e = ap (λ s. Laws.is_revoked s d j) (handle_evaluate-Spends x r req now).revocation in
    let k = handle_revoke-RevokedIn x r req now.timestamp d j h in ground (arith, h, e, k)

run-RevokedIn :
    (x : World) (r : Runner) (es : List Exchange) (d : Class) (j : String)
    → RevokedIn r d j
    → RevokedIn (run x r es).0 d j
unfolding run handle_request
run-RevokedIn x r [] d j h = h
run-RevokedIn x r (e ∷ es) d j h =
    let prepared = prepare_vector_state r e.request.vector_id in
    run-RevokedIn x (handle_prepared x prepared e.request e.now).runner es d j (
      handle_prepared-RevokedIn x prepared e.request e.now d j (
        subst (λ s. Laws.is_revoked s d j ≡ true)
          (sym (prepare_vector_state-revocation r e.request.vector_id)) h))

input_injective : (a b : InputData) → some a ≡ some b → a ≡ b
input_injective a b h = cc h

token_injective : (a b : DecisionToken) → parsed a ≡ parsed b → a ≡ b
token_injective a b h = cc h

-- The pipeline grants nothing to a revoked token.
revoked_token-refused :
    (p : Pipeline) (ledger : Ledger) (env : IntentEnvelope) (o : Option DecisionToken)
    (req : RequestContext) (clock : Clock) (d : Decoder) (codec : Codec) (raw : Bytes)
    (tok : DecisionToken)
    → TokenFrom d codec raw o
    → is_json_null d raw ≡ false
    → parse_decision_token codec raw ≡ parsed tok
    → p.revocation.is_token_revoked tok.token_id ≡ true
    → ¬ Granted p ledger env o req clock
revoked_token-refused p ledger env none req clock d codec raw tok absent given parses h g =
    true_ne_false (sym absent ∙ given)
revoked_token-refused p ledger env (some t) req clock d codec raw tok from given parses h
      (_, g, _) =
    let this = token_injective t tok (sym from ∙ parses) in
    true_ne_false
      (sym h ∙ subst (λ k. p.revocation.is_token_revoked k.token_id ≡ false) this g.unrevoked)

-- A revocation is never taken back, by a new vector either: once a token is revoked, after any requests no
-- request whose token has that id is answered ALLOW.
pub run-never_allows :
    (x : World) (r : Runner) (es : List Exchange) (req : Request) (now : Reading) (y : Response)
    (input : InputData) (tok : DecisionToken)
    → Laws.is_revoked r.revocation token tok.token_id ≡ true
    → x.decoder.input_data req.input ≡ some input
    → is_json_null x.decoder input.decision_token ≡ false
    → parse_decision_token x.codec input.decision_token ≡ parsed tok
    → (handle_request x (run x r es).0 req now).response ≡ some y
    → y.decision ≢ "ALLOW"
unfolding handle_request pipeline_of new_pipeline Laws.is_revoked
run-never_allows x r es req now y input tok taken_back decoded given parses h allow =
    let prepared = prepare_vector_state (run x r es).0 req.vector_id in
    let (i, a, d, (read, _, granted)) =
      handle_evaluate-Granted x prepared req now y
        (handle_prepared-allow x prepared req now y h allow) allow in
    let same : i ≡ input = input_injective i input (sym d ∙ decoded) in
    let from : TokenFrom x.decoder x.codec input.decision_token a.token =
      subst (λ i. TokenFrom x.decoder x.codec i.decision_token a.token) same read.token_parsed in
    let still : Laws.is_revoked prepared.revocation token tok.token_id ≡ true =
      subst (λ s. Laws.is_revoked s token tok.token_id ≡ true)
        (sym (prepare_vector_state-revocation (run x r es).0 req.vector_id))
        (run-RevokedIn x r es token tok.token_id taken_back) in
    revoked_token-refused (pipeline_of x.library x.crypto x.canonicalize_json prepared)
      prepared.budget_ledger a.envelope a.token a.context now.clock x.decoder x.codec
      input.decision_token tok from given parses still granted
