-- ===== src/Conformance/Quiet.antt =====
-- cmd/hacp-conformance-runner/main.go: only an evaluation answers ALLOW.
use hacp_sidecar.Common.{
  String, ◌≡◌, ◌≢◌, refl, ap, ◌∙◌, Bool, true, false, not, ◌||◌, Option, none, some, List, [],
  str_eq, if◌then◌else◌,
}
use hacp_sidecar.Common.Time.{Time}
use hacp_sidecar.Common.Strings.{ne_of_eq-false}
use hacp_sidecar.Revocation.{InMemoryRevocationStore, revoke_key, revoke_token, revoke_envelope}
use hacp_sidecar.Wire.Canonical.{Json}
use hacp_sidecar.Conformance.Protocol.{
  Request, Response, error_response, input_parse, missing_target, unknown_target_kind,
  unknown_operation, unsupported_protocol_version, protocol_version, Message, response,
}
use hacp_sidecar.Conformance.Runner.{Runner}
use hacp_sidecar.Conformance.Handling.{
  World, Reading, Handled, member_string, revoke_target, handle_revoke, handle_explain,
  handle_evaluate, handle_prepared, handled, revoked, revoke_input,
}
use hacp_sidecar.Conformance.Authority.{response_injective}

-- A response that does not allow, if there is one.
abbrev Quiet : Handled → Type 0
Quiet h = (y : Response) → h.response ≡ some y → y.decision ≢ "ALLOW"

if-Quiet : (b : Bool) (g h : Handled) → Quiet g → Quiet h → Quiet (if b then g else h)
if-Quiet true g h p q = p
if-Quiet false g h p q = q

handled-Quiet : (r : Runner) (z : Response) → z.decision ≢ "ALLOW" → Quiet (handled r z)
handled-Quiet r z h y e allow = h (ap (λ w. w.decision) (response_injective z y e) ∙ allow)

error-Quiet : (r : Runner) (m : Message) → Quiet (handled r (error_response m))
unfolding error_response
error-Quiet r m = handled-Quiet r (error_response m) (ne_of_eq-false "ERROR" "ALLOW" refl)

revoked-Quiet : (r : Runner) (s : InMemoryRevocationStore) → Quiet (revoked r s)
revoked-Quiet r s =
    handled-Quiet (record r { revocation = s }) (response "OK" [])
      (ne_of_eq-false "OK" "ALLOW" refl)

revoke_target-Quiet :
    (r : Runner) (target_id target_kind : String) (now : Time)
    → Quiet (revoke_target r target_id target_kind now)
unfolding revoke_target
revoke_target-Quiet r id kind now =
    if-Quiet (str_eq id "" || str_eq kind "") (handled r (error_response missing_target)) _
      (error-Quiet r missing_target)
      (if-Quiet (str_eq kind "token") (revoked r (revoke_token r.revocation id now)) _
        (revoked-Quiet r (revoke_token r.revocation id now))
        (if-Quiet (str_eq kind "envelope") (revoked r (revoke_envelope r.revocation id now)) _
          (revoked-Quiet r (revoke_envelope r.revocation id now))
          (if-Quiet (str_eq kind "key") (revoked r (revoke_key r.revocation id now))
            (handled r (error_response (unknown_target_kind kind)))
            (revoked-Quiet r (revoke_key r.revocation id now))
            (error-Quiet r (unknown_target_kind kind)))))

revoke_input-Quiet :
    (r : Runner) (now : Time) (o : Option (List (String × Json))) → Quiet (revoke_input r now o)
revoke_input-Quiet r now none = error-Quiet r input_parse
revoke_input-Quiet r now (some input) =
    revoke_target-Quiet r (member_string "target_id" input) (member_string "target_kind" input) now

handle_explain-Quiet : (r : Runner) → Quiet (handled r handle_explain)
unfolding handle_explain
handle_explain-Quiet r = handled-Quiet r handle_explain (ne_of_eq-false "OK" "ALLOW" refl)

-- A condition of which one branch is quiet.
else-Quiet :
    (b : Bool) (g h : Handled) (y : Response)
    → Quiet h
    → (if b then g else h).response ≡ some y
    → y.decision ≡ "ALLOW"
    → g.response ≡ some y
else-Quiet true g h y q e allow = e
else-Quiet false g h y q e allow = absurd (q y e allow)

then-Quiet :
    (b : Bool) (g h : Handled) (y : Response)
    → Quiet g
    → (if b then g else h).response ≡ some y
    → y.decision ≡ "ALLOW"
    → h.response ≡ some y
then-Quiet true g h y q e allow = absurd (q y e allow)
then-Quiet false g h y q e allow = e

-- Only an evaluation answers ALLOW.
pub handle_prepared-allow :
    (x : World) (r : Runner) (req : Request) (now : Reading) (y : Response)
    → (handle_prepared x r req now).response ≡ some y
    → y.decision ≡ "ALLOW"
    → (handle_evaluate x r req now).response ≡ some y
unfolding handle_prepared handle_revoke
handle_prepared-allow x r req now y h allow =
    let unknown : Handled = handled r (error_response (unknown_operation req.operation)) in
    let explained : Handled =
      if str_eq req.operation "explain" then handled r handle_explain else unknown in
    let revoking : Handled =
      if str_eq req.operation "revoke" then handle_revoke x r req now.timestamp else explained in
    else-Quiet (str_eq req.operation "evaluate") (handle_evaluate x r req now) revoking y
      (if-Quiet (str_eq req.operation "revoke") (handle_revoke x r req now.timestamp) explained
        (revoke_input-Quiet r now.timestamp (x.decoder.members req.input))
        (if-Quiet (str_eq req.operation "explain") (handled r handle_explain) unknown
          (handle_explain-Quiet r) (error-Quiet r _)))
      (then-Quiet (not (str_eq req.protocol_version protocol_version))
        (handled r (error_response (unsupported_protocol_version req.protocol_version)))
        (if str_eq req.operation "evaluate" then handle_evaluate x r req now else revoking) y
        (error-Quiet r _) h allow)
      allow
