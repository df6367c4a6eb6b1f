-- ===== src/Conformance/Answers.antt =====
-- cmd/hacp-conformance-runner/main.go: the runner answers each line.
use hacp_sidecar.Common.{
  ℕ, ◌+◌, ◌≡◌, ◌↔◌, leb, refl, true, false, Bool, String, ◌||◌, ◌≢◌, Option, none, some, List, [],
  ◌∷◌, length, arith, if◌then◌else◌, str_eq, not,
}
use hacp_sidecar.Provenance.{noop_writer}
use hacp_sidecar.Evaluate.Interfaces.{RequestContext, panicked}
use hacp_sidecar.Common.Time.{Time}
use hacp_sidecar.Wire.{IntentEnvelope, DecisionToken}
use hacp_sidecar.Wire.Canonical.{Json}
use hacp_sidecar.Evaluate.Pipeline.Returns.{Returns, evaluate-Returns}
use hacp_sidecar.Evaluate.Pipeline.{Evaluated, returned, panic}
use hacp_sidecar.Conformance.Protocol.{
  Request, InputData, Response, Step, reply, next, protocol_version,
}
use hacp_sidecar.Conformance.Runner.{Runner, pipeline_of, prepare_vector_state}
use hacp_sidecar.Conformance.Inputs.{Arguments}
use hacp_sidecar.Conformance.Handling.{
  World, Reading, Handled, evaluated, evaluate_read, read_input, handle_evaluate, handle_revoke,
  revoke_target, revoke_input, handle_prepared, handle_request,
}
use hacp_sidecar.Conformance.Serving.{Line, answered, answer, is_blank, serve}

abbrev Responds : Handled → Type 0
Responds h = (y : Response) × (h.response ≡ some y)

if-Responds : (b : Bool) (g h : Handled) → Responds g → Responds h → Responds (if b then g else h)
if-Responds true g h p q = p
if-Responds false g h p q = q

evaluated-Responds :
    (x : World) (r : Runner) (input : InputData) (a : Arguments) (now : Reading)
    (e : Evaluated (Unit {0}))
    → Returns e
    → Responds (evaluated x r input a.token now e)
evaluated-Responds x r input a now (panic s) h = absurd h
evaluated-Responds x r input a now (returned d s) h = (_, refl)

noop_writer_calm :
    (log : Unit {0}) (env : IntentEnvelope) (tok : Option DecisionToken) (req : RequestContext)
    → noop_writer.accept log env tok req ≢ panicked
unfolding noop_writer
noop_writer_calm log env tok req h = cc h

evaluate_read-Responds :
    (x : World) (r : Runner) (now : Reading) (s : Step (InputData × Arguments))
    → Responds (evaluate_read x r now s)
evaluate_read-Responds x r now (reply y) = (y, refl)
evaluate_read-Responds x r now (next (input, a)) = evaluated-Responds x r input a now _ (
    evaluate-Returns noop_writer (pipeline_of x.library x.crypto x.canonicalize_json r)
      noop_writer_calm (record { ledger = r.budget_ledger; provenance = tt }) a.envelope a.token
      a.context now.clock)

revoke_target-Responds :
    (r : Runner) (target_id target_kind : String) (now : Time)
    → Responds (revoke_target r target_id target_kind now)
unfolding revoke_target
revoke_target-Responds r id kind now =
    if-Responds (str_eq id "" || str_eq kind "") _ _ (_, refl)
      (if-Responds (str_eq kind "token") _ _ (_, refl)
        (if-Responds (str_eq kind "envelope") _ _ (_, refl)
          (if-Responds (str_eq kind "key") _ _ (_, refl) (_, refl))))

revoke_input-Responds :
    (r : Runner) (now : Time) (o : Option (List (String × Json))) → Responds (revoke_input r now o)
revoke_input-Responds r now none = (_, refl)
revoke_input-Responds r now (some input) = revoke_target-Responds r _ _ now

handle_prepared-Responds :
    (x : World) (r : Runner) (req : Request) (now : Reading)
    → Responds (handle_prepared x r req now)
unfolding handle_prepared handle_evaluate handle_revoke
handle_prepared-Responds x r req now =
    if-Responds (not (str_eq req.protocol_version protocol_version)) _ _ (_, refl)
      (if-Responds (str_eq req.operation "evaluate") _ _
        (evaluate_read-Responds x r now (read_input x req now))
        (if-Responds (str_eq req.operation "revoke") _ _
          (revoke_input-Responds r now.timestamp (x.decoder.members req.input))
          (if-Responds (str_eq req.operation "explain") _ _ (_, refl) (_, refl))))

answer-Responds : (x : World) (r : Runner) (line : Line) → Responds (answer x r line)
unfolding answer handle_request
answer-Responds x r line = go (x.decoder.request line.bytes)
  where
    go : (o : Option Request) → Responds (answered x r line.now o)
    go none = (_, refl)
    go (some req) = handle_prepared-Responds x (prepare_vector_state r req.vector_id) req line.now

abbrev pub AllWritable : List Line → Type 0
AllWritable [] = Unit {0}
AllWritable (line ∷ lines) = (line.writable ≡ true) × AllWritable lines

-- How many lines are not blank.
unfoldable pub asked_lines : World → List Line → ℕ
asked_lines x [] = 0
asked_lines x (line ∷ lines) = (if is_blank x line then 0 else 1) + asked_lines x lines

-- The lines before the first that is too long.
unfoldable pub scanned : World → List Line → List Line
scanned x [] = []
scanned x (line ∷ lines) =
    let rest = scanned x lines in if leb 16777216 (length line.bytes) then [] else line ∷ rest

-- While its responses can be written, the runner answers every line that is not blank exactly once, up to the
-- first line of 16 MiB or more, if there is one, at which the scanner stops with an error. No request
-- stops the runner, whatever the lines before are and whatever the vectors have spent or revoked.
pub serve-answers :
    (x : World) (r : Runner) (lines : List Line)
    → AllWritable lines
    → ((serve x r lines).crashed ≡ false)
      × (length (serve x r lines).written ≡ asked_lines x (scanned x lines))
      × (((serve x r lines).too_long ≡ false) ↔ (scanned x lines ≡ lines))
unfolding serve asked_lines scanned
serve-answers x r [] w = (refl, refl, (λ h. refl, λ h. refl))
serve-answers x r (line ∷ lines) (w, ws) =
    let (y, e) = answer-Responds x r line in
    ground
      (arith, w, e, serve-answers x r lines ws, serve-answers x (answer x r line).runner lines ws)
