-- ===== src/Evaluate/Pipeline/Decides.antt =====
-- internal/evaluate/pipeline.go: what the deciding steps ask of the envelope, and the lemmas for the
-- steps of both kinds.
use hacp_sidecar.Common.{
  String, ◌≡◌, ◌↔◌, refl, ap, sym, ◌∙◌, Bool, true, false, not, Option, none, some, arith, str_eq,
  eq_iff,
}
use hacp_sidecar.Common.Int.{ℤ}
use hacp_sidecar.Wire.{
  Bytes, IntentEnvelope, DecisionToken, verify_ed25519, envelope_payload, token_payload,
}
use hacp_sidecar.Evaluate.Interfaces.{
  CheckpointContext, RequestContext, effective_clock, resolved, EvalError, Reason,
  signature_failure,
}
use hacp_sidecar.Evaluate.Pipeline.Checks.{
  Pipeline, Clock, Check, stop, go, ◌>>=◌, ◌>>◌, deny_if, pause_if, evaluation_time, is_expired,
  check_control_state, check_unresolved, check_key, check_envelope_signature, check_checkpoint,
  check_envelope, check_token_signature, check_decision,
}
use hacp_sidecar.Evaluate.Pipeline.Authorized.{
  Signed, InTime, ControlFresh, CheckpointClear, EnvelopeAuthorized,
}

pub iff_trans : {A B C : Type 0} → A ↔ B → B ↔ C → A ↔ C
iff_trans f g = ((λ a. g.0 (f.0 a)), (λ c. f.1 (g.1 c)))

itself : (A : Type 0) → A ↔ A
itself A = ((λ a. a), (λ a. a))

-- A sequence goes on exactly if each part does.
pub seq_iff {ℓ} :
    {B : Type ℓ} (m : Check (Unit {0})) (k : Check B) (b : B) {P Q : Type 0}
    → (m ≡ go tt) ↔ P
    → (k ≡ go b) ↔ Q
    → ((m >> k) ≡ go b) ↔ (P × Q)
seq_iff (stop d) k b f g = ((λ h. cc), (λ h. cc (f.1 h.0)))
seq_iff (go x) k b f g = ((λ h. (f.0 refl, g.0 h)), (λ h. g.1 h.1))

pub deny_if_iff : (b : Bool) (r : Reason) (e : EvalError) → (deny_if b r e ≡ go tt) ↔ (b ≡ false)
unfolding deny_if
deny_if_iff true r e = ((λ h. cc), (λ h. cc))
deny_if_iff false r e = ((λ h. refl), (λ h. refl))

pause_if_iff : (b : Bool) (r : Reason) (e : EvalError) → (pause_if b r e ≡ go tt) ↔ (b ≡ false)
unfolding pause_if
pause_if_iff true r e = ((λ h. cc), (λ h. cc))
pause_if_iff false r e = ((λ h. refl), (λ h. refl))

pub deny_unless_iff :
    (b : Bool) (r : Reason) (e : EvalError) → (deny_if (not b) r e ≡ go tt) ↔ (b ≡ true)
unfolding deny_if
deny_unless_iff true r e = ((λ h. refl), (λ h. refl))
deny_unless_iff false r e = ((λ h. cc), (λ h. cc))

pub deny_unless_eq_iff :
    (s t : String) (r : Reason) (e : EvalError) → (deny_if (not (str_eq s t)) r e ≡ go tt) ↔ (s ≡ t)
deny_unless_eq_iff s t r e = iff_trans (deny_unless_iff (str_eq s t) r e) (eq_iff s t)

is_expired_iff :
    (p : Pipeline) (expires now : ℤ) → (is_expired p expires now ≡ false) ↔ InTime p expires now
unfolding is_expired
is_expired_iff p expires now = ground arith

pub InTime-iff :
    (p : Pipeline) (expires now : ℤ) (r : Reason) (e : EvalError)
    → (deny_if (is_expired p expires now) r e ≡ go tt) ↔ InTime p expires now
InTime-iff p expires now r e =
    iff_trans (deny_if_iff (is_expired p expires now) r e) (is_expired_iff p expires now)

check_control_state_iff :
    (p : Pipeline) (req : RequestContext) (clock : Clock)
    → (check_control_state p req clock ≡ go tt)
      ↔ ControlFresh p.control_state (effective_clock req) clock
unfolding check_control_state deny_if
check_control_state_iff p req clock = ground arith

checkpoint_iff :
    (p : Pipeline) (o : Option CheckpointContext) (early now : ℤ)
    → ((check_unresolved o early ≡ go tt) × (check_checkpoint p o now ≡ go tt))
      ↔ CheckpointClear p o now
unfolding check_unresolved check_checkpoint deny_if pause_if
checkpoint_iff p none early now = ((λ h. tt), (λ h. (refl, refl)))
checkpoint_iff p (some cp) early now =
    ground (arith, eq_iff cp.resolved_by_kind "system", is_expired_iff p cp.expires_at now)

only_allow :
    (s : String) → s ≡ "ALLOW" → (str_eq s "DENY" ≡ false) × (str_eq s "CHECKPOINT" ≡ false)
only_allow s e = (rw e, rw e)

pub check_decision_iff :
    (tok : DecisionToken) → (check_decision tok ≡ go tt) ↔ (tok.decision ≡ "ALLOW")
unfolding check_decision
check_decision_iff tok =
    iff_trans
      (seq_iff _ _ tt (deny_if_iff (str_eq tok.decision "DENY") _ _) (
        seq_iff _ _ tt (pause_if_iff (str_eq tok.decision "CHECKPOINT") _ _)
          (deny_unless_eq_iff tok.decision "ALLOW" _ _)))
      ((λ h. h.1.1), (λ e. ((only_allow tok.decision e).0, ((only_allow tok.decision e).1, e))))

check_key_iff :
    (p : Pipeline) (key_id : String) (a b : EvalError) (key : Bytes)
    → (check_key p key_id a b ≡ go key)
      ↔ ((p.resolve_key key_id ≡ resolved key) × (p.revocation.is_key_revoked key_id ≡ false))
unfolding check_key deny_if
check_key_iff p key_id a b key = ground arith

go-injective {ℓ} : {A : Type ℓ} (a b : A) → go a ≡ go b → a ≡ b
go-injective a b h = cc

go_iff {ℓ} : {A : Type ℓ} (a b : A) → (go a ≡ go b) ↔ (b ≡ a)
go_iff a b = ((λ h. sym (go-injective a b h)), (λ h. cc h))

bind_iff {ℓ κ} :
    {A : Type ℓ} {B : Type κ} (m : Check A) (f : A → Check B) (b : B)
    → ((m >>= f) ≡ go b) ↔ ((a : A) × (m ≡ go a) × (f a ≡ go b))
bind_iff (stop d) f b = ((λ h. cc), (λ h. cc h.1))
bind_iff (go a) f b = ((λ h. (a, refl, h)), (λ h. ap f (go-injective _ _ h.1) ∙ h.2))

-- Steps 2 to 4, and 8 to 10, for any signer.
Signed-iff :
    (p : Pipeline) (key_id : String) (payload signature : Bytes) (a b c d : EvalError) (r : Reason)
    (revoked : Bool)
    → ((check_key p key_id a b >>= λ key.
          deny_if (not (verify_ed25519 p.crypto key payload signature)) signature_failure c
          >> deny_if revoked r d)
        ≡ go tt)
      ↔ (Signed p key_id payload signature × (revoked ≡ false))
Signed-iff p key_id payload signature a b c d r revoked = (
  (λ h.
      let (key, k, rest) = (bind_iff _ _ tt).0 h in
      let (known, unrevoked) = (check_key_iff p key_id a b key).0 k in
      let (verified, live) = (checked key).0 rest in
      (record { key = key; known = known; unrevoked = unrevoked; verified = verified }, live)),
  (λ (s, live). (bind_iff _ _ tt).1 (
    s.key,
    (check_key_iff p key_id a b s.key).1 (s.known, s.unrevoked),
    (checked s.key).1 (s.verified, live),
  )),
)
  where
    checked :
        (key : Bytes)
        → ((deny_if (not (verify_ed25519 p.crypto key payload signature)) signature_failure c
              >> deny_if revoked r d)
            ≡ go tt)
          ↔ ((verify_ed25519 p.crypto key payload signature ≡ true) × (revoked ≡ false))
    checked key = seq_iff _ _ tt (deny_unless_iff _ _ _) (deny_if_iff revoked r d)

check_envelope_signature_iff :
    (p : Pipeline) (env : IntentEnvelope)
    → (check_envelope_signature p env ≡ go tt) ↔ (
        Signed p env.signer_key_id (envelope_payload env) env.signature
        × (p.revocation.is_envelope_revoked env.envelope_id ≡ false))
unfolding check_envelope_signature
check_envelope_signature_iff p env =
    Signed-iff p env.signer_key_id (envelope_payload env) env.signature _ _ _ _ _ _

pub check_token_signature_iff :
    (p : Pipeline) (tok : DecisionToken)
    → (check_token_signature p tok ≡ go tt) ↔ (
        Signed p tok.signer_key_id (token_payload tok) tok.signature
        × (p.revocation.is_token_revoked tok.token_id ≡ false))
unfolding check_token_signature
check_token_signature_iff p tok =
    Signed-iff p tok.signer_key_id (token_payload tok) tok.signature _ _ _ _ _ _

-- Steps 1 to 6 go on exactly for an authorized envelope, and then with the evaluation time.
pub check_envelope_iff :
    (p : Pipeline) (env : IntentEnvelope) (req : RequestContext) (clock : Clock) (now : ℤ)
    → (check_envelope p env req clock ≡ go now)
      ↔ (EnvelopeAuthorized p env req clock × (now ≡ evaluation_time req clock))
unfolding check_envelope
check_envelope_iff p env req clock now =
    iff_trans
      (seq_iff _ _ now (check_control_state_iff p req clock) (
        seq_iff _ _ now (itself _) (
          seq_iff _ _ now (check_envelope_signature_iff p env) (
            seq_iff _ _ now (InTime-iff p env.expires_at (evaluation_time req clock) _ _)
              (seq_iff _ _ now (itself _) (go_iff (evaluation_time req clock) now))))))
      (
        (λ (fresh, (early, ((signed, unrevoked), (in_time, (late, e))))). (
          record {
            fresh = fresh;
            signed = signed;
            unrevoked = unrevoked;
            in_time = in_time;
            clear = (settled).0 (early, late);
          },
          e,
        )),
        (λ (a, e). (
          a.fresh,
          (
            (settled.1 a.clear).0,
            ((a.signed, a.unrevoked), (a.in_time, ((settled.1 a.clear).1, e))),
          ),
        )),
      )
  where
    settled :
        ((check_unresolved req.checkpoint (effective_clock req) ≡ go tt)
          × (check_checkpoint p req.checkpoint (evaluation_time req clock) ≡ go tt))
        ↔ CheckpointClear p req.checkpoint (evaluation_time req clock)
    settled = checkpoint_iff p req.checkpoint (effective_clock req) (evaluation_time req clock)
