-- ===== src/Conformance/Parts.antt =====
-- cmd/hacp-conformance-runner/main.go: the parts of a request context that `handleEvaluate` reads.
use hacp_sidecar.Common.{
  ◌≡◌, inl, inr, refl, sym, ap, ◌∙◌, subst, Bool, true, false, not, Option, none, some, arith,
  if◌then◌else◌, Bool-cases, Option-cases,
}
use hacp_sidecar.Wire.{Bytes}
use hacp_sidecar.Evaluate.Interfaces.{CheckpointContext, PolicyContext}
use hacp_sidecar.Conformance.Protocol.{
  InputData, HttpRequestJson, PolicyContextJson, CheckpointJson, Decoder, is_json_null, is_given,
  Step, next, or_reply,
}
use hacp_sidecar.Conformance.Inputs.{
  zero_policy, policy_of, read_policy, checkpoint_raw, checkpoint_of, read_checkpoint,
  default_http_request, read_http_request,
}
use hacp_sidecar.Conformance.Steps.{bind_next, next_injective, or_reply_next}
use hacp_sidecar.Conformance.Contexts.{
  or_else-FirstGiven, PolicyFrom, without_policy, with_policy, checkpoint_of-Describes,
  CheckpointFrom, explicit, in_policy, absent, HttpFrom, without_request, with_request,
}

given-is_json_null : (d : Decoder) (raw : Bytes) → is_given d raw ≡ not (is_json_null d raw)
unfolding is_json_null
given-is_json_null d raw = ground arith

module _ {ℓ} {A : Type ℓ} (m n : Step A) (a : A) where
  if_true : (b : Bool) → b ≡ true → (if b then m else n) ≡ next a → m ≡ next a
  if_true b e h = subst (λ c. (if c then m else n) ≡ next a) e h

  if_false : (b : Bool) → b ≡ false → (if b then m else n) ≡ next a → n ≡ next a
  if_false b e h = subst (λ c. (if c then m else n) ≡ next a) e h

pub read_policy-PolicyFrom :
    (d : Decoder) (raw : Bytes) (policy : PolicyContext)
    → read_policy d raw ≡ next policy
    → PolicyFrom d raw policy
unfolding read_policy
read_policy-PolicyFrom d raw policy h = elim (Bool-cases (is_json_null d raw)) [
  | inl null ↦
      subst (λ q. PolicyFrom d raw q)
        (next_injective zero_policy policy
          (if_false _ _ policy (is_given d raw) (given-is_json_null d raw ∙ ap not null) h))
        (without_policy null)
  | inr given ↦
      let (j, decoded, made) =
        bind_next (or_reply (d.policy_context raw) _) _ policy
          (if_true _ _ policy (is_given d raw) (given-is_json_null d raw ∙ ap not given) h) in
      subst (λ q. PolicyFrom d raw q) (next_injective (policy_of j) policy made)
        (with_policy j given (or_reply_next (d.policy_context raw) _ j decoded))
]

pub read_http_request-HttpFrom :
    (d : Decoder) (raw : Bytes) (r : HttpRequestJson)
    → read_http_request d raw ≡ next r
    → HttpFrom d raw r
unfolding read_http_request
read_http_request-HttpFrom d raw r h = elim (Bool-cases (is_json_null d raw)) [
  | inl null ↦
      subst (λ q. HttpFrom d raw q)
        (next_injective default_http_request r (if_true _ _ r (is_json_null d raw) null h))
        (without_request null)
  | inr given ↦
      let (j, decoded, made) =
        bind_next (or_reply (d.http_request raw) _) _ r
          (if_false _ _ r (is_json_null d raw) given h) in
      subst (λ q. HttpFrom d raw q) (next_injective _ r made)
        (with_request j _ _ given (or_reply_next (d.http_request raw) _ j decoded)
          (or_else-FirstGiven j.method "EVALUATE")
          (or_else-FirstGiven j.request_target "/conformance"))
]

module _ (d : Decoder) (input : InputData) (cp : Option CheckpointContext)
    (h : read_checkpoint d input ≡ next cp) where
  -- The checkpoint that is decoded.
  at_raw :
      (raw : Bytes)
      → checkpoint_raw d input ≡ raw
      → is_json_null d raw ≡ false
      → (j : CheckpointJson) × (d.checkpoint raw ≡ some j) × (some (checkpoint_of j) ≡ cp)
  unfolding read_checkpoint
  at_raw raw this given =
      let here = subst (λ b. is_json_null d b ≡ false) (sym this) given in
      let (j, decoded, made) = bind_next (or_reply (d.checkpoint (checkpoint_raw d input)) _) _ cp (
        if_true _ _ cp (is_given d (checkpoint_raw d input))
          (given-is_json_null d (checkpoint_raw d input) ∙ ap not here) h) in
      (
        j,
        subst (λ b. d.checkpoint b ≡ some j) this
            (or_reply_next (d.checkpoint (checkpoint_raw d input)) _ j decoded),
        next_injective _ cp made,
      )

  at_null :
      checkpoint_raw d input ≡ input.checkpoint → is_json_null d input.checkpoint ≡ true → none ≡ cp
  unfolding read_checkpoint
  at_null this null =
      let here = subst (λ b. is_json_null d b ≡ true) (sym this) null in
      next_injective none cp (
        if_false _ _ cp (is_given d (checkpoint_raw d input))
          (given-is_json_null d (checkpoint_raw d input) ∙ ap not here) h)

  raw_explicit : is_json_null d input.checkpoint ≡ false → checkpoint_raw d input ≡ input.checkpoint
  unfolding checkpoint_raw is_json_null
  raw_explicit given = ground (arith, given)

  raw_without :
      is_json_null d input.policy_context ≡ true → checkpoint_raw d input ≡ input.checkpoint
  unfolding checkpoint_raw is_json_null
  raw_without null = ground (arith, null)

  raw_undecoded :
      d.policy_context input.policy_context ≡ none → checkpoint_raw d input ≡ input.checkpoint
  unfolding checkpoint_raw is_json_null
  raw_undecoded bad = ground (arith, bad)

  raw_null :
      (j : PolicyContextJson)
      → d.policy_context input.policy_context ≡ some j
      → is_json_null d j.checkpoint ≡ true
      → checkpoint_raw d input ≡ input.checkpoint
  unfolding checkpoint_raw is_json_null
  raw_null j decoded null = ground (arith, decoded, null)

  raw_in_policy :
      (j : PolicyContextJson)
      → is_json_null d input.checkpoint ≡ true
      → is_json_null d input.policy_context ≡ false
      → d.policy_context input.policy_context ≡ some j
      → is_json_null d j.checkpoint ≡ false
      → checkpoint_raw d input ≡ j.checkpoint
  unfolding checkpoint_raw is_json_null
  raw_in_policy j null given decoded inside = ground (arith, null, given, decoded, inside)

  pub read_checkpoint-CheckpointFrom : CheckpointFrom d input cp
  read_checkpoint-CheckpointFrom = elim (Bool-cases (is_json_null d input.checkpoint)) [
    | inr given ↦
        let (j, decoded, made) = at_raw input.checkpoint (raw_explicit given) given in
        subst (λ o. CheckpointFrom d input o) made
          (explicit j (checkpoint_of j) given decoded (checkpoint_of-Describes j))
    | inl null ↦ elim (Bool-cases (is_json_null d input.policy_context)) [
      | inl without ↦
          subst (λ o. CheckpointFrom d input o) (at_null (raw_without without) null)
            (absent null (λ raw p. cc (p.0, without)))
      | inr with_it ↦ elim (Option-cases (d.policy_context input.policy_context)) [
        | inl bad ↦
            subst (λ o. CheckpointFrom d input o) (at_null (raw_undecoded bad) null)
              (absent null (λ raw (given, (k, decoded, at, inside)). cc (bad, decoded)))
        | inr (pc, good) ↦ elim (Bool-cases (is_json_null d pc.checkpoint)) [
          | inl empty ↦
              subst (λ o. CheckpointFrom d input o) (at_null (raw_null pc good empty) null)
                (absent null
                  (λ raw (given, (k, decoded, at, inside)). cc (good, decoded, at, inside, empty)))
          | inr inside ↦
              let (j, decoded, made) =
                at_raw pc.checkpoint (raw_in_policy pc null with_it good inside) inside in
              subst (λ o. CheckpointFrom d input o) made
                (in_policy pc.checkpoint j (checkpoint_of j) null
                  (with_it, (pc, good, refl, inside)) decoded (checkpoint_of-Describes j))
        ]
      ]
    ]
  ]
