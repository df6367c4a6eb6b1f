-- ===== src/Wire/Complete.antt =====
-- internal/wire/envelope.go and token.go: what the parsers accept, stated with no order of checks.
use hacp_sidecar.Common.{
  String, ◌≡◌, ◌≢◌, ◌↔◌, ◌⊎◌, refl, sym, ap, ◌||◌, Option, none, some, arith, subst, str_eq, eq_iff,
}
use hacp_sidecar.Common.Int.{ℤ, pos}
use hacp_sidecar.Wire.{Bytes, ScopeGrant, IntentEnvelope}
use hacp_sidecar.Wire.Parsing.{
  EnvelopeJson, Codec, ParseResult, parsed, refused, ParseError, json_error, ◌>>=◌, ◌>>◌, guard,
  or_refuse, is_some, unsupported_version, required, required_time, check_version,
  check_envelope_fields, Payload, payload_of, seal_envelope, parse_intent_envelope,
}

pub record EnvelopeComplete (ej : EnvelopeJson) : Type 0 where
  pub version : ej.hacp_version ≡ "0.9"
  pub envelope_id : ej.envelope_id ≢ ""
  pub principal : ej.principal ≢ ""
  pub kind : (ej.principal_kind ≡ "human") ⊎ (ej.principal_kind ≡ "system")
  pub statement : ej.intent_statement ≢ ""
  pub scoped : ej.scope ≢ none
  pub issued : ej.issued_at ≢ pos 0
  pub expiring : ej.expires_at ≢ pos 0
  pub signer : ej.signer_key_id ≢ ""
  pub signed : ej.signature ≢ ""

parsed_injective {ℓ} : {A : Type ℓ} (a b : A) → parsed a ≡ parsed b → a ≡ b
parsed_injective a b h = cc h

or_refuse_iff {ℓ} :
    {A : Type ℓ} (o : Option A) (e : ParseError) (a : A) → (or_refuse o e ≡ parsed a) ↔ (o ≡ some a)
or_refuse_iff none e a = ((λ h. cc h), (λ h. cc h))
or_refuse_iff (some b) e a = ((λ h. cc h), (λ h. cc h))

then_iff :
    (m k : ParseResult (Unit {0})) → ((m >> k) ≡ parsed tt) ↔ ((m ≡ parsed tt) × (k ≡ parsed tt))
then_iff (parsed tt) k = ((λ h. (refl, h)), (λ h. h.1))
then_iff (refused e) k = ((λ h. cc h), (λ h. cc h.0))

required_iff : (v name : String) → (required v name ≡ parsed tt) ↔ (v ≢ "")
required_iff v name = ground (arith, eq_iff v "")

required_time_iff : (t : ℤ) (name : String) → (required_time t name ≡ parsed tt) ↔ (t ≢ pos 0)
required_time_iff t name = ground arith

check_version_iff : (v : String) → (check_version v ≡ parsed tt) ↔ (v ≡ "0.9")
check_version_iff v = (
  (λ h.
      let matched =
        ((then_iff (required v "hacp_version") (guard (str_eq v "0.9") (unsupported_version v))).0
          h).1 in
      (eq_iff v "0.9").0 (ground (arith, matched))),
  (λ e. subst (λ w. check_version w ≡ parsed tt) (sym e) refl),
)

chain :
    {A B : Type 0} (m k : ParseResult (Unit {0}))
    → ((m ≡ parsed tt) ↔ A)
    → ((k ≡ parsed tt) ↔ B)
    → ((m >> k) ≡ parsed tt) ↔ (A × B)
chain m k f g = (
  (λ h. let (a, b) = (then_iff m k).0 h in (f.0 a, g.0 b)),
  (λ (a, b). (then_iff m k).1 (f.1 a, g.1 b)),
)

kind_iff :
    (k : String) (e : ParseError)
    → (guard (str_eq k "human" || str_eq k "system") e ≡ parsed tt)
      ↔ ((k ≡ "human") ⊎ (k ≡ "system"))
kind_iff k e = ground (arith, eq_iff k "human", eq_iff k "system")

scope_iff :
    (o : Option ScopeGrant) (e : ParseError) → (guard (is_some o) e ≡ parsed tt) ↔ (o ≢ none)
scope_iff none e = ((λ h. cc h), (λ h. absurd (h refl)))
scope_iff (some g) e = ((λ h e'. cc e'), (λ h. refl))

check_envelope_fields_iff :
    (ej : EnvelopeJson) → (check_envelope_fields ej ≡ parsed tt) ↔ EnvelopeComplete ej
unfolding check_envelope_fields
check_envelope_fields_iff ej =
    let all = chain _ _ (check_version_iff ej.hacp_version) (
      chain _ _ (required_iff ej.envelope_id "envelope_id") (
        chain _ _ (required_iff ej.principal "principal") (
          chain _ _ (kind_iff ej.principal_kind _) (
            chain _ _ (required_iff ej.intent_statement "intent_statement") (
              chain _ _ (scope_iff ej.scope _) (
                chain _ _ (required_time_iff ej.issued_at "issued_at") (
                  chain _ _ (required_time_iff ej.expires_at "expires_at") (
                    chain _ _ (required_iff ej.signer_key_id "signer_key_id")
                      (required_iff ej.signature "signature"))))))))) in
    (
      (λ h.
          let (v, (i, (p, (k, (t, (s, (a, (x, (r, g))))))))) = all.0 h in
          record {
            version = v;
            envelope_id = i;
            principal = p;
            kind = k;
            statement = t;
            scoped = s;
            issued = a;
            expiring = x;
            signer = r;
            signed = g;
          }),
      (λ c. all.1 (
        c.version,
        (
          c.envelope_id,
          (
            c.principal,
            (c.kind, (c.statement, (c.scoped, (c.issued, (c.expiring, (c.signer, c.signed)))))),
          ),
        ),
      )),
    )

-- Where a chain with a value succeeds, so did its parts.
bind_iff {ℓ κ} :
    {A : Type ℓ} {B : Type κ} (m : ParseResult A) (f : A → ParseResult B) (b : B)
    → ((m >>= f) ≡ parsed b) ↔ ((a : A) × (m ≡ parsed a) × (f a ≡ parsed b))
bind_iff (parsed a) f b = (
  (λ h. (a, refl, h)),
  (λ (a', e, h). subst (λ x. f x ≡ parsed b) (sym (parsed_injective a a' e)) h),
)
bind_iff (refused e) f b = ((λ h. cc h), (λ (a, e, h). cc e))

-- The parser accepts exactly the bytes that decode to a complete envelope whose signature and
-- canonical forms can be made, and gives the envelope of these.
pub parse_intent_envelope_iff :
    (lib : Codec) (bytes : Bytes) (env : IntentEnvelope)
    → (parse_intent_envelope lib bytes ≡ parsed env) ↔ (
        (ej : EnvelopeJson) × (lib.unmarshal_envelope bytes ≡ some ej)
        × EnvelopeComplete ej
        × ((payload : Payload) × (payload_of lib ej.signature bytes ≡ parsed payload)
            × (seal_envelope lib ej payload ≡ env)))
unfolding parse_intent_envelope
parse_intent_envelope_iff lib bytes env = (
  (λ h.
      let (ej, decoded, rest) =
        (bind_iff (or_refuse (lib.unmarshal_envelope bytes) json_error) _ env).0 h in
      let (u, complete, sealed) = (bind_iff (check_envelope_fields ej) _ env).0 rest in
      let (payload, made, same) = (bind_iff (payload_of lib ej.signature bytes) _ env).0 sealed in
      (
        ej,
        (or_refuse_iff _ _ ej).0 decoded,
        (check_envelope_fields_iff ej).0 complete,
        (payload, made, parsed_injective _ _ same),
      )),
  (λ (ej, decoded, complete, (payload, made, same)).
      (bind_iff (or_refuse (lib.unmarshal_envelope bytes) json_error) _ env).1 (
        ej,
        (or_refuse_iff _ _ ej).1 decoded,
        (bind_iff (check_envelope_fields ej) _ env).1 (
          tt,
          (check_envelope_fields_iff ej).1 complete,
          (bind_iff (payload_of lib ej.signature bytes) _ env).1 (payload, made, ap parsed same),
        ),
      )),
)
