-- ===== src/Conformance/Steps.antt =====
-- cmd/hacp-conformance-runner/main.go: sequences of steps that go on.
use hacp_sidecar.Common.{◌≡◌, refl, ap, Option, none, some}
use hacp_sidecar.Conformance.Protocol.{Response, Step, reply, next, ◌>>=◌, or_reply}

-- A sequence that goes on went on at its first step.
pub bind_next {ℓ κ} :
    {A : Type ℓ} {B : Type κ} (m : Step A) (f : A → Step B) (b : B)
    → m >>= f ≡ next b
    → (a : A) × (m ≡ next a) × (f a ≡ next b)
bind_next (reply r) f b h = cc h
bind_next (next a) f b h = (a, refl, h)

pub next_injective {ℓ} : {A : Type ℓ} (a b : A) → next a ≡ next b → a ≡ b
next_injective a b h = cc h

pub or_reply_next {ℓ} :
    {A : Type ℓ} (o : Option A) (r : Response) (a : A) → or_reply o r ≡ next a → o ≡ some a
unfolding or_reply
or_reply_next none r a h = cc h
or_reply_next (some b) r a h = ap some (next_injective b a h)
