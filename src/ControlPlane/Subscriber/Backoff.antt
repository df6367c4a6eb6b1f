-- ===== src/ControlPlane/Subscriber/Backoff.antt =====
-- internal/controlplane/subscriber.go: the delays of repeated reconnections.
use hacp_sidecar.Common.{ℕ, zero, suc, ◌*◌, ◌≤◌, ◌<◌, ◌≡◌, ◌∙◌, ap, arith, leb, if◌then◌else◌}
use hacp_sidecar.Common.Int.{ℤ, pos, two_63, add_int64}
use hacp_sidecar.ControlPlane.Subscriber.{next_reconnect_backoff}

-- The delay after n further failures in a row.
abbrev pub delay_after : ℕ → ℤ → ℤ → ℤ
delay_after zero initial max = next_reconnect_backoff (pos 0) initial max
delay_after (suc n) initial max = next_reconnect_backoff (delay_after n initial max) initial max

abbrev pub capped : ℕ → ℕ → ℕ
capped n max = if leb n max then n else max

abbrev pub doubled : ℕ → ℕ → ℕ
doubled zero n = n
doubled (suc k) n = 2 * doubled k n

first_delay :
    (initial max : ℕ)
    → 0 < initial
    → initial ≤ max
    → next_reconnect_backoff (pos 0) (pos initial) (pos max) ≡ pos (capped initial max)
unfolding next_reconnect_backoff
first_delay initial max p h = ground arith

next_delay :
    (n initial max : ℕ)
    → 0 < initial
    → initial ≤ max
    → 0 < n
    → 2 * max < two_63
    → next_reconnect_backoff (pos (capped n max)) (pos initial) (pos max) ≡ pos (capped (2 * n) max)
unfolding next_reconnect_backoff add_int64
next_delay n initial max p h q fits = ground arith

doubled_pos : (k n : ℕ) → 0 < n → 0 < doubled k n
doubled_pos zero n h = h
doubled_pos (suc k) n h = omega (arith, doubled_pos k n h)

-- The delays double from the initial backoff up to the bound, without overflow, where the initial
-- backoff is positive and within the bound, and twice the bound fits `int64`.
pub delay_after-doubles :
    (k initial max : ℕ)
    → 0 < initial
    → initial ≤ max
    → 2 * max < two_63
    → delay_after k (pos initial) (pos max) ≡ pos (capped (doubled k initial) max)
delay_after-doubles zero initial max p h fits = first_delay initial max p h
delay_after-doubles (suc k) initial max p h fits =
    ap (λ d. next_reconnect_backoff d (pos initial) (pos max))
      (delay_after-doubles k initial max p h fits)
    ∙ next_delay (doubled k initial) initial max p h (doubled_pos k initial p) fits
