-- ===== src/Sidecar/Logging.antt =====
-- cmd/sidecar/main.go: the provenance file against what the sidecar granted.
use hacp_sidecar.Common.{
  take, refl, String, ◌≡◌, sym, ap, ◌∙◌, subst, Option, none, some, List, [], ◌∷◌, ◌++◌,
  append_assoc, append-nil, arith, if◌then◌else◌,
}
use hacp_sidecar.Common.Time.{Time}
use hacp_sidecar.Provenance.{Event, RingBuffer, Disk, Wake, wake, flush}
use hacp_sidecar.Provenance.Ledger as Ledger
use hacp_sidecar.Provenance.Ledger.{
  Log, Balanced, Works, work, flush-Balanced, step-Balanced, new_log-Balanced,
}
use hacp_sidecar.Provenance.Window.{pending, flush_lem}
use hacp_sidecar.Provenance.Accounted.{
  Accounted, Accounted-refl, allowed_ids, allowed_ids-append, take_rest, rejoined,
}
use hacp_sidecar.Trust.Store.{AtomicTrustStore}
use hacp_sidecar.Proxy.Recording.{granted, serve_http-Recorded}
use hacp_sidecar.Sidecar.Main.{Settings, System, Running, running, start}
use hacp_sidecar.Sidecar.Fresh.{start-Fresh}
use hacp_sidecar.Sidecar.Dispatch.{serve_cases}
use hacp_sidecar.Sidecar.Routes as Routes
use hacp_sidecar.Sidecar.Routes.{
  Matched, pattern, redirected, unmatched, Site, Incoming, Outgoing, replied, moved, proxied,
  patterns, proxy_in, after_revocation, reloaded_store, serve_other, serve_kind, serve_pattern,
  serve_matched, serve, request, reload, received, snapshot_given, step,
}
use hacp_sidecar.Sidecar.Lifetime.{
  worked_state, shut_down, Turn, handled, worked, Ending, signalled, server_failed, cut_off, live,
}

abbrev pub granted_id : String → Outgoing → List String
granted_id id (proxied served) = if granted served then id ∷ [] else []
granted_id id _ = []

module _ (x : Site) where
  abbrev pub granted_by : Running → Routes.Event x → List String
  granted_by s (request i) = granted_id i.request_id (serve x s i).1
  granted_by s _ = []

  granted_in : Running → List (Routes.Event x) → List String
  unfolding serve step
  granted_in s [] = []
  granted_in s (e ∷ es) = granted_by s e ++ granted_in (step x s e) es

  -- The identifiers of the requests that are granted in these turns and until this end, in their order.
  unfoldable pub granted_ids : Running → List (Turn x) → Ending x → List String
  unfolding step wake serve granted_in
  granted_ids s [] (signalled disk) = []
  granted_ids s [] server_failed = []
  granted_ids s [] (cut_off w d n es) = granted_in (worked_state s (wake s.state.provenance w d)) es
  granted_ids s (handled e ∷ ts) end = granted_by s e ++ granted_ids (step x s e) ts end
  granted_ids s (worked w d ∷ ts) end =
      granted_ids (worked_state s (wake s.state.provenance w d)) ts end

  abbrev pub WorksAt : Ending x → Type 0
  WorksAt (signalled disk) = Works disk
  WorksAt server_failed = Unit {0}
  WorksAt (cut_off w disk n es) = Works disk

  -- A signal loses nothing.
  abbrev pub MayLose : Ending x → List String → Type 0
  MayLose (signalled disk) lost = lost ≡ []
  MayLose _ lost = Unit {0}

  -- Each turn of the worker finds a file that works.
  abbrev pub AllWork : List (Turn x) → Type 0
  AllWork [] = Unit {0}
  AllWork (handled e ∷ ts) = AllWork ts
  AllWork (worked w disk ∷ ts) = Works disk × AllWork ts

  -- The answer to a request leaves the event of an allowed action exactly if it is granted.
  abbrev Logs : Running → String → Running × Outgoing → Type 0
  Logs s id r = Accounted s.state.provenance r.0.state.provenance (granted_id id r.1)

  serve-Logs : (s : Running) (i : Incoming) → Logs s i.request_id (serve x s i)
  serve-Logs s i =
      let nothing = Accounted-refl s.state.provenance in
      serve_cases x s i (Logs s i.request_id) (λ runtime o. nothing) (λ location. nothing)
        (serve_http-Recorded (proxy_in x s) i.moment i.request_id i.request s.state)

  step-Logs :
      (s : Running) (e : Routes.Event x)
      → Accounted s.state.provenance (step x s e).state.provenance (granted_by s e)
  unfolding step
  step-Logs s (request i) = serve-Logs s i
  step-Logs s (reload file method now) = go s.admin _
    where
      go :
          (addr : Option String) (store : Option AtomicTrustStore)
          → Accounted s.state.provenance (reloaded_store x s addr store).state.provenance []
      go (some addr) (some trust) = Accounted-refl s.state.provenance
      go (some addr) none = Accounted-refl s.state.provenance
      go none store = Accounted-refl s.state.provenance
  step-Logs s (received response now) = Accounted-refl s.state.provenance
  step-Logs s (snapshot_given answer now) = Accounted-refl s.state.provenance

  worked-Balanced :
      (s : Running) (w : Wake) (d : Disk) (kept file : List Event)
      → Works d
      → Balanced (record { ring = s.state.provenance; kept = kept; file = file })
      → let flushed = wake s.state.provenance w d in
        Balanced (record { ring = flushed.0; kept = kept; file = file ++ flushed.1 })
  unfolding Ledger.step
  worked-Balanced s w d kept file h b =
      let log : Log = record { ring = s.state.provenance; kept = kept; file = file } in
      (step-Balanced log (work w d) [] (h, tt) b).0

  shut_down-kept :
      (s : Running) (disk : Disk) (kept file : List Event)
      → Works disk
      → Balanced (record { ring = s.state.provenance; kept = kept; file = file })
      → file ++ shut_down s disk ≡ kept
  unfolding shut_down
  shut_down-kept s disk kept file w b =
      let log : Log = record { ring = s.state.provenance; kept = kept; file = file } in
      let (v, (empty, wrote)) = flush_lem s.state.provenance disk b.valid in
      sym (
        (flush-Balanced log disk w b).balance
        ∙ ap (λ es. (file ++ (flush s.state.provenance disk).1) ++ es) empty
        ∙ append-nil (file ++ (flush s.state.provenance disk).1))

  pending-granted :
      (rb : RingBuffer) (kept file : List Event)
      → Balanced (record { ring = rb; kept = kept; file = file })
      → allowed_ids file ++ allowed_ids (pending rb) ≡ allowed_ids kept ++ []
  pending-granted rb kept file b =
      sym (allowed_ids-append file (pending rb))
      ∙ ap allowed_ids (sym b.balance)
      ∙ sym (append-nil (allowed_ids kept))

  -- What the file has, with what is lost, is what was kept, with what is granted from here on.
  abbrev Accounts : Running → List (Turn x) → Ending x → List Event → List Event → Type 0
  Accounts s ts end kept file =
      (lost : List String) × MayLose end lost
      × (allowed_ids (file ++ live x s ts end) ++ lost ≡ allowed_ids kept ++ granted_ids s ts end)

  ending-Accounts :
      (s : Running) (end : Ending x) (kept file : List Event)
      → WorksAt end
      → Balanced (record { ring = s.state.provenance; kept = kept; file = file })
      → Accounts s [] end kept file
  unfolding live granted_ids
  ending-Accounts s (signalled disk) kept file w b =
      ([], refl, ap (λ es. allowed_ids es ++ []) (shut_down-kept s disk kept file w b))
  ending-Accounts s server_failed kept file w b = (
    allowed_ids (pending s.state.provenance),
    tt,
    ap (λ es. allowed_ids es ++ allowed_ids (pending s.state.provenance)) (append-nil file)
        ∙ pending-granted s.state.provenance kept file b,
  )
  ending-Accounts s (cut_off wk d n es) kept file w b =
      let flushed = wake s.state.provenance wk d in
      let (rest, whole) = take_rest n flushed.1 in
      let b' = worked-Balanced s wk d kept file w b in
      let later = granted_in (worked_state s flushed) es in
      (
        allowed_ids (rest ++ pending flushed.0) ++ later,
        tt,
        sym (append_assoc (allowed_ids (file ++ take n flushed.1)) _ later)
            ∙ ap (λ ids. ids ++ later)
                (sym (allowed_ids-append (file ++ take n flushed.1) (rest ++ pending flushed.0))
                  ∙ ap allowed_ids (
                      rejoined file (take n flushed.1) rest flushed.1 (pending flushed.0) kept whole
                        b'.balance)),
      )

  live-granted :
      (s : Running) (ts : List (Turn x)) (end : Ending x) (kept file : List Event)
      → AllWork ts
      → WorksAt end
      → Balanced (record { ring = s.state.provenance; kept = kept; file = file })
      → Accounts s ts end kept file
  unfolding live granted_ids
  live-granted s [] end kept file h w b = ending-Accounts s end kept file w b
  live-granted s (handled e ∷ ts) end kept file h w b =
      let (es, b', these) = step-Logs s e kept file b in
      let (lost, may, eq) = live-granted (step x s e) ts end (kept ++ es) file h w b' in
      (
        lost,
        may,
        eq
            ∙ ap (λ ids. ids ++ granted_ids (step x s e) ts end)
                (allowed_ids-append kept es ∙ ap (λ ids. allowed_ids kept ++ ids) these)
            ∙ append_assoc (allowed_ids kept) (granted_by s e) (granted_ids (step x s e) ts end),
      )
  live-granted s (worked wk d ∷ ts) end kept file (h, hs) w b =
      let flushed = wake s.state.provenance wk d in
      let (lost, may, eq) =
        live-granted (worked_state s flushed) ts end kept (file ++ flushed.1) hs w
          (worked-Balanced s wk d kept file h b) in
      (
        lost,
        may,
        ap (λ es. allowed_ids es ++ lost)
              (sym (append_assoc file flushed.1 (live x (worked_state s flushed) ts end)))
            ∙ eq,
      )

module _ {Pool : Type 0} (sys : System Pool) (s : Settings) (loaded_at made_at : Time)
    (r : Running) where
  -- From the start of a sidecar to its end, with any requests, reloads of the trust store and messages of the
  -- control plane, and with the turns of the provenance worker anywhere among them, while the
  -- provenance file can be opened and takes every event: when a signal ends the process, the events of
  -- allowed actions that it has appended to the file are those of exactly the requests that the proxy
  -- sent to the upstream or answered without a reason of denial, each once and in their order, also
  -- when the buffer was full. An error of the server, which ends the process at once, may lose the last of
  -- them, and no others.
  pub start-granted :
      (x : Site) (ts : List (Turn x)) (end : Ending x)
      → start sys s loaded_at made_at ≡ running r
      → AllWork x ts
      → WorksAt x end
      → (lost : List String) × MayLose x end lost
        × (allowed_ids (live x r ts end) ++ lost ≡ granted_ids x r ts end)
  unfolding allowed_ids
  start-granted x ts end h hs w = live-granted x r ts end [] [] hs w (
      subst (λ q. Balanced (record { ring = q.provenance; kept = []; file = [] }))
        (sym (start-Fresh sys s loaded_at made_at r h)) (new_log-Balanced 10000 (omega arith)))
