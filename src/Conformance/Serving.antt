-- ===== src/Conformance/Serving.antt =====
-- cmd/hacp-conformance-runner/main.go: the loop of `main` over the lines of the input. A line of
-- `max_line_size` bytes or more does not fit the scanner's buffer with its newline: the scanner stops there
-- with an error.
use hacp_sidecar.Common.{
  ℕ, Bool, true, false, not, ltb, Option, none, some, List, [], ◌∷◌, length, ◌==◌, if◌then◌else◌,
}
use hacp_sidecar.Wire.{Bytes}
use hacp_sidecar.Conformance.Protocol.{Request, Response, error_response, malformed_request}
use hacp_sidecar.Conformance.Runner.{Runner}
use hacp_sidecar.Conformance.Handling.{World, Reading, Handled, handled, handle_request}

-- The limit that `main` gives `scanner.Buffer`.
abbrev pub max_line_size : ℕ
max_line_size = 16777216

-- A line without its newline, with what the clocks read and whether the response is written.
pub record Line : Type 0 where
  pub bytes : Bytes
  pub now : Reading
  pub writable : Bool

-- The runner and the responses that were written; `crashed` is a panic, and `too_long` the scanner's error.
pub record Session : Type 0 where
  pub runner : Runner
  pub written : List Response
  pub crashed : Bool
  pub too_long : Bool

module _ (x : World) where
  abbrev pub answered : Runner → Reading → Option Request → Handled
  answered r now none = handled r (error_response malformed_request)
  answered r now (some req) = handle_request x r req now

  -- The response to a line that is not blank.
  unfoldable pub answer : Runner → Line → Handled
  unfolding handle_request error_response
  answer r line = answered r line.now (x.decoder.request line.bytes)

  abbrev pub is_blank : Line → Bool
  is_blank line = length (x.decoder.trim_space line.bytes) == 0

  abbrev pub fits : Line → Bool
  fits line = ltb (length line.bytes) max_line_size

  abbrev stopped : Runner → Bool → Bool → Session
  stopped r crashed too_long = record {
    runner = r;
    written = [];
    crashed = crashed;
    too_long = too_long;
  }

  unfoldable pub serve : Runner → List Line → Session
  unfolding answer
  serve r [] = stopped r false false
  serve r (line ∷ lines) =
      let a = answer r line in
      let skipped = serve r lines in
      let rest = serve a.runner lines in
      if not (fits line)
      then stopped r false true
      else if is_blank line
      then skipped
      else elim a.response [
        | none ↦ stopped a.runner true false
        | some y ↦
            if line.writable
            then record rest { written = y ∷ rest.written }
            else stopped a.runner false false
      ]

-- The exit code, from whether reading, by a line that is too long or otherwise, and the last flush fail.
unfoldable pub exit_code : Bool → Bool → ℕ
exit_code read_fails flush_fails = if read_fails then 3 else if flush_fails then 4 else 0
