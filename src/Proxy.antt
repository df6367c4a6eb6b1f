-- ===== src/Proxy.antt =====
-- internal/proxy: the reverse proxy. net/http, encoding/json and crypto/rand enter as arguments: the
-- canonical form of a header's name, `strings.Split` and `strings.TrimSpace`, the JSON of an action, and what
-- the upstream does with a request. Logging is left out.
pub mod Action
pub mod Hops
pub mod Handler
pub mod Enforced
pub mod Recording
pub mod Spending
pub mod Reader
