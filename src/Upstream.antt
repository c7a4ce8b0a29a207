-- ===== src/Upstream.antt =====
-- src/upstream.rs: what the engine may ask of a backend's upstream. The trait object with its
-- interior state is a state `U` that each call returns anew.
pub mod Mock
use echofront.Base.{ℕ, Bool, false, not}
use echofront.Http.{Request, Response, probe_request, is_server_error}

pub data UpstreamError : Type 0 where
  timeout connection : UpstreamError
  server_error : ℕ → UpstreamError

pub data Outcome : Type 0 where
  answered : Response → Outcome
  failed : UpstreamError → Outcome

pub record UpstreamReply : Type 0 where
  pub outcome : Outcome
  pub latency_ms : ℕ

pub record Upstream {ℓ} (U : Type ℓ) : Type ℓ where
  pub send : Request → U → UpstreamReply × U
  pub probe : U → Bool × U

-- `outcome.is_ok_and(|r| !r.is_server_error())`.
abbrev live : Outcome → Bool
live (answered r) = not (is_server_error r)
live (failed e) = false

-- The trait's own `probe`, for an upstream that only sends.
unfoldable pub default_probe {ℓ} : {U : Type ℓ} → (Request → U → UpstreamReply × U) → U → Bool × U
unfolding is_server_error probe_request
default_probe send u = let (reply, u') = send probe_request u in (live reply.outcome, u')
