-- ===== src/Proxy/Handled.antt =====
-- src/proxy.rs: what `handle` promises, whatever the backends answer.
use echofront.Base.{ℕ, ◌+◌, ◌<◌, ◌≡◌, List, [], ◌∷◌, ok, All, All-mono}
use echofront.Base.Words.{u32_mod}
use echofront.Http.{Request}
use echofront.Pool.{Backend}
use echofront.Pool.Select.Sticky.{RingFits}
use echofront.Proxy.{Proxy, HandleResult}
use echofront.Proxy.Handle.{handle}
use echofront.Router.{route}
use echofront.Upstream.{Upstream}
use echofront.Proxy.Kept.{handle_lem}
use echofront.Proxy.Promise.{Handled}
use echofront.Proxy.Trips.{Keeps}

module _ {ℓ} {U : Type ℓ} where
  -- Every pool's ring fits.
  abbrev pub PoolsFit : Proxy U → Type ℓ
  PoolsFit x = All (λ e. RingFits e.1) x.pools

  pub All-trivial : (bs : List (Backend U)) → All (λ _. Unit {0}) bs
  All-trivial [] = tt
  All-trivial (b ∷ bs) = (tt, All-trivial bs)

  -- Nothing is asked of the backends and of the budget.
  pub nothing : (now : ℕ) → Keeps {U = U} now (λ _. Unit {0}) (λ _ _. Unit {0})
  nothing now = record {
    weighed = λ bs cs e w a. All-trivial cs;
    asked = λ b u p. tt;
    failed = λ c b p. tt;
    succeeded = λ ewma latency b p. tt;
    spent = λ b n q. tt;
  }

  -- `handle` returns, without a panic, if every pool's cached ring fits its nodes and the retries
  -- per request stay below 2^32 - 1. It makes at most `max_retries_per_request + 1` attempts, no two
  -- at the same backend; the backend it reports is the one of the first attempt; and the reply
  -- agrees with the attempts: a success comes from the last attempt and all before it failed, an
  -- error says whether there was no route, no backend to ask, or how many attempts failed. Every
  -- pool's ring fits afterwards, so the next call may be made.
  pub handle_safe :
      (upstream : Upstream U) (x : Proxy U) (now : ℕ) (req : Request)
      → x.budget.cfg.max_retries_per_request + 1 < u32_mod
      → PoolsFit x
      → (x' : Proxy U) × (r : HandleResult) × (handle upstream x now req ≡ ok (x', r))
        × PoolsFit x'
        × Handled (route x.routes req) x.budget.cfg.max_retries_per_request r
  handle_safe upstream x now req m a =
      let (x', r, done, kept, paid, handled, _) =
        handle_lem (λ _. Unit) (λ _ _. Unit) now (nothing now) (λ ewma line b p. tt) upstream x req
          m (All-mono _ _ x.pools (λ e f. (f, All-trivial e.1.backends)) a) tt in
      (x', r, done, All-mono _ _ x'.pools (λ e f. f.0) kept, handled)
