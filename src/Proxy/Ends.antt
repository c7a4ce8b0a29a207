-- ===== src/Proxy/Ends.antt =====
-- src/proxy.rs: the loop of `handle` ends, and the fuel of the model is no more than a measure of it.
use echofront.Base.{
  ℕ, zero, suc, ◌+◌, ◌≤◌, ◌<◌, ◌≡◌, refl, [], List, Option, Exec, ok, panic, ◌>>=◌, arith,
}
use echofront.Base.Words.{u32_mod}
use echofront.Http.{Request}
use echofront.Pool.{Pool}
use echofront.Pool.Select.Invariant.{select_safe}
use echofront.Pool.Select.Sticky.{RingFits}
use echofront.Proxy.{Proxy, Reply}
use echofront.Proxy.Handle.{Trip, Round, finished, again, round, loop, depart}
use echofront.Proxy.Handled.{nothing, All-trivial}
use echofront.Proxy.Promise.{enter}
use echofront.Proxy.Loop.{loop_lem}
use echofront.Proxy.Start.{depart-Sound}
use echofront.Upstream.{Upstream}

module _ {ℓ} {U : Type ℓ} where
  -- More fuel does not change what a loop returns.
  loop_more :
      (fuel more : ℕ) (upstream : Upstream U) (now : ℕ) (key : Option (List ℕ)) (req : Request)
      (max_retries : ℕ) (t : Trip U) (r : Reply × Trip U)
      → loop fuel upstream now key req max_retries t ≡ ok r
      → fuel ≤ more
      → loop more upstream now key req max_retries t ≡ ok r
  unfolding loop
  loop_more zero more upstream now key req max_retries t r e h = cc
  loop_more (suc fuel) zero upstream now key req max_retries t r e h = absurd (omega arith)
  loop_more (suc fuel) (suc more) upstream now key req max_retries t r e h =
      go (λ t' e. loop_more fuel more upstream now key req max_retries t' r e (omega arith))
        (round upstream now key req max_retries t) e
    where
      go :
          ((t' : Trip U)
            → loop fuel upstream now key req max_retries t' ≡ ok r
            → loop more upstream now key req max_retries t' ≡ ok r)
          → (m : Exec (Round U))
          → (m >>= λ r. elim r [
            | finished reply t' ↦ ok (reply, t')
            | again t' ↦ loop fuel upstream now key req max_retries t'
          ])
            ≡ ok r
          → (m >>= λ r. elim r [
            | finished reply t' ↦ ok (reply, t')
            | again t' ↦ loop more upstream now key req max_retries t'
          ])
            ≡ ok r
      go rest panic e = e
      go rest (ok (finished reply t')) e = e
      go rest (ok (again t')) e = rest t' e

  -- The loop of `handle` terminates: from where a request enters it, on a pool whose cached ring
  -- fits, there is one reply and one final state that it returns with any fuel of at least
  -- `max_retries + 1` rounds, whatever the backends answer.
  pub loop_ends :
      (upstream : Upstream U) (x : Proxy U) (pool : Pool U) (now : ℕ) (key : Option (List ℕ))
      (req : Request) (max_retries : ℕ)
      → max_retries + 1 < u32_mod
      → RingFits pool
      → (reply : Reply) × (t : Trip U) × ((fuel : ℕ)
          → suc max_retries ≤ fuel
          → loop fuel upstream now key req max_retries (depart x pool) ≡ ok (reply, t))
  unfolding depart
  loop_ends upstream x pool now key req max_retries m f =
      let (q, choice, opens, _, _) = select_safe pool now key [] f in
      let (reply, t, done, _) =
        loop_lem (λ _. Unit) (λ _ _. Unit) (record { pool = pool; choice = choice })
          (suc max_retries) upstream key req (record (enter x now) { max_retries = max_retries })
          (nothing now) (depart x pool) q opens m
          (depart-Sound (λ _. Unit) (λ _ _. Unit) x pool choice
            (record (enter x now) { max_retries = max_retries }) refl refl f
            (All-trivial pool.backends) tt)
          (omega arith) in
      (
        reply,
        t,
        λ fuel h.
            loop_more (suc max_retries) fuel upstream now key req max_retries (depart x pool)
              (reply, t) done h,
      )
