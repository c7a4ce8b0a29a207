-- ===== src/Proxy/Steady.antt =====
-- src/proxy.rs: a request to a service whose nodes are all up and whose upstreams answer.
use echofront.Base.{
  ℕ, suc, ◌+◌, ◌<◌, ◌≡◌, refl, ap, ◌∙◌, List, [], ◌∷◌, Option, some, ok, ◌>>=◌, length, All, Exec,
  zero, false, true, index, index_total, length-update, arith,
}
use echofront.Base.Words.{add_u64, u64_mod}
use echofront.Http.{Request, Response}
use echofront.Pool.{Pool, Backend}
use echofront.Pool.Change.{changed, record_success_latency_lem, timed_success, update-update}
use echofront.Pool.Outcome.{success_of}
use echofront.Proxy.{Proxy, HandleResult, Attempt, Reply, success, find_pool, sticky_key, decimal}
use echofront.Proxy.Calm.{
  Calm, CalmPool, Alike, served_total, poll-CalmPool, select-CalmPool, replied_by, replied-CalmPool,
}
use echofront.Proxy.Handle.{
  Trip, Round, finished, again, depart, conclude, go_on, round, loop, arrive, serve, routed, handle,
}
use echofront.Proxy.Promise.{find_pool-insert_pool}
use echofront.Proxy.Send.{send_to-answer, replied}
use echofront.Proxy.Trips.{answered_by}
use echofront.Retry.{on_request}
use echofront.Router.{route}
use echofront.Upstream.{Upstream, answered}

-- An upstream of a kind answers every request, and stays of that kind.
abbrev pub Answers {ℓ} : {U : Type ℓ} → Upstream U → (U → Type 0) → Type ℓ
Answers {U = U} upstream G =
    (req : Request) (u : U)
    → G u
    → (resp : Response) × (latency : ℕ) × (u' : U) × (upstream.send req u
        ≡ (record { outcome = answered resp; latency_ms = latency }, u'))
      × G u'

module _ {ℓ} {U : Type ℓ} (upstream : Upstream U) (G : U → Type 0)
    (answers : Answers upstream G) where
  -- The loop's variables after the one attempt.
  abbrev served_by : Trip U → Pool U → ℕ → Attempt → Trip U
  served_by t pool i a = record t { pool = pool; attempts = a ∷ []; first_selected = some i }

  All-at :
      (bs : List (Backend U)) (i : ℕ) (b : Backend U)
      → All (Calm G) bs
      → index bs i ≡ ok b
      → Calm G b
  All-at [] i b a e = cc
  All-at (c ∷ bs) zero b a e = let same : c ≡ b = cc in rw (← same) a.0
  All-at (c ∷ bs) (suc i) b a e = All-at bs i b a.1 e

  -- The node at an index answers, and the round ends.
  answer_lem :
      (now max_retries i : ℕ) (req : Request) (x : Proxy U) (p0 p : Pool U) (b : Backend U)
      → index p.backends i ≡ ok b
      → i < length p.backends
      → CalmPool G p
      → served_total p.backends + 1 < u64_mod
      → (resp : Response) × (a : Attempt) × (p' : Pool U) × (go_on upstream now req max_retries
            (depart x p0)
            (p, some i)
          ≡ ok (finished (success resp) (served_by (depart x p0) p' i a)))
        × CalmPool G p'
        × Alike p.backends p'.backends 1
  unfolding go_on conclude depart
  answer_lem now max_retries i req x p0 p b e at c h =
      let (resp, latency, u', sent, g) =
        answers req b.upstream (All-at p.backends i b c.calm e).kind in
      let t : Trip U = record (depart x p0) { pool = p } in
      let q : Pool U = changed p i (answered_by u') in
      let a : Attempt = record {
        backend = i;
        backend_name = b.name;
        ok = true;
        detail = decimal resp.status;
        latency_ms = latency;
        is_retry = false;
      } in
      let end = λ (r : Pool U). ok (finished (success resp) (served_by t r i a)) in
      let (calm, alike) = replied-CalmPool G p i now u' g at h c in
      (
        resp,
        a,
        changed p i (replied_by G now u'),
        send_to-answer upstream req now max_retries i t b e
            ∙ ap
                (λ s.
                  conclude s.0.outcome s.0.latency_ms i b.name now max_retries
                    (replied upstream req t i (changed p i (answered_by s.1))))
                sent
            ∙ ap (λ m. m >>= end)
                (record_success_latency_lem q i now latency
                  (rw (length-update p.backends i (answered_by u')) at))
            ∙ ap (λ w. end (changed q i (timed_success w now latency))) c.plain
            ∙ ap (λ bs. end (record p { backends = bs }))
                (update-update p.backends i (answered_by u') (success_of now)),
        calm,
        alike,
      )

  -- The loop ends in its first round.
  loop_steady :
      (fuel now max_retries : ℕ) (key : Option (List ℕ)) (req : Request) (x : Proxy U) (p : Pool U)
      → CalmPool G p
      → served_total p.backends + 1 < u64_mod
      → (resp : Response) × (a : Attempt) × (p' : Pool U) × (i : ℕ) × (loop
            (suc fuel)
            upstream
            now
            key
            req
            max_retries
            (depart x p)
          ≡ ok (success resp, served_by (depart x p) p' i a))
        × CalmPool G p'
        × Alike p.backends p'.backends 1
  unfolding loop round depart
  loop_steady fuel now max_retries key req x p c h =
      let (p1, i, picked, at, c1, alike) = select-CalmPool G p now key c in
      let (b, e) = index_total p1.backends i at in
      let (resp, a, p', done, c', alike') =
        answer_lem now max_retries i req x p p1 b e at c1 (omega (arith, alike.total, h)) in
      let next : Round U → Exec (Reply × Trip U) = λ r. elim r [
        | finished reply t' ↦ ok (reply, t')
        | again t' ↦ loop fuel upstream now key req max_retries t'
      ] in
      (
        resp,
        a,
        p',
        i,
        ap (λ m. (m >>= go_on upstream now req max_retries (depart x p)) >>= next) picked
            ∙ ap (λ m. m >>= next) done,
        c',
        (record {
          same_nodes = alike'.same_nodes ∙ alike.same_nodes;
          total = omega (arith, alike'.total, alike.total);
        }),
      )

  -- What a request did: one attempt, which succeeded, at one of the service's nodes.
  pub record Steadily (name : List ℕ) (p : Pool U) (x x' : Proxy U) (r : HandleResult)
      : Type ℓ where
    pub pool : Pool U
    pub found : find_pool name x'.pools ≡ some pool
    pub calm : CalmPool G pool
    pub alike : Alike p.backends pool.backends 1
    pub same_routes : x'.routes ≡ x.routes
    pub retries : x'.total_retries ≡ x.total_retries
    pub failovers : x'.total_failovers ≡ x.total_failovers
    pub answer : Response
    pub answered : r.response ≡ success answer
    pub once : length r.attempts ≡ 1

  serve_steady :
      (now : ℕ) (req : Request) (name : List ℕ) (p : Pool U) (x : Proxy U)
      → CalmPool G p
      → served_total p.backends + 1 < u64_mod
      → (x' : Proxy U) × (r : HandleResult) × (serve upstream x now req name (some p) ≡ ok (x', r))
        × Steadily name p x x' r
  unfolding serve depart arrive
  serve_steady now req name p x c h =
      let m = x.budget.cfg.max_retries_per_request in
      let key = sticky_key x req in
      let (resp, a, p', i, done, c', alike) = loop_steady m now m key req x p c h in
      let out = arrive x name (success resp, served_by (depart x p) p' i a) in
      (
        out.0,
        out.1,
        ap (λ q. loop (suc m) upstream now key req m (depart x q) >>= λ r. ok (arrive x name r))
              (poll-CalmPool G p now c)
            ∙ ap (λ l. l >>= λ r. ok (arrive x name r)) done,
        (record {
          pool = p';
          found = find_pool-insert_pool name p' x.pools;
          calm = c';
          alike = alike;
          same_routes = refl;
          retries = refl;
          failovers = refl;
          answer = resp;
          answered = refl;
          once = refl;
        }),
      )

  -- A request to a service whose nodes are all up, of weight above zero, and whose upstreams answer,
  -- is answered at its first attempt, and one node has served one more.
  pub handle_steady :
      (now : ℕ) (req : Request) (name : List ℕ) (p : Pool U) (x : Proxy U)
      → route x.routes req ≡ some name
      → find_pool name x.pools ≡ some p
      → CalmPool G p
      → served_total p.backends + 1 < u64_mod
      → (x' : Proxy U) × (r : HandleResult) × (handle upstream x now req ≡ ok (x', r))
        × Steadily name p x x' r
  unfolding handle routed
  handle_steady now req name p x here found c h =
      let y : Proxy U = record x {
        total_requests = add_u64 x.total_requests 1;
        budget = on_request x.budget;
      } in
      let (x', r, done, s) = serve_steady now req name p y c h in
      (
        x',
        r,
        ap (routed upstream y now req) here ∙ ap (serve upstream y now req name) found ∙ done,
        (record {
          pool = s.pool;
          found = s.found;
          calm = s.calm;
          alike = s.alike;
          same_routes = s.same_routes;
          retries = s.retries;
          failovers = s.failovers;
          answer = s.answer;
          answered = s.answered;
          once = s.once;
        }),
      )
