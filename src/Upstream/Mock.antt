-- ===== src/Upstream/Mock.antt =====
-- src/upstream.rs: the scripted mock. Its interior cells are one state that each call returns anew.
use echofront.Base.{
  ℕ, zero, suc, ◌+◌, ◌<◌, ◌≡◌, refl, ap, ◌∙◌, Bool, true, false, leb, if◌then◌else◌, List, [], ◌∷◌,
  ◌++◌, arith,
}
use echofront.Base.Words.{add_u64, u64_mod}
use echofront.Http.{Request}
use echofront.Http.Names.{new_response, with_body}
use echofront.Upstream.{
  Upstream, UpstreamReply, UpstreamError, Outcome, answered, failed, server_error,
}

-- `Result<u16, UpstreamError>`.
pub data Planned : Type 0 where
  status : ℕ → Planned
  error : UpstreamError → Planned

pub record Step : Type 0 where
  pub outcome : Planned
  pub latency_ms : ℕ

-- `Step::ok`, `Step::ok_slow` and `Step::fail`.
abbrev pub step_ok : ℕ → Step
step_ok s = record { outcome = status s; latency_ms = 5 }

abbrev pub step_ok_slow : ℕ → ℕ → Step
step_ok_slow s latency_ms = record { outcome = status s; latency_ms = latency_ms }

abbrev pub step_fail : UpstreamError → Step
step_fail e = record { outcome = error e; latency_ms = 5 }

pub record MockUpstream : Type 0 where
  pub name : List ℕ
  pub script : List Step
  pub default : Step
  pub probes : List Bool
  pub probe_default : Bool
  pub calls : ℕ
  pub probe_calls : ℕ

-- `MockUpstream::new`, which `healthy` is too.
abbrev pub new_mock : List ℕ → MockUpstream
new_mock name = record {
  name = name;
  script = [];
  default = step_ok 200;
  probes = [];
  probe_default = true;
  calls = 0;
  probe_calls = 0;
}

abbrev pub always_failing : List ℕ → UpstreamError → MockUpstream
always_failing name e = record (new_mock name) { default = step_fail e; probe_default = false }

abbrev pub with_default : MockUpstream → Step → MockUpstream
with_default m step = record m { default = step }

abbrev pub with_probe_default : MockUpstream → Bool → MockUpstream
with_probe_default m live = record m { probe_default = live }

-- `push` and `push_many`, `push_probe` and `push_probes`.
abbrev pub push_many : MockUpstream → List Step → MockUpstream
push_many m steps = record m { script = m.script ++ steps }

abbrev pub push_probes : MockUpstream → List Bool → MockUpstream
push_probes m results = record m { probes = m.probes ++ results }

-- `pop_front().unwrap_or(default)`: the element, and the rest of the queue.
abbrev pub pop_front {ℓ} : {A : Type ℓ} → List A → A → A × List A
pop_front [] default = (default, [])
pop_front (x ∷ xs) default = (x, xs)

abbrev outcome_of : List ℕ → Planned → Outcome
outcome_of name (status s) =
    if leb 500 s then failed (server_error s) else answered (with_body (new_response s) name)
outcome_of name (error e) = failed e

abbrev pub reply_of : List ℕ → Step → UpstreamReply
reply_of name step = record { outcome = outcome_of name step.outcome; latency_ms = step.latency_ms }

-- `send` and `probe` of the mock.
unfoldable pub send_mock : Request → MockUpstream → UpstreamReply × MockUpstream
unfolding with_body new_response
send_mock req m =
    let (step, script) = pop_front m.script m.default in
    (reply_of m.name step, record m { script = script; calls = add_u64 m.calls 1 })

unfoldable pub probe_mock : MockUpstream → Bool × MockUpstream
probe_mock m =
    let (live, probes) = pop_front m.probes m.probe_default in
    (live, record m { probes = probes; probe_calls = add_u64 m.probe_calls 1 })

abbrev pub mock : Upstream MockUpstream
mock = record { send = send_mock; probe = probe_mock }

-- The mock after `n` requests.
unfoldable pub sent : ℕ → Request → MockUpstream → MockUpstream
unfolding send_mock
sent zero req m = m
sent (suc n) req m = sent n req (send_mock req m).1

-- The step of the `n`th request: of the script, or the default past its end.
abbrev pub step_at : List Step → ℕ → Step → Step
step_at [] n default = default
step_at (s ∷ script) zero default = s
step_at (s ∷ script) (suc n) default = step_at script n default

step_at-front :
    (script : List Step) (default : Step) → (pop_front script default).0 ≡ step_at script 0 default
step_at-front [] default = refl
step_at-front (s ∷ script) default = refl

step_at-pop :
    (script : List Step) (n : ℕ) (default : Step)
    → step_at (pop_front script default).1 n default ≡ step_at script (suc n) default
step_at-pop [] n default = refl
step_at-pop (s ∷ script) n default = refl

-- The mock answers the `n`th request with the `n`th step of its script, or with its default past
-- the end of the script, and counts every request.
pub send_mock-sent :
    (n : ℕ) (req : Request) (m : MockUpstream)
    → m.calls + n < u64_mod
    → ((send_mock req (sent n req m)).0 ≡ reply_of m.name (step_at m.script n m.default))
      × ((sent n req m).calls ≡ m.calls + n)
unfolding send_mock sent
send_mock-sent zero req m h = (ap (reply_of m.name) (step_at-front m.script m.default), omega arith)
send_mock-sent (suc n) req m h =
    let counted : add_u64 m.calls 1 ≡ m.calls + 1 = omega (arith, h) in
    let (reply, calls) = send_mock-sent n req (send_mock req m).1 (omega (arith, h, counted)) in
    (
      reply ∙ ap (reply_of m.name) (step_at-pop m.script n m.default),
      calls ∙ omega (arith, counted),
    )
