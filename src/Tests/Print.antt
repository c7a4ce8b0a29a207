-- ===== src/Tests/Print.antt =====
-- src/bin/echofront.rs: the mode of an invocation, and what the first steps of `demo` print.
use echofront.Base.{ℕ, ◌≡◌, refl, List, [], ◌∷◌, none, some, Exec, ok, ◌>>=◌}
use echofront.Base.Int.{◌+ℤ◌, ◌-ℤ◌}
use echofront.Base.Words.{wrap_i64}
use echofront.Clock.{advance, now_millis}
use echofront.Demo.{calm, failing, burst, demo_scene, send, wait}
use echofront.Demo.Print.{demo, spread, usage, unknown, mode_of, print_pool_state, send_line}
use echofront.Http.{bytes, to_ascii_lowercase}
use echofront.Pool.{weighted, least_connections, is_ejected, is_available}
use echofront.Upstream.Mock.{send_mock}

mode_test :
    (mode_of none none ≡ demo)
    × (mode_of (some (bytes "spread")) none ≡ spread weighted)
    × (mode_of (some (bytes "spread")) (some (bytes "least-conn")) ≡ spread least_connections)
    × (mode_of (some (bytes "spread")) (some (bytes "fastest")) ≡ spread weighted)
    × (mode_of (some (bytes "-h")) none ≡ usage)
    × (mode_of (some (bytes "run")) none ≡ unknown (bytes "run"))
unfolding mode_of to_ascii_lowercase
mode_test = (refl, refl, refl, refl, refl, refl)

-- After the second step, C is ejected and its breaker is closed.
pool_state_test :
    (failing >>= λ s. print_pool_state s (bytes "shop"))
    ≡ ok (
        bytes "  node    healthy   in_fl   breaker    ejected   served"
        ∷ bytes "  A          true       0    Closed         no        8"
        ∷ bytes "  B          true       0    Closed         no       10"
        ∷ bytes "  C          true       0    Closed        yes        6"
        ∷ [])
unfolding burst demo_scene is_ejected now_millis advance is_available send_mock wrap_i64 ◌+ℤ◌ ◌-ℤ◌
    print_pool_state
pool_state_test = refl

-- The line of the sixth request of the second step.
abbrev sixth : Exec (List ℕ)
sixth = do
  s ← calm
  s' ← burst 5 0 (bytes "/checkout?o=") s
  (s'', res) ← send (wait 50 s') (bytes "/checkout?o=5") none
  ok (send_line (bytes "/checkout?o=5") res)

send_line_test :
    sixth ≡ ok (bytes "  200 /checkout?o=5 -> shop  [C(server error 503 FAIL) retry->A(200 ok)]")
unfolding burst demo_scene is_ejected now_millis advance is_available send_mock wrap_i64 ◌+ℤ◌ ◌-ℤ◌
    send send_line
send_line_test = refl
