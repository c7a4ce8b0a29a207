-- ===== src/Tests/Text.antt =====
-- src/http.rs, src/pool.rs, src/rng.rs and src/clock.rs at concrete inputs: texts, and the small
-- parts.
use echofront.Base.{◌^◌, ◌+◌, ℕ, ◌≡◌, refl, List, [], ◌∷◌, some, arith}
use echofront.Base.Words.{u64_max}
use echofront.Clock
use echofront.Clock.{now_millis, advance, system_now_millis}
use echofront.Http.{bytes, to_ascii_lowercase}
use echofront.Http.Parse.{parsed, rejected, malformed_header, parse, is_whitespace, trim}
use echofront.Http.Parse.Text.{RequestText, IsText, render}
use echofront.Http.Parse.RoundTrip.{request_of, parse-render}
use echofront.Http.Parse.Outcome.{Verdict, parse-Verdict}
use echofront.Pool.{least_connections}
use echofront.Pool.Spelling.{parse_strategy, strategy_name, parse_strategy-name}

abbrev hello : RequestText
hello = record {
  method = bytes "POST";
  path = bytes "/users?id=7";
  version = bytes "HTTP/1.1";
  headers = (bytes "Host", bytes "api.local") ∷ (bytes "X-Session-Id", bytes "alice b") ∷ [];
  body = bytes "a\r\n\r\nb";
}

hello-IsText : IsText hello
unfolding is_whitespace trim
hello-IsText = record {
  method = ground arith;
  path = ground arith;
  version = ground arith;
  headers = ground arith;
}

parse-render_example : parse (render hello) ≡ parsed (request_of hello)
parse-render_example = parse-render hello hello-IsText

abbrev broken : List ℕ
broken = bytes "GET / HTTP/1.1\r\nHost: a\r\nno colon here\r\n\r\nbody"

parse-Verdict_example : Verdict broken (parse broken)
parse-Verdict_example = parse-Verdict broken

parse_test : parse broken ≡ rejected (malformed_header (bytes "no colon here"))
unfolding parse
parse_test = refl

-- With bare line feeds, a body that has an empty line of its own with carriage returns is taken for
-- headers.
parse_body_test :
    parse (bytes "GET / HTTP/1.1\nHost: a\n\nx\r\n\r\ny") ≡ rejected (malformed_header (bytes "x"))
unfolding parse
parse_body_test = refl

parse_strategy-name_example : parse_strategy (bytes "LEAST-Conn") ≡ some least_connections
unfolding strategy_name to_ascii_lowercase
parse_strategy-name_example = parse_strategy-name least_connections (bytes "LEAST-Conn") refl

-- The manual clock stops at the end of its range, and so does the machine's.
clock_test :
    now_millis (advance (advance (Clock.new 5) 10) u64_max) ≡ system_now_millis (some (2 ^ 64 + 7))
unfolding now_millis advance Clock.new system_now_millis
clock_test = refl
