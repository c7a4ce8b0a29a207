-- ===== src/Tests/Wire.antt =====
-- src/http.rs and src/upstream.rs at concrete inputs.
use echofront.Base.{◌+◌, ◌≡◌, [], ◌∷◌, arith}
use echofront.Http.{Request, bytes, get}
use echofront.Upstream.{timeout}
use echofront.Upstream.Mock.{
  MockUpstream, new_mock, push_many, step_ok, step_fail, step_at, send_mock, reply_of, sent,
  send_mock-sent,
}

abbrev scripted : MockUpstream
scripted = push_many (new_mock (bytes "a")) (step_fail timeout ∷ step_ok 503 ∷ [])

abbrev request : Request
request = record {
  method = get;
  path = bytes "/";
  version = bytes "HTTP/1.1";
  headers = [];
  body = [];
}

send_mock-sent_example :
    ((send_mock request (sent 2 request scripted)).0
      ≡ reply_of scripted.name (step_at scripted.script 2 scripted.default))
    × ((sent 2 request scripted).calls ≡ 0 + 2)
send_mock-sent_example = send_mock-sent 2 request scripted (omega arith)
