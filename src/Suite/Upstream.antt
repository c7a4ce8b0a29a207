-- ===== src/Suite/Upstream.antt =====
-- src/upstream.rs, its tests.
use echofront.Base.{◌≡◌, refl, Bool, true, false, not, ◌&&◌, ◌==◌, [], ◌∷◌}
use echofront.Http.{Request, bytes, get, new_request}
use echofront.Suite.{all_of, answers, fails_with}
use echofront.Upstream.{timeout, connection, server_error}
use echofront.Upstream.Mock.{
  new_mock, push_many, push_probes, with_probe_default, always_failing, step_ok, step_fail,
  send_mock, probe_mock,
}

-- `Request::get("/")`.
abbrev slash : Request
slash = new_request get (bytes "/")

abbrev scripted_then_default : Bool
scripted_then_default =
    let m =
      push_many (push_many (new_mock (bytes "a")) (step_ok 201 ∷ [])) (step_fail timeout ∷ []) in
    let (r1, m1) = send_mock slash m in
    let (r2, m2) = send_mock slash m1 in
    let (r3, m3) = send_mock slash m2 in
    all_of (
      answers r1.outcome 201
      ∷ fails_with r2.outcome timeout
      ∷ answers r3.outcome 200
      ∷ (m3.calls == 3)
      ∷ [])

scripted_then_default_test : scripted_then_default ≡ true
unfolding send_mock
scripted_then_default_test = refl

abbrev five_hundred_maps_to_error : Bool
five_hundred_maps_to_error =
    let m = push_many (new_mock (bytes "a")) (step_ok 503 ∷ []) in
    fails_with (send_mock slash m).0.outcome (server_error 503)

five_hundred_maps_to_error_test : five_hundred_maps_to_error ≡ true
unfolding send_mock
five_hundred_maps_to_error_test = refl

abbrev probe_script_and_default : Bool
probe_script_and_default =
    let m = push_probes (with_probe_default (new_mock (bytes "a")) true) (false ∷ false ∷ []) in
    let (p1, m1) = probe_mock m in
    let (p2, m2) = probe_mock m1 in
    let (p3, m3) = probe_mock m2 in all_of (not p1 ∷ not p2 ∷ p3 ∷ (m3.probe_calls == 3) ∷ [])

probe_script_and_default_test : probe_script_and_default ≡ true
unfolding probe_mock
probe_script_and_default_test = refl

abbrev always_failing_helper : Bool
always_failing_helper =
    let m = always_failing (bytes "bad") connection in
    let (live, m') = probe_mock m in
    not live && fails_with (send_mock slash m').0.outcome connection

always_failing_helper_test : always_failing_helper ≡ true
unfolding probe_mock send_mock
always_failing_helper_test = refl
