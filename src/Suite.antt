-- ===== src/Suite.antt =====
-- The program's own unit tests, run on the model: each is the conjunction of what the test asserts.
pub mod Breaker
pub mod Numbers
pub mod Router
pub mod Wire
pub mod Upstream
pub mod Pool
pub mod Proxy
pub mod Ring
use echofront.Base.{
  ℕ, zero, suc, Bool, true, false, ◌&&◌, ◌==◌, List, [], ◌∷◌, Option, none, some, list_eq,
}
use echofront.Breaker.{BreakerState, closed, opened, half_open}
use echofront.Upstream.{UpstreamError, timeout, connection, server_error, Outcome, answered, failed}

-- Every assertion of a test.
abbrev pub all_of : List Bool → Bool
all_of [] = true
all_of (b ∷ bs) = b && all_of bs

-- `for _ in 0..n`.
abbrev pub times {ℓ} : {A : Type ℓ} → ℕ → (A → A) → A → A
times zero f a = a
times (suc n) f a = times n f (f a)

-- The equality tests of `assert_eq!`.
abbrev pub same_state : BreakerState → BreakerState → Bool
same_state closed closed = true
same_state opened opened = true
same_state half_open half_open = true
same_state _ _ = false

abbrev pub is_index : Option ℕ → ℕ → Bool
is_index none i = false
is_index (some j) i = j == i

abbrev pub same_choice : Option ℕ → Option ℕ → Bool
same_choice none none = true
same_choice (some i) (some j) = i == j
same_choice _ _ = false

abbrev pub is_text : Option (List ℕ) → List ℕ → Bool
is_text none s = false
is_text (some t) s = list_eq t s

abbrev pub is_missing {ℓ} : {A : Type ℓ} → Option A → Bool
is_missing none = true
is_missing (some a) = false

abbrev pub same_error : UpstreamError → UpstreamError → Bool
same_error timeout timeout = true
same_error connection connection = true
same_error (server_error s) (server_error t) = s == t
same_error _ _ = false

abbrev pub answers : Outcome → ℕ → Bool
answers (answered resp) status = resp.status == status
answers (failed e) status = false

abbrev pub fails_with : Outcome → UpstreamError → Bool
fails_with (answered resp) e = false
fails_with (failed e') e = same_error e' e
