-- ===== src/Http/Parse/Outcome.antt =====
-- src/http.rs, `Request::parse`: what each error says of the text, and what a request owes to it.
use echofront.Base.{
  ℕ, ◌<◌, ◌≡◌, ◌⊎◌, inl, inr, refl, ap, Bool, true, false, not, ◌&&◌, if◌then◌else◌, List, [], ◌∷◌,
  ◌++◌, Option, none, some, All, length, contains, arith,
}
use echofront.Http.{Request, bytes}
use echofront.Http.Names.{parse_method}
use echofront.Http.Parse.Divides.{
  First, Once, Divides, split_once-Once, split_head-Divides, LinesOf, split_lines-LinesOf,
}
use echofront.Http.Parse.{
  ParseError, empty, malformed_request_line, malformed_header, Parsed, parsed, rejected, ◌>>=◌,
  utf8, strip_prefix, prepend, split_once, split_lines, is_nil, trim, trim_cr, split_whitespace,
  split_head, request_parts, request_line, header_line, header_lines, parse_parts, parse,
}

-- A line that is neither empty nor has a colon.
abbrev pub is_broken : List ℕ → Bool
is_broken raw = not (is_nil (trim_cr raw)) && not (contains (trim_cr raw) b':')

-- The headers of the lines that are not empty, in order: a name before the first colon of its line
-- and a value after it, both trimmed.
abbrev pub Headers : List (List ℕ) → List (List ℕ × List ℕ) → Type 0
Headers [] hs = hs ≡ []
Headers (raw ∷ lines) hs =
    ((is_nil (trim_cr raw) ≡ true) × Headers lines hs)
    ⊎ ((is_nil (trim_cr raw) ≡ false)
        × ((name : List ℕ) × (value : List ℕ) × (rest : List (List ℕ × List ℕ)) × First (b':' ∷ [])
              (trim_cr raw) name value
            × (hs ≡ (utf8 (trim name), utf8 (trim value)) ∷ rest)
            × Headers lines rest))

-- The first broken line, if any.
abbrev pub FirstBroken : List (List ℕ) → List ℕ → Type 0
FirstBroken lines line =
    (before : List (List ℕ)) × (raw : List ℕ) × (after : List (List ℕ)) × (lines
      ≡ before ++ raw ∷ after)
    × (trim_cr raw ≡ line)
    × (is_broken raw ≡ true)
    × All (λ l. is_broken l ≡ false) before

-- The version that is named after the path, if any.
abbrev pub version_of : List (List ℕ) → List ℕ
version_of [] = bytes "HTTP/1.1"
version_of (version ∷ more) = version

-- What each outcome says of the first line, without the carriage returns at its end, the lines below
-- it and the body.
abbrev pub VerdictOn : List ℕ → List (List ℕ) → List ℕ → Parsed Request → Type 0
VerdictOn first lines body (rejected empty) = is_nil (trim first) ≡ true
VerdictOn first lines body (rejected malformed_request_line) =
    (is_nil (trim first) ≡ false) × (length (split_whitespace first) < 2)
VerdictOn first lines body (rejected (malformed_header text)) =
    (is_nil (trim first) ≡ false)
    × (1 < length (split_whitespace first))
    × ((line : List ℕ) × (text ≡ utf8 line) × FirstBroken lines line)
VerdictOn first lines body (parsed r) =
    (is_nil (trim first) ≡ false)
    × ((method : List ℕ) × (path : List ℕ) × (more : List (List ℕ)) × (split_whitespace first
          ≡ method ∷ path ∷ more)
        × (r.method ≡ parse_method (utf8 method))
        × (r.path ≡ utf8 path)
        × (r.version ≡ utf8 (version_of more)))
    × All (λ l. is_broken l ≡ false) lines
    × Headers lines r.headers
    × (r.body ≡ utf8 body)

-- What each outcome says of a text.
abbrev pub Verdict : List ℕ → Parsed Request → Type 0
Verdict raw outcome =
    (head : List ℕ) × (body : List ℕ) × (first : List ℕ) × (lines : List (List ℕ)) × Divides raw
      head body
    × LinesOf head first lines
    × VerdictOn (trim_cr first) lines body outcome

abbrev is_some {ℓ} : {A : Type ℓ} → Option A → Bool
is_some none = false
is_some (some a) = true

is_some-prepend : (c : ℕ) (o : Option (List ℕ × List ℕ)) → is_some (prepend c o) ≡ is_some o
is_some-prepend c none = refl
is_some-prepend c (some (before, after)) = refl

contains-split_once : (c : ℕ) (s : List ℕ) → contains s c ≡ is_some (split_once (c ∷ []) s)
unfolding split_once strip_prefix
contains-split_once c [] = refl
contains-split_once c (d ∷ s) =
    ground (arith, contains-split_once c s, is_some-prepend d (split_once (c ∷ []) s))

-- The lines are read one by one, up to the first that is broken.
abbrev LinesVerdict : List (List ℕ) → Parsed (List (List ℕ × List ℕ)) → Type 0
LinesVerdict lines (parsed hs) = All (λ l. is_broken l ≡ false) lines × Headers lines hs
LinesVerdict lines (rejected empty) = ⊥
LinesVerdict lines (rejected malformed_request_line) = ⊥
LinesVerdict lines (rejected (malformed_header text)) =
    (line : List ℕ) × (text ≡ utf8 line) × FirstBroken lines line

abbrev header_of : List ℕ → Option (List ℕ × List ℕ) → Parsed (List ℕ × List ℕ)
header_of line none = rejected (malformed_header (utf8 line))
header_of line (some (name, value)) = parsed (utf8 (trim name), utf8 (trim value))

fine :
    (raw : List ℕ) (lines : List (List ℕ)) (line : List ℕ)
    → is_broken raw ≡ false
    → FirstBroken lines line
    → FirstBroken (raw ∷ lines) line
fine raw lines line h (before, broken, after, place, trimmed, b, all) =
    (raw ∷ before, broken, after, ap (◌∷◌ raw) place, trimmed, b, (h, all))

-- A line that may stay does not change the verdict on a rejection.
pass :
    (raw : List ℕ) (lines : List (List ℕ)) (e : ParseError)
    → is_broken raw ≡ false
    → LinesVerdict lines (rejected e)
    → LinesVerdict (raw ∷ lines) (rejected e)
pass raw lines empty h v = v
pass raw lines malformed_request_line h v = v
pass raw lines (malformed_header text) h (line, same, first) =
    (line, same, fine raw lines line h first)

lines_cons :
    (raw : List ℕ) (lines : List (List ℕ)) (blank : Bool) (o : Option (List ℕ × List ℕ))
    (rest : Parsed (List (List ℕ × List ℕ)))
    → is_nil (trim_cr raw) ≡ blank
    → contains (trim_cr raw) b':' ≡ is_some o
    → Once (b':' ∷ []) (trim_cr raw) o
    → LinesVerdict lines rest
    → LinesVerdict (raw ∷ lines) (
        if blank then rest else (header_of (trim_cr raw) o >>= λ h. rest >>= λ hs. parsed (h ∷ hs)))
lines_cons raw lines true o (parsed hs) e c f v = ((ground (arith, e), v.0), inl (e, v.1))
lines_cons raw lines true o (rejected err) e c f v = pass raw lines err (ground (arith, e)) v
lines_cons raw lines false none rest e c f v =
    (trim_cr raw, refl, ([], raw, lines, refl, refl, ground (arith, e, c), tt))
lines_cons raw lines false (some (name, value)) (parsed hs) e c f v =
    ((ground (arith, c), v.0), inr (e, (name, value, hs, f, refl, v.1)))
lines_cons raw lines false (some (name, value)) (rejected err) e c f v =
    pass raw lines err (ground (arith, c)) v

header_line-header_of :
    (line : List ℕ) (o : Option (List ℕ × List ℕ))
    → split_once (b':' ∷ []) line ≡ o
    → header_line line ≡ header_of line o
unfolding header_line
header_line-header_of line none e = rw (e, header_line) refl
header_line-header_of line (some r) e = rw (e, header_line) refl

lines_verdict : (lines : List (List ℕ)) → LinesVerdict lines (header_lines lines)
unfolding header_lines
lines_verdict [] = (tt, refl)
lines_verdict (raw ∷ lines) =
    let o = split_once (b':' ∷ []) (trim_cr raw) in
    rw (header_line-header_of (trim_cr raw) o refl) (
      lines_cons raw lines (is_nil (trim_cr raw)) o (header_lines lines) refl
        (contains-split_once b':' (trim_cr raw)) (split_once-Once b':' [] (trim_cr raw))
        (lines_verdict lines))

-- The verdict on the request line's words, and then on the lines below it.
parts-Verdict :
    (first : List ℕ) (lines : List (List ℕ)) (body : List ℕ) (blank : Bool) (words : List (List ℕ))
    (hs : Parsed (List (List ℕ × List ℕ)))
    → is_nil (trim first) ≡ blank
    → split_whitespace first ≡ words
    → LinesVerdict lines hs
    → VerdictOn first lines body (
        (if blank then rejected empty else request_parts words) >>= λ parts. hs >>= λ headers.
        parsed (record {
          method = parse_method (utf8 parts.method);
          path = utf8 parts.path;
          version = utf8 parts.version;
          headers = headers;
          body = utf8 body;
        }))
unfolding request_parts
parts-Verdict first lines body true words hs e w v = e
parts-Verdict first lines body false [] hs e w v = (e, rw w (omega arith))
parts-Verdict first lines body false (m ∷ []) hs e w v = (e, rw w (omega arith))
parts-Verdict first lines body false (m ∷ p ∷ []) (parsed hs) e w v =
    (e, (m, p, [], w, refl, refl, refl), v.0, v.1, refl)
parts-Verdict first lines body false (m ∷ p ∷ x ∷ more) (parsed hs) e w v =
    (e, (m, p, x ∷ more, w, refl, refl, refl), v.0, v.1, refl)
parts-Verdict first lines body false (m ∷ p ∷ []) (rejected (malformed_header text)) e w v =
    (e, rw w (omega arith), v)
parts-Verdict first lines body false (m ∷ p ∷ x ∷ more) (rejected (malformed_header text)) e w v =
    (e, rw w (omega arith), v)
parts-Verdict first lines body false (m ∷ p ∷ []) (rejected empty) e w v = absurd v
parts-Verdict first lines body false (m ∷ p ∷ x ∷ more) (rejected empty) e w v = absurd v
parts-Verdict first lines body false (m ∷ p ∷ []) (rejected malformed_request_line) e w v = absurd v
parts-Verdict first lines body false (m ∷ p ∷ x ∷ more) (rejected malformed_request_line) e w v =
    absurd v

-- The outcome of `parse` on any text. The text is divided at the first CR LF CR LF anywhere, or
-- without one at the first LF LF, or else is all head. The outcome is `empty` exactly when the
-- head's first line is blank; `malformed_request_line`, when the line has fewer than two words;
-- `malformed_header`, when some line below is neither empty nor has a colon, with the first such
-- line; and otherwise a request whose method and path are the first two words and whose version is
-- the third, or HTTP/1.1 without one, with a header for each line that is not empty, its name and
-- its value what is before and after the first colon, trimmed, and with what follows the blank line
-- as its body.
pub parse-Verdict : (raw : List ℕ) → Verdict raw (parse raw)
unfolding parse parse_parts request_line
parse-Verdict raw =
    let head = (split_head raw).0 in
    let body = (split_head raw).1 in
    let first = (split_lines head).0 in
    let lines = (split_lines head).1 in
    (
      head,
      body,
      first,
      lines,
      split_head-Divides raw,
      split_lines-LinesOf head,
      parts-Verdict (trim_cr first) lines body (is_nil (trim (trim_cr first)))
          (split_whitespace (trim_cr first)) (header_lines lines) refl refl (lines_verdict lines),
    )
