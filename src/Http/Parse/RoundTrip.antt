-- ===== src/Http/Parse/RoundTrip.antt =====
-- src/http.rs, `Request::parse`: a request that is written out is read back.
use mathlib.Core.List.{append_assoc, append-nil}
use echofront.Base.{
  ℕ, ◌≡◌, refl, sym, ap, ◌∙◌, false, List, [], ◌∷◌, ◌++◌, map, All, All-append, All-mono, arith,
}
use echofront.Http.{Request, bytes}
use echofront.Http.Names.{parse_method}
use echofront.Http.Parse.{
  parsed, is_whitespace, utf8, split_once, split_lines, is_nil, trim_cr, split_head, header_line,
  header_lines, parse_parts, parse,
}
use echofront.Http.Parse.Text.{
  RequestText, crlf, header_text, headers_text, line_text, render, OneLine, IsWord, IsHeader,
  IsText,
}
use echofront.Http.Parse.Split.{
  split_headers, split_once-append, prepend_all, prepend_all-some, no_cr,
}
use echofront.Http.Parse.Lines.{
  split_lines-append, no_lf, trim_cr-crlf, trim_cr_lem, header_line-text, request_line-text,
}

split_lines-crlf :
    (s : List ℕ) → split_lines (crlf s) ≡ (b'\r' ∷ [], (split_lines s).0 ∷ (split_lines s).1)
unfolding split_lines
split_lines-crlf s = refl

header_lines-cons :
    (raw line : List ℕ) (lines : List (List ℕ)) {h : List ℕ × List ℕ} {hs : List (List ℕ × List ℕ)}
    → trim_cr raw ≡ line
    → is_nil line ≡ false
    → header_line line ≡ parsed h
    → header_lines lines ≡ parsed hs
    → header_lines (raw ∷ lines) ≡ parsed (h ∷ hs)
unfolding header_lines
header_lines-cons raw line lines e n one rest = rw (e, n, one, rest) refl

is_nil-header_text : (name value s : List ℕ) → is_nil (header_text (name, value) s) ≡ false
is_nil-header_text [] value s = refl
is_nil-header_text (c ∷ name) value s = refl

OneLine-header_text :
    (name value : List ℕ) → OneLine name → OneLine value → OneLine (header_text (name, value) [])
OneLine-header_text name value on ov =
    All-append _ name (b':' ∷ b' ' ∷ (value ++ [])) on
      ((omega arith, omega arith), ((omega arith, omega arith), All-append _ value [] ov tt))

header_text-append :
    (name value s : List ℕ) → header_text (name, value) s ≡ header_text (name, value) [] ++ s
header_text-append name value s =
    ap (λ x. name ++ (b':' ∷ b' ' ∷ (x ++ s))) (sym (append-nil value))
    ∙ sym (append_assoc name (b':' ∷ b' ' ∷ (value ++ [])) s)

-- The headers of a request, as bytes.
abbrev pub header_bytes : List (List ℕ × List ℕ) → List (List ℕ × List ℕ)
header_bytes = map λ h. (utf8 h.0, utf8 h.1)

-- A line and the headers below it are read back.
read_lines :
    (t : List ℕ) (headers : List (List ℕ × List ℕ))
    → OneLine t
    → All IsHeader headers
    → (trim_cr (split_lines (t ++ headers_text headers)).0 ≡ t)
      × (header_lines (split_lines (t ++ headers_text headers)).1 ≡ parsed (header_bytes headers))
unfolding header_lines split_lines
read_lines t [] one h =
    let e = split_lines-append t [] (no_lf t one) in
    (
      ap (λ l. trim_cr l.0) e ∙ ap trim_cr (append-nil t) ∙ trim_cr_lem t (no_cr t one),
      ap (λ l. header_lines l.1) e,
    )
read_lines t ((name, value) ∷ headers) one (h, hs) =
    let rest = header_text (name, value) (headers_text headers) in
    let e =
      split_lines-append t (crlf rest) (no_lf t one)
      ∙ ap (λ l. (t ++ l.0, l.1)) (split_lines-crlf rest) in
    let regroup = header_text-append name value (headers_text headers) in
    let (line, lines) =
      read_lines (header_text (name, value) []) headers (OneLine-header_text name value h.0 h.1)
        hs in
    (
      ap (λ l. trim_cr l.0) e ∙ trim_cr-crlf t (no_cr t one),
      ap (λ l. header_lines l.1) e
          ∙ header_lines-cons (split_lines rest).0 (header_text (name, value) [])
              (split_lines rest).1 (ap (λ s. trim_cr (split_lines s).0) regroup ∙ line)
              (is_nil-header_text name value []) (header_line-text name value h)
              (ap (λ s. header_lines (split_lines s).1) regroup ∙ lines),
    )

OneLine-word : (s : List ℕ) → IsWord s → OneLine s
unfolding is_whitespace
OneLine-word s w = All-mono _ _ s (λ c h. (ground (arith, h), ground (arith, h))) w.1

OneLine-line_text : (r : RequestText) → IsText r → OneLine (line_text r)
OneLine-line_text r t =
    All-append _ r.method (b' ' ∷ (r.path ++ (b' ' ∷ r.version))) (OneLine-word r.method t.method) (
      (omega arith, omega arith),
      All-append _ r.path (b' ' ∷ r.version) (OneLine-word r.path t.path)
          ((omega arith, omega arith), OneLine-word r.version t.version),
    )

-- The head and the body come apart where they were joined.
split_head-render :
    (r : RequestText)
    → IsText r
    → split_head (render r) ≡ (line_text r ++ headers_text r.headers, r.body)
unfolding split_head render
split_head-render r t =
    let head = headers_text r.headers in
    let found =
      ap (split_once (bytes "\r\n\r\n")) (append_assoc (line_text r) head (crlf (crlf r.body)))
      ∙ split_once-append b'\r' (bytes "\n\r\n") (line_text r) (head ++ crlf (crlf r.body))
          (no_cr (line_text r) (OneLine-line_text r t))
      ∙ ap (prepend_all (line_text r)) (split_headers r.headers r.body t.headers)
      ∙ prepend_all-some (line_text r) head r.body in
    rw (found, split_head) refl

-- The request that a text stands for.
abbrev pub request_of : RequestText → Request
request_of r = record {
  method = parse_method (utf8 r.method);
  path = utf8 r.path;
  version = utf8 r.version;
  headers = header_bytes r.headers;
  body = utf8 r.body;
}

parse_parts-text :
    (r : RequestText) (first : List ℕ) (lines : List (List ℕ))
    → IsText r
    → trim_cr first ≡ line_text r
    → header_lines lines ≡ parsed (header_bytes r.headers)
    → parse_parts first lines r.body ≡ parsed (request_of r)
unfolding parse_parts
parse_parts-text r first lines t e hs =
    rw (e, request_line-text r.method r.path r.version t.method t.path t.version, hs) refl

-- A request whose method, path and version are words, and whose header names and values are
-- trimmed, have no line end and, the names, no colon, is read back from its text, with the same
-- parts; whatever its body is.
pub parse-render : (r : RequestText) → IsText r → parse (render r) ≡ parsed (request_of r)
unfolding parse
parse-render r t =
    let head = line_text r ++ headers_text r.headers in
    let (first, lines) = read_lines (line_text r) r.headers (OneLine-line_text r t) t.headers in
    ap (λ h. parse_parts (split_lines h.0).0 (split_lines h.0).1 h.1) (split_head-render r t)
    ∙ parse_parts-text r (split_lines head).0 (split_lines head).1 t first lines
