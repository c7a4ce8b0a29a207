-- ===== src/Http/Parse.antt =====
-- src/http.rs, `Request::parse`. The raw text is the list of its code points, since Rust splits a
-- `str` by characters; the texts of the result are UTF-8 bytes, as everywhere.
pub mod Text
pub mod Split
pub mod Divides
pub mod Lines
pub mod RoundTrip
pub mod Outcome
use echofront.Base.{
  ℕ, ◌+◌, ◌-◌, ◌*◌, ◌/◌, ◌%◌, ◌^◌, Bool, true, false, ◌&&◌, ◌||◌, ltb, leb, ◌==◌, if◌then◌else◌,
  List, [], ◌∷◌, ◌++◌, Option, none, some,
}
use echofront.Http.{Request, bytes}
use echofront.Http.Names.{parse_method}

pub data ParseError : Type 0 where
  empty malformed_request_line : ParseError
  malformed_header : List ℕ → ParseError

-- `Result<_, ParseError>`.
pub data Parsed {ℓ} (A : Type ℓ) : Type ℓ where
  parsed : A → Parsed A
  rejected : ParseError → Parsed A

infixl 5 ◌>>=◌
abbrev pub ◌>>=◌ {ℓ κ} : {A : Type ℓ} {B : Type κ} → Parsed A → (A → Parsed B) → Parsed B
parsed a >>= f = f a
rejected e >>= f = rejected e

-- `char::is_whitespace`: the code points with the Unicode property White_Space.
unfoldable pub is_whitespace : ℕ → Bool
is_whitespace c =
    (leb 0x9 c && leb c 0xd)
    || c == 0x20
    || c == 0x85
    || c == 0xa0
    || c == 0x1680
    || (leb 0x2000 c && leb c 0x200a)
    || c == 0x2028
    || c == 0x2029
    || c == 0x202f
    || c == 0x205f
    || c == 0x3000

-- The UTF-8 bytes of a code point, and of a text.
unfoldable pub utf8_char : ℕ → List ℕ
utf8_char c =
    if ltb c 0x80
    then c ∷ []
    else if ltb c 0x800
    then (0xc0 + c / 64) ∷ (0x80 + c % 64) ∷ []
    else if ltb c 0x10000
    then (0xe0 + c / 4_096) ∷ (0x80 + c / 64 % 64) ∷ (0x80 + c % 64) ∷ []
    else (0xf0 + c / 262_144)
      ∷ (0x80 + c / 4_096 % 64)
      ∷ (0x80 + c / 64 % 64)
      ∷ (0x80 + c % 64)
      ∷ []

unfoldable pub utf8 : List ℕ → List ℕ
unfolding utf8_char
utf8 [] = []
utf8 (c ∷ s) = utf8_char c ++ utf8 s

-- `str::strip_prefix`.
unfoldable pub strip_prefix : List ℕ → List ℕ → Option (List ℕ)
strip_prefix [] s = some s
strip_prefix (p ∷ pat) [] = none
strip_prefix (p ∷ pat) (c ∷ s) = if p == c then strip_prefix pat s else none

abbrev pub prepend : ℕ → Option (List ℕ × List ℕ) → Option (List ℕ × List ℕ)
prepend c none = none
prepend c (some (before, after)) = some (c ∷ before, after)

-- `str::split_once`, on a pattern that is not empty.
unfoldable pub split_once : List ℕ → List ℕ → Option (List ℕ × List ℕ)
unfolding strip_prefix
split_once pat [] = none
split_once pat (c ∷ s) = elim (strip_prefix pat (c ∷ s)) [
  | some rest ↦ some ([], rest)
  | none ↦ prepend c (split_once pat s)
]

-- `split('\n')`: the first line, and the others.
unfoldable pub split_lines : List ℕ → List ℕ × List (List ℕ)
split_lines [] = ([], [])
split_lines (c ∷ s) =
    let (line, lines) = split_lines s in
    if c == b'\n' then ([], line ∷ lines) else (c ∷ line, lines)

abbrev pub is_nil {ℓ} : {A : Type ℓ} → List A → Bool
is_nil [] = true
is_nil (x ∷ xs) = false

-- `trim_end_matches`, `trim_start_matches` and `trim` on a test of the characters.
unfoldable pub trim_end : (ℕ → Bool) → List ℕ → List ℕ
trim_end p [] = []
trim_end p (c ∷ s) = let rest = trim_end p s in if p c && is_nil rest then [] else c ∷ rest

unfoldable pub trim_start : (ℕ → Bool) → List ℕ → List ℕ
trim_start p [] = []
trim_start p (c ∷ s) = let rest = trim_start p s in if p c then rest else c ∷ s

unfoldable pub trim : List ℕ → List ℕ
unfolding trim_end trim_start is_whitespace
trim s = trim_end is_whitespace (trim_start is_whitespace s)

abbrev pub trim_cr : List ℕ → List ℕ
trim_cr = trim_end (λ c. c == b'\r')

abbrev pub flush : List ℕ → List (List ℕ) → List (List ℕ)
flush [] words = words
flush (c ∷ word) words = (c ∷ word) ∷ words

-- `split_whitespace`, from the word so far.
unfoldable pub words_from : List ℕ → List ℕ → List (List ℕ)
words_from word [] = flush word []
words_from word (c ∷ s) =
    let ended = flush word (words_from [] s) in
    let longer = words_from (word ++ c ∷ []) s in if is_whitespace c then ended else longer

unfoldable pub split_whitespace : List ℕ → List (List ℕ)
unfolding words_from is_whitespace
split_whitespace s = words_from [] s

-- The match on the two blank lines: the head and the body.
unfoldable pub split_head : List ℕ → List ℕ × List ℕ
unfolding split_once
split_head raw = elim (split_once (bytes "\r\n\r\n") raw) [
  | some (h, b) ↦ (h, b)
  | none ↦ elim (split_once (bytes "\n\n") raw) [ some (h, b) ↦ (h, b) | none ↦ (raw, []) ]
]

pub record RequestLine : Type 0 where
  pub method : List ℕ
  pub path : List ℕ
  pub version : List ℕ

-- The parts of the request line.
unfoldable pub request_parts : List (List ℕ) → Parsed RequestLine
request_parts [] = rejected malformed_request_line
request_parts (method ∷ []) = rejected malformed_request_line
request_parts (method ∷ path ∷ []) =
    parsed (record { method = method; path = path; version = bytes "HTTP/1.1" })
request_parts (method ∷ path ∷ version ∷ more) =
    parsed (record { method = method; path = path; version = version })

unfoldable pub request_line : List ℕ → Parsed RequestLine
unfolding trim request_parts split_whitespace
request_line line =
    if is_nil (trim line) then rejected empty else request_parts (split_whitespace line)

-- One header line that is not empty.
unfoldable pub header_line : List ℕ → Parsed (List ℕ × List ℕ)
unfolding split_once trim utf8
header_line line = elim (split_once (b':' ∷ []) line) [
  | none ↦ rejected (malformed_header (utf8 line))
  | some (name, value) ↦ parsed (utf8 (trim name), utf8 (trim value))
]

-- The loop over the lines after the first.
unfoldable pub header_lines : List (List ℕ) → Parsed (List (List ℕ × List ℕ))
unfolding header_line
header_lines [] = parsed []
header_lines (raw ∷ lines) =
    let line = trim_cr raw in
    let rest = header_lines lines in
    if is_nil line
    then rest
    else (do header ← header_line line; headers ← rest; parsed (header ∷ headers))

-- From the head's lines and the body on.
unfoldable pub parse_parts : List ℕ → List (List ℕ) → List ℕ → Parsed Request
unfolding request_line header_lines utf8 parse_method
parse_parts first lines body = do
  parts ← request_line (trim_cr first)
  headers ← header_lines lines
  parsed (record {
    method = parse_method (utf8 parts.method);
    path = utf8 parts.path;
    version = utf8 parts.version;
    headers = headers;
    body = utf8 body;
  })

-- `Request::parse`.
unfoldable pub parse : List ℕ → Parsed Request
unfolding split_head split_lines parse_parts
parse raw =
    let (head, body) = split_head raw in
    let (first, lines) = split_lines head in parse_parts first lines body

-- `Display` of `ParseError`, on code points.
unfoldable pub parse_error_text : ParseError → List ℕ
parse_error_text empty = bytes "empty request"
parse_error_text malformed_request_line = bytes "malformed request line"
parse_error_text (malformed_header l) = bytes "malformed header: " ++ l
