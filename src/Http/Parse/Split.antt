-- ===== src/Http/Parse/Split.antt =====
-- src/http.rs, `Request::parse`: where the head ends.
use mathlib.Core.List.{append_assoc}
use echofront.Base.{
  ℕ, ◌≡◌, ◌≢◌, refl, ap, ◌∙◌, List, [], ◌∷◌, ◌++◌, Option, none, some, All, All-mono, arith,
}
use echofront.Http.{bytes}
use echofront.Http.Parse.{strip_prefix, prepend, split_once}
use echofront.Http.Parse.Text.{crlf, header_text, headers_text, OneLine, IsHeader}

abbrev pub prepend_all : List ℕ → Option (List ℕ × List ℕ) → Option (List ℕ × List ℕ)
prepend_all [] o = o
prepend_all (c ∷ t) o = prepend c (prepend_all t o)

pub prepend_all-some :
    (t before after : List ℕ) → prepend_all t (some (before, after)) ≡ some (t ++ before, after)
prepend_all-some [] before after = refl
prepend_all-some (c ∷ t) before after = ap (prepend c) (prepend_all-some t before after)

split_once-miss :
    (pat : List ℕ) (c : ℕ) (s : List ℕ)
    → strip_prefix pat (c ∷ s) ≡ none
    → split_once pat (c ∷ s) ≡ prepend c (split_once pat s)
unfolding split_once
split_once-miss pat c s e =
    ap (λ o. elim o [ some rest ↦ some ([], rest) | none ↦ prepend c (split_once pat s) ]) e

strip_prefix-ne :
    (p : ℕ) (pat : List ℕ) (c : ℕ) (s : List ℕ) → c ≢ p → strip_prefix (p ∷ pat) (c ∷ s) ≡ none
unfolding strip_prefix
strip_prefix-ne p pat c s h = ground arith

-- A text without the first character of a pattern is passed over.
pub split_once-append :
    (p : ℕ) (pat t s : List ℕ)
    → All (λ c. c ≢ p) t
    → split_once (p ∷ pat) (t ++ s) ≡ prepend_all t (split_once (p ∷ pat) s)
split_once-append p pat [] s h = refl
split_once-append p pat (c ∷ t) s h =
    split_once-miss (p ∷ pat) c (t ++ s) (strip_prefix-ne p pat c (t ++ s) h.0)
    ∙ ap (prepend c) (split_once-append p pat t s h.1)

pub no_cr : (s : List ℕ) → OneLine s → All (λ c. c ≢ b'\r') s
no_cr s = All-mono _ _ s λ c h. h.0

strip_prefix-crlf :
    (c : ℕ) (s : List ℕ) → c ≢ b'\r' → strip_prefix (bytes "\r\n\r\n") (crlf (c ∷ s)) ≡ none
unfolding strip_prefix
strip_prefix-crlf c s h = ground arith

-- One line end is not two.
split_once-crlf :
    (c : ℕ) (s : List ℕ)
    → c ≢ b'\r'
    → split_once (bytes "\r\n\r\n") (crlf (c ∷ s))
      ≡ prepend b'\r' (prepend b'\n' (split_once (bytes "\r\n\r\n") (c ∷ s)))
split_once-crlf c s h =
    split_once-miss (bytes "\r\n\r\n") b'\r' (b'\n' ∷ c ∷ s) (strip_prefix-crlf c s h)
    ∙ ap (prepend b'\r') (
        split_once-miss (bytes "\r\n\r\n") b'\n' (c ∷ s)
          (strip_prefix-ne b'\r' (bytes "\n\r\n") b'\n' (c ∷ s) (omega arith)))

split_once-end :
    (body : List ℕ) → split_once (bytes "\r\n\r\n") (crlf (crlf body)) ≡ some ([], body)
unfolding split_once strip_prefix
split_once-end body = refl

-- The name of a header, or the colon after it, begins its line.
split_once-header_start :
    (name value s : List ℕ)
    → OneLine name
    → split_once (bytes "\r\n\r\n") (crlf (header_text (name, value) s))
      ≡ prepend b'\r' (prepend b'\n' (split_once (bytes "\r\n\r\n") (header_text (name, value) s)))
split_once-header_start [] value s h = split_once-crlf b':' (b' ' ∷ (value ++ s)) (omega arith)
split_once-header_start (c ∷ name) value s h =
    split_once-crlf c (name ++ (b':' ∷ b' ' ∷ (value ++ s))) h.0.0

pub split_headers :
    (headers : List (List ℕ × List ℕ)) (body : List ℕ)
    → All IsHeader headers
    → split_once (bytes "\r\n\r\n") (headers_text headers ++ crlf (crlf body))
      ≡ some (headers_text headers, body)
split_headers [] body h = split_once-end body
split_headers ((name, value) ∷ headers) body ((on, ov, _, _, _), h) =
    let tail = headers_text headers ++ crlf (crlf body) in
    let pat = bytes "\r\n\r\n" in
    let regroup : headers_text ((name, value) ∷ headers) ++ crlf (crlf body)
        ≡ crlf (header_text (name, value) tail) =
      ap crlf (
        append_assoc name (b':' ∷ b' ' ∷ (value ++ headers_text headers)) (crlf (crlf body))
        ∙ ap (λ x. name ++ (b':' ∷ b' ' ∷ x))
            (append_assoc value (headers_text headers) (crlf (crlf body)))) in
    let value_passed =
      split_once-append b'\r' (bytes "\n\r\n") value tail (no_cr value ov)
      ∙ ap (prepend_all value) (split_headers headers body h)
      ∙ prepend_all-some value (headers_text headers) body in
    let colon_passed : split_once pat (b':' ∷ b' ' ∷ (value ++ tail))
        ≡ some (b':' ∷ b' ' ∷ (value ++ headers_text headers), body) =
      split_once-append b'\r' (bytes "\n\r\n") (b':' ∷ b' ' ∷ []) (value ++ tail)
        (omega arith, (omega arith, tt))
      ∙ ap (λ o. prepend b':' (prepend b' ' o)) value_passed in
    ap (split_once pat) regroup
    ∙ split_once-header_start name value tail on
    ∙ ap (λ o. prepend b'\r' (prepend b'\n' o))
        (split_once-append b'\r' (bytes "\n\r\n") name (b':' ∷ b' ' ∷ (value ++ tail))
            (no_cr name on)
          ∙ ap (prepend_all name) colon_passed
          ∙ prepend_all-some name (b':' ∷ b' ' ∷ (value ++ headers_text headers)) body)
