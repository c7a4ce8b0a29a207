-- ===== src/Http/Parse/Lines.antt =====
-- src/http.rs, `Request::parse`: one line that is written out is read back.
use mathlib.Core.List.{append_assoc, append-nil}
use echofront.Base.{
  ℕ, ◌≡◌, ◌≢◌, refl, sym, ap, ◌∙◌, true, false, List, [], ◌∷◌, ◌++◌, some, All, All-mono, arith,
}
use echofront.Http.Parse.{
  parsed, is_whitespace, utf8, strip_prefix, split_once, split_lines, is_nil, trim_end, trim_start,
  trim, trim_cr, flush, words_from, split_whitespace, request_parts, request_line, header_line,
}
use echofront.Http.Parse.Text.{header_text, OneLine, IsWord, IsHeader}
use echofront.Http.Parse.Split.{split_once-append, prepend_all, prepend_all-some}

-- Lines end at a line feed.
pub split_lines-append :
    (t s : List ℕ)
    → All (λ c. c ≢ b'\n') t
    → split_lines (t ++ s) ≡ (t ++ (split_lines s).0, (split_lines s).1)
unfolding split_lines
split_lines-append [] s h = refl
split_lines-append (c ∷ t) s h = ground (arith, h.0, split_lines-append t s h.1)

pub no_lf : (s : List ℕ) → OneLine s → All (λ c. c ≢ b'\n') s
no_lf s = All-mono _ _ s λ c h. h.1

pub trim_cr-crlf : (s : List ℕ) → All (λ c. c ≢ b'\r') s → trim_cr (s ++ b'\r' ∷ []) ≡ s
unfolding trim_end
trim_cr-crlf [] h = refl
trim_cr-crlf (c ∷ s) h = ground (arith, h.0, trim_cr-crlf s h.1)

pub trim_cr_lem : (s : List ℕ) → All (λ c. c ≢ b'\r') s → trim_cr s ≡ s
unfolding trim_end
trim_cr_lem [] h = refl
trim_cr_lem (c ∷ s) h = ground (arith, h.0, trim_cr_lem s h.1)

is_whitespace-space : is_whitespace b' ' ≡ true
unfolding is_whitespace
is_whitespace-space = refl

trim-space : (s : List ℕ) → trim (b' ' ∷ s) ≡ trim s
unfolding trim trim_start is_whitespace
trim-space s = refl

split_once-colon : (s : List ℕ) → split_once (b':' ∷ []) (b':' ∷ s) ≡ some ([], s)
unfolding split_once strip_prefix
split_once-colon s = refl

pub header_line-text :
    (name value : List ℕ)
    → IsHeader (name, value)
    → header_line (header_text (name, value) []) ≡ parsed (utf8 name, utf8 value)
unfolding header_line
header_line-text name value (on, ov, colon, tn, tv) =
    let found =
      split_once-append b':' [] name (b':' ∷ b' ' ∷ (value ++ [])) colon
      ∙ ap (prepend_all name) (split_once-colon (b' ' ∷ (value ++ [])))
      ∙ prepend_all-some name [] (b' ' ∷ (value ++ [])) in
    let name_trimmed = ap trim (append-nil name) ∙ tn in
    let value_trimmed = trim-space (value ++ []) ∙ ap trim (append-nil value) ∙ tv in
    rw (found, header_line)
      (ap (λ n. parsed (utf8 n, utf8 (trim (b' ' ∷ (value ++ []))))) name_trimmed
        ∙ ap (λ v. parsed (utf8 name, utf8 v)) value_trimmed)

words_from-append :
    (word t s : List ℕ)
    → All (λ c. is_whitespace c ≡ false) t
    → words_from word (t ++ b' ' ∷ s) ≡ flush (word ++ t) (words_from [] s)
unfolding words_from
words_from-append word [] s h =
    rw is_whitespace-space (ap (λ w. flush w (words_from [] s)) (sym (append-nil word)))
words_from-append word (c ∷ t) s h = rw h.0 (
    words_from-append (word ++ c ∷ []) t s h.1
    ∙ ap (λ w. flush w (words_from [] s)) (append_assoc word (c ∷ []) t))

words_from-end :
    (word t : List ℕ)
    → All (λ c. is_whitespace c ≡ false) t
    → words_from word t ≡ flush (word ++ t) []
unfolding words_from
words_from-end word [] h = ap (λ w. flush w []) (sym (append-nil word))
words_from-end word (c ∷ t) h =
    rw h.0
      (words_from-end (word ++ c ∷ []) t h.1 ∙ ap (λ w. flush w []) (append_assoc word (c ∷ []) t))

flush-word : (word : List ℕ) (words : List (List ℕ)) → word ≢ [] → flush word words ≡ word ∷ words
flush-word [] words h = absurd (h refl)
flush-word (c ∷ word) words h = refl

split_whitespace-three :
    (m p v : List ℕ)
    → IsWord m
    → IsWord p
    → IsWord v
    → split_whitespace (m ++ (b' ' ∷ (p ++ (b' ' ∷ v)))) ≡ m ∷ p ∷ v ∷ []
unfolding split_whitespace
split_whitespace-three m p v (m_some, m_word) (p_some, p_word) (v_some, v_word) =
    words_from-append [] m (p ++ (b' ' ∷ v)) m_word
    ∙ ap (flush m) (
        words_from-append [] p v p_word
        ∙ ap (flush p) (words_from-end [] v v_word ∙ flush-word v [] v_some)
        ∙ flush-word p (v ∷ []) p_some)
    ∙ flush-word m (p ∷ v ∷ []) m_some

is_nil-trim : (c : ℕ) (s : List ℕ) → is_whitespace c ≡ false → is_nil (trim (c ∷ s)) ≡ false
unfolding trim trim_start trim_end
is_nil-trim c s h = rw h (rw h refl)

pub request_line-text :
    (m p v : List ℕ)
    → IsWord m
    → IsWord p
    → IsWord v
    → request_line (m ++ (b' ' ∷ (p ++ (b' ' ∷ v))))
      ≡ parsed (record { method = m; path = p; version = v })
unfolding request_line request_parts
request_line-text [] p v wm wp wv = absurd (wm.0 refl)
request_line-text (c ∷ m) p v wm wp wv =
    rw (is_nil-trim c (m ++ (b' ' ∷ (p ++ (b' ' ∷ v)))) wm.1.0)
      (ap request_parts (split_whitespace-three (c ∷ m) p v wm wp wv))
