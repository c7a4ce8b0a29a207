-- ===== src/Http/Parse/Divides.antt =====
-- src/http.rs, `Request::parse`: where a text is divided, said without the functions that divide it.
use echofront.Base.{
  ℕ, suc, ◌≤◌, ◌≡◌, ◌≢◌, ◌⊎◌, inl, inr, refl, ap, List, [], ◌∷◌, ◌++◌, false, ◌==◌, sym, ◌∙◌,
  Bool-cases, Option, none, some, length, contains, All, if◌then◌else◌, arith,
}
use echofront.Http.Parse.{strip_prefix, prepend, split_once, split_head, split_lines}

-- `h` is what comes before the first place where `mark` stands in `s`, and `b` what comes after.
abbrev pub First : List ℕ → List ℕ → List ℕ → List ℕ → Type 0
First mark s h b =
    (s ≡ h ++ (mark ++ b)) × ((h' b' : List ℕ) → s ≡ h' ++ (mark ++ b') → length h ≤ length h')

abbrev pub Absent : List ℕ → List ℕ → Type 0
Absent mark s = (h b : List ℕ) → s ≢ h ++ (mark ++ b)

-- The two blank lines.
abbrev pub crlf_crlf : List ℕ
crlf_crlf = b'\r' ∷ b'\n' ∷ b'\r' ∷ b'\n' ∷ []

abbrev pub lf_lf : List ℕ
lf_lf = b'\n' ∷ b'\n' ∷ []

-- A text's head and body: at the first CR LF CR LF, or, without one, at the first LF LF, or else the
-- text is all head.
abbrev pub Divides : List ℕ → List ℕ → List ℕ → Type 0
Divides s head body =
    First crlf_crlf s head body
    ⊎ (Absent crlf_crlf s × First lf_lf s head body)
    ⊎ (Absent crlf_crlf s × Absent lf_lf s × (head ≡ s) × (body ≡ []))

strip_prefix-append : (mark b : List ℕ) → strip_prefix mark (mark ++ b) ≡ some b
unfolding strip_prefix
strip_prefix-append [] b = refl
strip_prefix-append (c ∷ mark) b = ground (arith, strip_prefix-append mark b)

append-strip_prefix : (mark s rest : List ℕ) → strip_prefix mark s ≡ some rest → s ≡ mark ++ rest
unfolding strip_prefix
append-strip_prefix [] s rest e = cc
append-strip_prefix (c ∷ mark) [] rest e = cc
append-strip_prefix (c ∷ mark) (d ∷ s) rest e = ground (arith, e, append-strip_prefix mark s rest)

-- What `split_once` says of a text.
abbrev pub Once : List ℕ → List ℕ → Option (List ℕ × List ℕ) → Type 0
Once mark s none = Absent mark s
Once mark s (some (h, b)) = First mark s h b

Once-prepend :
    (mark : List ℕ) (c : ℕ) (s : List ℕ) (o : Option (List ℕ × List ℕ))
    → strip_prefix mark (c ∷ s) ≡ none
    → Once mark s o
    → Once mark (c ∷ s) (prepend c o)
Once-prepend mark c s none e absent = λ h b. go h b
  where
    go : (h b : List ℕ) → c ∷ s ≢ h ++ (mark ++ b)
    go [] b at = cc (strip_prefix-append mark b)
    go (d ∷ h) b at = absent h b cc
Once-prepend mark c s (some (before, after)) e (at, first) = (ap (c ∷◌) at, λ h b. go h b)
  where
    go : (h b : List ℕ) → c ∷ s ≡ h ++ (mark ++ b) → suc (length before) ≤ length h
    go [] b at = cc (strip_prefix-append mark b)
    go (d ∷ h) b at = let least : length before ≤ length h = first h b cc in omega (arith, least)

pub split_once-Once : (c : ℕ) (mark s : List ℕ) → Once (c ∷ mark) s (split_once (c ∷ mark) s)
unfolding split_once
split_once-Once c mark [] = λ h b. go h b
  where
    go : (h b : List ℕ) → [] ≢ h ++ (c ∷ (mark ++ b))
    go [] b at = cc
    go (d ∷ h) b at = cc
split_once-Once c mark (d ∷ s) =
    go (strip_prefix (c ∷ mark) (d ∷ s)) refl (split_once-Once c mark s)
  where
    go :
        (m : Option (List ℕ))
        → strip_prefix (c ∷ mark) (d ∷ s) ≡ m
        → Once (c ∷ mark) s (split_once (c ∷ mark) s)
        → Once
            (c ∷ mark)
            (d ∷ s)
            (elim m [ some rest ↦ some ([], rest) | none ↦ prepend d (split_once (c ∷ mark) s) ])
    go (some rest) e o = (append-strip_prefix (c ∷ mark) (d ∷ s) rest e, λ h b at. omega arith)
    go none e o = Once-prepend (c ∷ mark) d s (split_once (c ∷ mark) s) e o

pub split_head-Divides : (s : List ℕ) → Divides s (split_head s).0 (split_head s).1
unfolding split_head
split_head-Divides s =
    go (split_once crlf_crlf s) (split_once lf_lf s)
      (split_once-Once b'\r' (b'\n' ∷ b'\r' ∷ b'\n' ∷ []) s) (split_once-Once b'\n' (b'\n' ∷ []) s)
  where
    go :
        (o o' : Option (List ℕ × List ℕ))
        → Once crlf_crlf s o
        → Once lf_lf s o'
        → let r : List ℕ × List ℕ = elim o [
          | some (h, b) ↦ (h, b)
          | none ↦ elim o' [ some (h, b) ↦ (h, b) | none ↦ (s, []) ]
        ] in
          Divides s r.0 r.1
    go (some (h, b)) o' first _ = inl first
    go none (some (h, b)) absent first = inr (inl (absent, first))
    go none none absent absent' = inr (inr (absent, absent', refl, refl))

-- Lines put together again.
abbrev pub unlines : List ℕ → List (List ℕ) → List ℕ
unlines first [] = first
unlines first (line ∷ lines) = first ++ (b'\n' ∷ unlines line lines)

-- The lines of a text: put together they are the text, and none of them has a line feed.
abbrev pub LinesOf : List ℕ → List ℕ → List (List ℕ) → Type 0
LinesOf s first lines =
    (s ≡ unlines first lines)
    × (contains first b'\n' ≡ false)
    × All (λ line. contains line b'\n' ≡ false) lines

unlines_cons :
    (c : ℕ) (first : List ℕ) (lines : List (List ℕ))
    → unlines (c ∷ first) lines ≡ c ∷ unlines first lines
unlines_cons c first [] = refl
unlines_cons c first (line ∷ lines) = refl

pub split_lines-LinesOf : (s : List ℕ) → LinesOf s (split_lines s).0 (split_lines s).1
unfolding split_lines
split_lines-LinesOf [] = (refl, refl, tt)
split_lines-LinesOf (c ∷ s) = go (split_lines s) (split_lines-LinesOf s)
  where
    go :
        (r : List ℕ × List (List ℕ))
        → LinesOf s r.0 r.1
        → let q : List ℕ × List (List ℕ) = if c == b'\n' then ([], r.0 ∷ r.1) else (c ∷ r.0, r.1) in
          LinesOf (c ∷ s) q.0 q.1
    go (first, lines) (at, h, hs) = elim (Bool-cases (c == b'\n')) [
      | inl y ↦ rw y (ground (arith, y, at), refl, (h, hs))
      | inr n ↦ rw n (ap (c ∷◌) at ∙ sym (unlines_cons c first lines), ground (arith, n, h), hs)
    ]
