-- ===== src/Pool/Select/Names.antt =====
-- src/pool.rs: the cached ring depends on the backends' names only, so whatever keeps the names
-- keeps it fitting.
use echofront.Base.{
  ℕ, zero, suc, ◌≡◌, ◌≢◌, refl, sym, ap, ◌∙◌, List, [], ◌∷◌, map, Exec, ok, panic, ◌>>=◌, index,
}
use echofront.HashRing.{rebuild}
use echofront.Pool.{Pool, Backend}
use echofront.Pool.Select.{members_of}
use echofront.Pool.Select.Available.{strip, SameNodes}
use echofront.Pool.Select.Sticky.{RingFits}

pub index-map {ℓ κ} :
    {A : Type ℓ} {B : Type κ} (f : A → B) (xs : List A) (i : ℕ)
    → index (map f xs) i ≡ (index xs i >>= λ x. ok (f x))
index-map f [] i = refl
index-map f (x ∷ xs) zero = refl
index-map f (x ∷ xs) (suc i) = index-map f xs i

-- `members_of` on the names alone.
named : List (List ℕ) → List ℕ → Exec (List (ℕ × List ℕ))
named names [] = ok []
named names (i ∷ is) = do name ← index names i; members ← named names is; ok ((i, name) ∷ members)

module _ {ℓ} {U : Type ℓ} where
  abbrev pub names : List (Backend U) → List (List ℕ)
  names = map λ b. b.name

  name_of :
      (i : ℕ) (m : Exec (Backend U)) (rest : Exec (List (ℕ × List ℕ)))
      → (m >>= λ b. rest >>= λ ms. ok ((i, b.name) ∷ ms))
        ≡ ((m >>= λ b. ok b.name) >>= λ name. rest >>= λ ms. ok ((i, name) ∷ ms))
  name_of i (ok b) rest = refl
  name_of i panic rest = refl

  members_of-named : (bs : List (Backend U)) (is : List ℕ) → members_of bs is ≡ named (names bs) is
  unfolding members_of named
  members_of-named bs [] = refl
  members_of-named bs (i ∷ is) =
      rw (index-map, ← members_of-named bs is) (name_of i (index bs i) (members_of bs is))

  pub RingFits-names :
      (p p' : Pool U)
      → p'.ring ≡ p.ring
      → p'.ring_signature ≡ p.ring_signature
      → names p'.backends ≡ names p.backends
      → RingFits p
      → RingFits p'
  RingFits-names p p' r s n f = record {
    vnodes_pos = rw r f.vnodes_pos;
    built = λ old.
        let (ms, e, ring) = f.built (λ z. old (s ∙ z)) in
        (ms, members old ∙ e, ap (λ x. x.ring) r ∙ ring ∙ ap (λ x. (rebuild x ms).ring) (sym r));
  }
    where
      members :
          p'.ring_signature ≢ []
          → members_of p'.backends p'.ring_signature ≡ members_of p.backends p.ring_signature
      members old =
          members_of-named p'.backends p'.ring_signature
          ∙ ap (λ x. named x p'.ring_signature) n
          ∙ ap (named (names p.backends)) s
          ∙ sym (members_of-named p.backends p.ring_signature)

  names-strip : (bs : List (Backend U)) → names (map strip bs) ≡ names bs
  names-strip [] = refl
  names-strip (b ∷ bs) = ap (◌∷◌ b.name) (names-strip bs)

  pub RingFits-SameNodes :
      (p : Pool U) (bs : List (Backend U))
      → SameNodes p.backends bs
      → RingFits p
      → RingFits (record p { backends = bs })
  RingFits-SameNodes p bs same =
      RingFits-names p (record p { backends = bs }) refl refl
        (sym (names-strip bs) ∙ ap names same ∙ names-strip p.backends)

  pub names-map :
      (f : Backend U → Backend U) (bs : List (Backend U))
      → ((b : Backend U) → (f b).name ≡ b.name)
      → names (map f bs) ≡ names bs
  names-map f [] h = refl
  names-map f (b ∷ bs) h = rw (h b, names-map f bs h) refl
