-- ===== src/Rng/Stream.antt =====
-- src/rng.rs: the stream of a generator.
use echofront.Base.{
  ℕ, zero, suc, ◌+◌, ◌*◌, ◌%◌, ◌<◌, ◌≡◌, ◌≢◌, refl, ap, ◌∙◌, List, [], ◌∷◌, All, Exec, ok, ◌>>=◌,
  length, arith,
}
use echofront.Base.Words.{u64_mod}
use echofront.HashRing.{mix64}
use echofront.Rng
use echofront.Rng.{Rng, next_u64, below, index}

-- The generator after `n` draws.
unfoldable pub after : ℕ → Rng → Rng
after zero r = r
after (suc n) r = after n (next_u64 r).1

-- The first `n` indices below a length, and the generator then.
unfoldable pub indices : ℕ → ℕ → Rng → Exec (List ℕ × Rng)
indices len zero r = ok ([], r)
indices len (suc n) r =
    index r len >>= λ (i, r'). indices len n r' >>= λ (is, r''). ok (i ∷ is, r'')

index_lem : (r : Rng) (len : ℕ) → len ≢ 0 → index r len ≡ ok ((next_u64 r).0 % len, (next_u64 r).1)
unfolding index below
index_lem r len h = ground (arith, h)

-- For a length other than zero, any number of draws of an index succeeds, every index is in range,
-- and the generator moves on by one step for each, whatever the length.
pub indices_safe :
    (len n : ℕ) (r : Rng)
    → len ≢ 0
    → (is : List ℕ) × (indices len n r ≡ ok (is, after n r))
      × (length is ≡ n)
      × All (λ i. i < len) is
unfolding indices after
indices_safe len zero r h = ([], refl, refl, tt)
indices_safe len (suc n) r h =
    let (is, e, l, a) = indices_safe len n (next_u64 r).1 h in
    ((next_u64 r).0 % len ∷ is, rw (index_lem r len h, e) refl, omega (arith, l), (omega arith, a))

after-state :
    (n : ℕ) (r : Rng)
    → (next_u64 (after n r)).1.state ≡ (r.state + suc n * 0x9e37_79b9_7f4a_7c15) % u64_mod
unfolding next_u64 after
after-state zero r = omega arith
after-state (suc n) r = after-state n (next_u64 r).1 ∙ omega arith

-- The value of draw `n + 1` is the mix of the seed moved on by `n + 1` steps: the stream can be
-- entered anywhere without the draws before.
pub draw_lem :
    (n seed : ℕ)
    → (next_u64 (after n (Rng.new seed))).0
      ≡ mix64 ((seed + suc n * 0x9e37_79b9_7f4a_7c15) % u64_mod)
unfolding next_u64 Rng.new
draw_lem n seed = ap mix64 (after-state n (Rng.new seed))
