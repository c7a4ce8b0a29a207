-- ===== src/Proxy/Start.antt =====
-- src/proxy.rs: the loop of `handle` as a request enters it, and the nodes it may select.
use echofront.Base.{
  ℕ, suc, ◌<◌, ◌≡◌, inl, refl, sym, ap, ◌∙◌, true, false, List, [], ◌∷◌, panic, not, ◌&&◌, map,
  Option, Exec, ok, length, contains, All, arith, index, index-lt,
}
use echofront.Retry.{RetryBudget}
use echofront.Pool.{Pool, Backend, is_available}
use echofront.Pool.Select.Available.{selectable, SameNodes, strip}
use echofront.Pool.Select.Sticky.{RingFits}
use echofront.Proxy.{Proxy}
use echofront.Proxy.Handle.{depart}
use echofront.Proxy.Trips.{Entry, Sound}

module _ {ℓ} {U : Type ℓ} where
  pub selectable_fresh :
      (bs : List (Backend U)) (now : ℕ) (tried : List ℕ) (i : ℕ)
      → selectable bs now tried i ≡ true
      → (i < length bs) × (contains tried i ≡ false)
  selectable_fresh bs now tried i e = go (index bs i) refl e
    where
      go :
          (m : Exec (Backend U))
          → index bs i ≡ m
          → elim m [ ok b ↦ not (contains tried i) && is_available b now | panic ↦ false ] ≡ true
          → (i < length bs) × (contains tried i ≡ false)
      go (ok b) at s = (index-lt bs i at, ground (arith, s))
      go panic at s = cc

  length-strip : (bs : List (Backend U)) → length (map strip bs) ≡ length bs
  length-strip [] = refl
  length-strip (b ∷ bs) = ap suc (length-strip bs)

  pub same_length : (bs cs : List (Backend U)) → SameNodes bs cs → length bs ≡ length cs
  same_length bs cs e = sym (length-strip bs) ∙ ap length (sym e) ∙ length-strip cs

-- The invariant holds as a request enters the loop.
pub depart-Sound {ℓ} :
    {U : Type ℓ} (P : Backend U → Type 0) (Q : RetryBudget → ℕ → Type 0) (x : Proxy U)
    (pool : Pool U) (choice : Option ℕ) (c : Entry)
    → c.total_retries ≡ x.total_retries
    → c.total_failovers ≡ x.total_failovers
    → RingFits pool
    → All P pool.backends
    → Q x.budget x.total_retries
    → Sound P Q (record { pool = pool; choice = choice }) c (depart x pool)
unfolding depart
depart-Sound P Q x pool choice c r o fits kept paid = record {
  fits = fits;
  kept = kept;
  paid = paid;
  flagged = tt;
  tried_nodes = refl;
  distinct = tt;
  all_failed = tt;
  all_counted = refl;
  within = omega arith;
  first = refl;
  opening = inl (refl, refl);
  untouched = λ i n. refl;
  available = tt;
  retried = omega (arith, r);
  failed_over = omega (arith, o);
  failovers_u64 = λ h. omega (arith, o, h);
}
