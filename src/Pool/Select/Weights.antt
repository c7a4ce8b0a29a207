-- ===== src/Pool/Select/Weights.antt =====
-- src/pool.rs, `select_weighted`: current weights are i64 values, and nothing else of a node is
-- touched.
use echofront.Base.{sym, List, [], ◌∷◌, map, update, All, All-update, ◌↔◌, ℕ}
use mathlib.Core.Path.{subst}
use echofront.Base.Int.{ℤ, pos}
use echofront.Base.Words.{IsI64, wrap_i64, wrap_i64-IsI64}
use echofront.Pool.{Backend}
use echofront.Pool.Select.Available.{strip, SameNodes}

module _ {ℓ} {U : Type ℓ} where
  abbrev pub HasWeight : Backend U → Type 0
  HasWeight b = IsI64 b.current_weight

  -- Whatever wrapped value a current weight takes.
  pub update-HasWeight :
      (bs : List (Backend U)) (i : ℕ) (f : Backend U → ℤ)
      → All HasWeight bs
      → All HasWeight (update bs i (λ b. record b { current_weight = wrap_i64 (f b) }))
  update-HasWeight bs i f a =
      All-update HasWeight (λ b. record b { current_weight = wrap_i64 (f b) })
        (λ b _. wrap_i64-IsI64 (f b)) bs i a

  All-strip :
      (P : Backend U → Type 0)
      → ((b : Backend U) (w : ℤ) → P b → P (record b { current_weight = w }))
      → (bs : List (Backend U)) → All P bs ↔ All P (map strip bs)
  All-strip P h [] = (λ _. tt, λ _. tt)
  All-strip P h (b ∷ bs) = (
    λ a. (h b (pos 0) a.0, (All-strip P h bs).0 a.1),
    λ a. (h (strip b) b.current_weight a.0, (All-strip P h bs).1 a.1),
  )

  -- What does not read current weights outlasts a selection.
  pub All-SameNodes :
      (P : Backend U → Type 0)
      → ((b : Backend U) (w : ℤ) → P b → P (record b { current_weight = w }))
      → (bs cs : List (Backend U)) → SameNodes bs cs
      → All P bs
      → All P cs
  All-SameNodes P h bs cs e a =
      (All-strip P h cs).1 (subst (All P) (sym e) ((All-strip P h bs).0 a))
