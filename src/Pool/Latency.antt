-- ===== src/Pool/Latency.antt =====
-- src/pool.rs, `poll`: the latency outliers, and the ramp of a node that comes back.
use echofront.Base.{
  ℕ, ◌-◌, ◌*◌, ◌≤◌, ◌<◌, ◌≡◌, ◌⊎◌, inl, inr, refl, sym, ap, ◌∙◌, ◌&&◌, leb, Option, none, some,
  arith, Bool-cases,
}
use echofront.Base.Words.{add_u64, sat_add_u64}
use echofront.Breaker
use echofront.Ewma.{EwmaConfig}
use echofront.Pool.{Backend}
use echofront.Pool.Poll.{poll_backend, end_ejection, reinstate, ramp_up, judge, over_line, get_or}

module _ {ℓ} {U : Type ℓ} where
  -- What the ramp's steps leave alone.
  abbrev SameLatency : Backend U → Backend U → Type 0
  SameLatency b c =
      (c.over_since ≡ b.over_since)
      × (c.over_since_samples ≡ b.over_since_samples)
      × (c.ewma_samples ≡ b.ewma_samples)
      × (c.latency_ewma_milli ≡ b.latency_ewma_milli)
      × (c.ewma_ejections ≡ b.ewma_ejections)

  end_ejection-SameLatency :
      (cfg : EwmaConfig) (now : ℕ) (b : Backend U) → SameLatency b (end_ejection (some cfg) now b)
  unfolding end_ejection reinstate
  end_ejection-SameLatency cfg now b = ground arith

  ramp_up-SameLatency :
      (cfg : EwmaConfig) (now : ℕ) (b : Backend U) → SameLatency b (ramp_up cfg now b)
  unfolding ramp_up
  ramp_up-SameLatency cfg now b = ground arith

  -- A window of latencies over the line, open long enough, with enough samples since it opened.
  abbrev pub Sustained : EwmaConfig → ℕ → ℕ → Backend U → Type 0
  Sustained cfg line now b =
      (since : ℕ) × (b.over_since ≡ some since)
      × (cfg.window_ms ≤ now - since)
      × (cfg.min_samples ≤ b.ewma_samples - b.over_since_samples)
      × (line < get_or b.latency_ewma_milli 0)

  over_line_ejects :
      (cfg : EwmaConfig) (line now : ℕ) (b : Backend U)
      → line < get_or b.latency_ewma_milli 0
      → ((over_line cfg now b).ewma_ejections ≡ b.ewma_ejections) ⊎ Sustained cfg line now b
  unfolding over_line
  over_line_ejects cfg line now b h = go b.over_since refl
    where
      go :
          (o : Option ℕ)
          → b.over_since ≡ o
          → ((over_line cfg now b).ewma_ejections ≡ b.ewma_ejections) ⊎ Sustained cfg line now b
      go none e = inl (rw e refl)
      go (some since) e =
          elim (Bool-cases (
            leb cfg.window_ms (now - since)
            && leb cfg.min_samples (b.ewma_samples - b.over_since_samples))) [
              | inl y ↦ inr (since, e, ground arith, ground arith, h)
              | inr n ↦ inl (rw (e, n) refl)
            ]

  judge_ejects :
      (cfg : EwmaConfig) (line now : ℕ) (b : Backend U)
      → ((judge cfg line now b).ewma_ejections ≡ b.ewma_ejections) ⊎ Sustained cfg line now b
  unfolding judge
  judge_ejects cfg line now b = ground (arith, over_line_ejects cfg line now b)

  -- `poll` counts a latency ejection only of a node whose average is above the line, whose window
  -- has been open for `window_ms`, and which has `min_samples` samples from within it.
  pub poll_backend-ewma_ejections :
      (cfg : EwmaConfig) (line now : ℕ) (b : Backend U)
      → ((poll_backend (some cfg) line now b).ewma_ejections ≡ b.ewma_ejections)
        ⊎ Sustained cfg line now b
  unfolding poll_backend
  poll_backend-ewma_ejections cfg line now b =
      let polled : Backend U = record b { breaker = Breaker.poll b.breaker now } in
      let back = end_ejection (some cfg) now polled in
      let (o, os, n, l, k) = ramp_up-SameLatency cfg now back in
      let (o', os', n', l', k') = end_ejection-SameLatency cfg now polled in
      elim (judge_ejects cfg line now (ramp_up cfg now back)) [
        | inl e ↦ inl (e ∙ k ∙ k')
        | inr (since, s, w, m, over) ↦
            inr (since, sym (o ∙ o') ∙ s, w, rw (n ∙ n', os ∙ os') at m, rw (l ∙ l') at over)
      ]

  end_ejection_ramp :
      (ewma : Option EwmaConfig) (now : ℕ) (b : Backend U)
      → 1 ≤ b.ramp_percent
      → b.ramp_percent ≤ 100
      → (1 ≤ (end_ejection ewma now b).ramp_percent)
        × ((end_ejection ewma now b).ramp_percent ≤ 100)
        × (((b.ejected_until ≡ none) → ⊥)
            ⊎ ((end_ejection ewma now b).ramp_percent ≡ b.ramp_percent))
  unfolding end_ejection reinstate
  end_ejection_ramp none now b lo hi = ground arith
  end_ejection_ramp (some cfg) now b lo hi = ground arith

  ramp_up_ramp :
      (cfg : EwmaConfig) (now : ℕ) (b : Backend U)
      → 1 ≤ b.ramp_percent
      → b.ramp_percent ≤ 100
      → (1 ≤ (ramp_up cfg now b).ramp_percent)
        × ((ramp_up cfg now b).ramp_percent ≤ 100)
        × (b.ramp_percent ≤ (ramp_up cfg now b).ramp_percent)
        × ((ramp_up cfg now b).ramp_percent ≤ 2 * b.ramp_percent)
  unfolding ramp_up
  ramp_up_ramp cfg now b lo hi = ground arith

  judge_ramp :
      (cfg : EwmaConfig) (line now : ℕ) (b : Backend U)
      → (judge cfg line now b).ramp_percent ≡ b.ramp_percent
  unfolding judge over_line
  judge_ramp cfg line now b = ground arith

  -- `poll` keeps a node's share between 1 and 100 per cent; it at most doubles the share of a node
  -- that is not ejected, and never lowers it.
  pub poll_backend-ramp :
      (ewma : Option EwmaConfig) (line now : ℕ) (b : Backend U)
      → 1 ≤ b.ramp_percent
      → b.ramp_percent ≤ 100
      → (1 ≤ (poll_backend ewma line now b).ramp_percent)
        × ((poll_backend ewma line now b).ramp_percent ≤ 100)
        × (((b.ejected_until ≡ none) → ⊥)
            ⊎ ((b.ramp_percent ≤ (poll_backend ewma line now b).ramp_percent)
                × ((poll_backend ewma line now b).ramp_percent ≤ 2 * b.ramp_percent)))
  unfolding poll_backend
  poll_backend-ramp none line now b lo hi =
      let polled : Backend U = record b { breaker = Breaker.poll b.breaker now } in
      ground (arith, end_ejection_ramp none now polled lo hi)
  poll_backend-ramp (some cfg) line now b lo hi =
      let polled : Backend U = record b { breaker = Breaker.poll b.breaker now } in
      let back = end_ejection (some cfg) now polled in
      let (lo', hi', same) = end_ejection_ramp (some cfg) now polled lo hi in
      let (lo'', hi'', up, down) = ramp_up_ramp cfg now back lo' hi' in
      ground (arith, judge_ramp cfg line now (ramp_up cfg now back), lo'', hi'', up, down, same)

  reinstated :
      (cfg : EwmaConfig) (now until : ℕ) (b : Backend U)
      → b.ejected_until ≡ some until
      → until ≤ now
      → (end_ejection (some cfg) now b).ejected_until ≡ none
  unfolding end_ejection reinstate
  reinstated cfg now until b e h = ground arith

  ramp_up_ejection :
      (cfg : EwmaConfig) (now : ℕ) (b : Backend U)
      → (ramp_up cfg now b).ejected_until ≡ b.ejected_until
  unfolding ramp_up
  ramp_up_ejection cfg now b = ground arith

  sustained_ejects :
      (cfg : EwmaConfig) (line now since : ℕ) (b : Backend U)
      → b.ejected_until ≡ none
      → b.over_since ≡ some since
      → cfg.window_ms ≤ now - since
      → cfg.min_samples ≤ b.ewma_samples - b.over_since_samples
      → line < get_or b.latency_ewma_milli 0
      → ((judge cfg line now b).ejected_until ≡ some (sat_add_u64 now cfg.ejection_ms))
        × ((judge cfg line now b).ewma_ejections ≡ add_u64 b.ewma_ejections 1)
  unfolding judge over_line
  sustained_ejects cfg line now since b e s w m l = ground arith

  -- A node whose ejection ends while an old latency window is still open is ejected again by the
  -- very same `poll`, on the samples from before its ejection: if the window was opened
  -- `window_ms` ago, and collected `min_samples` samples, and the average is above the line.
  pub poll_backend-ejects_again :
      (cfg : EwmaConfig) (line now until since : ℕ) (b : Backend U)
      → b.ejected_until ≡ some until
      → until ≤ now
      → b.over_since ≡ some since
      → cfg.window_ms ≤ now - since
      → cfg.min_samples ≤ b.ewma_samples - b.over_since_samples
      → line < get_or b.latency_ewma_milli 0
      → ((poll_backend (some cfg) line now b).ejected_until
          ≡ some (sat_add_u64 now cfg.ejection_ms))
        × ((poll_backend (some cfg) line now b).ewma_ejections ≡ add_u64 b.ewma_ejections 1)
  unfolding poll_backend
  poll_backend-ejects_again cfg line now until since b e u s w m l =
      let polled : Backend U = record b { breaker = Breaker.poll b.breaker now } in
      let back = end_ejection (some cfg) now polled in
      let (o, os, n, a, k) = ramp_up-SameLatency cfg now back in
      let (o', os', n', a', k') = end_ejection-SameLatency cfg now polled in
      let (until', count) =
        sustained_ejects cfg line now since (ramp_up cfg now back)
          (ramp_up_ejection cfg now back ∙ reinstated cfg now until polled e u) (o ∙ o' ∙ s) w
          (rw (n ∙ n', os ∙ os') m) (rw (a ∙ a') l) in
      (until', count ∙ ap (λ x. add_u64 x 1) (k ∙ k'))
