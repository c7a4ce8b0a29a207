-- ===== src/Pool/Change.antt =====
-- src/pool.rs: the operations on one backend by its index are total in bounds, and touch that
-- backend alone.
use echofront.Base.{
  ℕ, zero, suc, ◌<◌, ◌≡◌, refl, ap, ◌∙◌, List, [], ◌∷◌, Option, none, some, ok, ◌>>=◌, update,
  modify_lem, length, length-update, arith,
}
use echofront.Ewma.{EwmaConfig}
use echofront.Pool.{Pool, Backend, HealthConfig, change}
use echofront.Pool.Outcome.{
  record_success, record_success_latency, record_failure, success_of, fold_if_on, fold_latency,
  failure_of,
}
use echofront.Pool.Select.Names.{names, RingFits-names}
use echofront.Pool.Select.Sticky.{RingFits}

module _ {ℓ} {U : Type ℓ} where
  -- The pool with the backend at an index changed.
  abbrev pub changed : Pool U → ℕ → (Backend U → Backend U) → Pool U
  changed p idx f = record p { backends = update p.backends idx f }

  pub change_lem :
      (p : Pool U) (idx : ℕ) (f : Backend U → Backend U)
      → idx < length p.backends
      → change p idx f ≡ ok (changed p idx f)
  unfolding change
  change_lem p idx f h =
      ap (λ m. m >>= λ bs. ok (record p { backends = bs })) (modify_lem p.backends idx f h)

  pub names-update :
      (bs : List (Backend U)) (i : ℕ) (f : Backend U → Backend U)
      → ((b : Backend U) → (f b).name ≡ b.name)
      → names (update bs i f) ≡ names bs
  names-update [] i f h = refl
  names-update (b ∷ bs) zero f h = ap (λ n. n ∷ names bs) (h b)
  names-update (b ∷ bs) (suc i) f h = ap (◌∷◌ b.name) (names-update bs i f h)

  pub changed-RingFits :
      (p : Pool U) (idx : ℕ) (f : Backend U → Backend U)
      → ((b : Backend U) → (f b).name ≡ b.name)
      → RingFits p
      → RingFits (changed p idx f)
  changed-RingFits p idx f h =
      RingFits-names p (changed p idx f) refl refl (names-update p.backends idx f h)

  -- What a success with its latency does to the backend.
  abbrev pub timed_success : Option EwmaConfig → ℕ → ℕ → Backend U → Backend U
  timed_success ewma now latency b = elim ewma [
    | none ↦ success_of now b
    | some cfg ↦ fold_latency cfg latency (success_of now b)
  ]

  -- A failure changes the backend that failed, and no other.
  pub record_failure_lem :
      (p : Pool U) (idx now : ℕ)
      → idx < length p.backends
      → record_failure p idx now ≡ ok (changed p idx (failure_of p.health now))
  unfolding record_failure
  record_failure_lem p idx now h = change_lem p idx (failure_of p.health now) h

  record_success_lem :
      (p : Pool U) (idx now : ℕ)
      → idx < length p.backends
      → record_success p idx now ≡ ok (changed p idx (success_of now))
  unfolding record_success
  record_success_lem p idx now h = change_lem p idx (success_of now) h

  pub update-update :
      (bs : List (Backend U)) (i : ℕ) (f g : Backend U → Backend U)
      → update (update bs i f) i g ≡ update bs i (λ b. g (f b))
  update-update [] i f g = refl
  update-update (b ∷ bs) zero f g = refl
  update-update (b ∷ bs) (suc i) f g = ap (◌∷◌ b) (update-update bs i f g)

  fold_if_on_lem :
      (p : Pool U) (idx now latency : ℕ) (ewma : Option EwmaConfig)
      → idx < length p.backends
      → fold_if_on (changed p idx (success_of now)) idx latency ewma
        ≡ ok (changed p idx (timed_success ewma now latency))
  unfolding fold_if_on
  fold_if_on_lem p idx now latency none h = refl
  fold_if_on_lem p idx now latency (some cfg) h =
      let f = success_of now in
      change_lem (changed p idx f) idx (fold_latency cfg latency)
        (rw (length-update p.backends idx f) h)
      ∙ ap (λ bs. ok (record p { backends = bs }))
          (update-update p.backends idx f (fold_latency cfg latency))

  -- A success changes the backend that answered, and no other.
  pub record_success_latency_lem :
      (p : Pool U) (idx now latency : ℕ)
      → idx < length p.backends
      → record_success_latency p idx now latency
        ≡ ok (changed p idx (timed_success p.ewma now latency))
  unfolding record_success_latency
  record_success_latency_lem p idx now latency h =
      ap (λ m. m >>= λ p'. fold_if_on p' idx latency p'.ewma) (record_success_lem p idx now h)
      ∙ fold_if_on_lem p idx now latency p.ewma h

  pub failure_name :
      (c : HealthConfig) (now : ℕ) (b : Backend U) → (failure_of c now b).name ≡ b.name
  unfolding failure_of
  failure_name c now b = ground arith

  pub timed_success_name :
      (ewma : Option EwmaConfig) (now latency : ℕ) (b : Backend U)
      → (timed_success ewma now latency b).name ≡ b.name
  unfolding success_of fold_latency
  timed_success_name none now latency b = refl
  timed_success_name (some cfg) now latency b = refl
