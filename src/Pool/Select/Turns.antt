-- ===== src/Pool/Select/Turns.antt =====
-- src/pool.rs, `select_round_robin`: the turns of the available nodes over many selections.
pub mod Cycle
use echofront.Base.{
  ℕ, zero, suc, ◌+◌, ◌*◌, ◌%◌, ◌<◌, ◌≡◌, ◌≢◌, refl, sym, ap, ◌∙◌, true, List, [], ◌∷◌, Option, none,
  some, Exec, ok, panic, ◌>>=◌, index, length, contains, ◌==◌, if◌then◌else◌, arith,
}
use echofront.Base.Words.{u64_mod, add_u64}
use echofront.Pool.{Pool, round_robin}
use echofront.Pool.Select.{select, select_from, select_by, available_indices, chosen}
use echofront.Pool.Select.Available.{available_indices-Ascends}
use echofront.Pool.Select.Safe.{round_robin_lem}
use Cycle.{hit, hits, hits-cycles, occurs, occurs-Ascends}

-- How often a node was selected.
abbrev pub times : ℕ → List (Option ℕ) → ℕ
times i [] = 0
times i (none ∷ choices) = times i choices
times i (some j ∷ choices) = hit i (ok j) + times i choices

turn :
    (j i : ℕ) (is : List ℕ) (c c' k : ℕ) (choices : List (Option ℕ))
    → index is (c % length is) ≡ ok i
    → c' ≡ suc c
    → times j choices ≡ hits j is c' k
    → times j (some i ∷ choices) ≡ hits j is c (suc k)
unfolding hits
turn j i is c c' k choices at moved count = rw (at, count, moved) refl

module _ {ℓ} {U : Type ℓ} where
  -- A number of selections at one time, one after the other.
  unfoldable pub select_many :
      ℕ → Pool U → ℕ → Option (List ℕ) → List ℕ → Exec (Pool U × List (Option ℕ))
  select_many zero p now key exclude = ok (p, [])
  select_many (suc n) p now key exclude = do
    (p', choice) ← select p now key exclude
    (p'', choices) ← select_many n p' now key exclude
    ok (p'', choice ∷ choices)

  select_turn :
      (p : Pool U) (now : ℕ) (key : Option (List ℕ)) (exclude is : List ℕ)
      → p.strategy ≡ round_robin
      → available_indices p now exclude ≡ is
      → is ≢ []
      → (i : ℕ) × (select p now key exclude
          ≡ ok (record p { rr_cursor = add_u64 p.rr_cursor 1 }, some i))
        × (index is (p.rr_cursor % length is) ≡ ok i)
  unfolding select select_from select_by
  select_turn p now key exclude [] s e n = absurd (n refl)
  select_turn p now key exclude (first ∷ rest) s e n =
      let (i, done, at) = round_robin_lem p first rest in
      (
        i,
        ap (select_from p key) e
            ∙ ap (λ s. select_by s p (first ∷ rest) key) s
            ∙ ap (λ m. m >>= λ r. ok (chosen r)) done,
        at,
      )

  turns :
      (n : ℕ) (p : Pool U) (now : ℕ) (key : Option (List ℕ)) (exclude is : List ℕ)
      → p.strategy ≡ round_robin
      → available_indices p now exclude ≡ is
      → is ≢ []
      → p.rr_cursor + n < u64_mod
      → (p' : Pool U) × (choices : List (Option ℕ)) × (select_many n p now key exclude
          ≡ ok (p', choices))
        × ((j : ℕ) → times j choices ≡ hits j is p.rr_cursor n)
  unfolding select_many hits available_indices
  turns zero p now key exclude is s e n h = (p, [], refl, λ j. refl)
  turns (suc k) p now key exclude is s e n h =
      let (i, done, at) = select_turn p now key exclude is s e n in
      let q : Pool U = record p { rr_cursor = add_u64 p.rr_cursor 1 } in
      let moved : q.rr_cursor ≡ suc p.rr_cursor = omega arith in
      let (p', choices, rest, count) = turns k q now key exclude is s e n (omega (arith, moved)) in
      (
        p',
        some i ∷ choices,
        rw (done, rest) refl,
        λ j. turn j i is p.rr_cursor q.rr_cursor k choices at moved (count j),
      )

  -- Round robin is fair: while the available nodes stay the same and the cursor does not reach the
  -- end of its range, in `m` times as many selections as there are available nodes, each of them is
  -- selected exactly `m` times, wherever the cursor stood.
  pub round_robin_fair :
      (p : Pool U) (now : ℕ) (key : Option (List ℕ)) (exclude : List ℕ) (m : ℕ)
      → p.strategy ≡ round_robin
      → available_indices p now exclude ≢ []
      → p.rr_cursor + m * length (available_indices p now exclude) < u64_mod
      → (p' : Pool U) × (choices : List (Option ℕ)) × (select_many
            (m * length (available_indices p now exclude))
            p
            now
            key
            exclude
          ≡ ok (p', choices))
        × ((i : ℕ) → contains (available_indices p now exclude) i ≡ true → times i choices ≡ m)
  round_robin_fair p now key exclude m s n h =
      let is = available_indices p now exclude in
      let (p', choices, done, count) = turns (m * length is) p now key exclude is s refl n h in
      (
        p',
        choices,
        done,
        λ i c.
            count i
            ∙ hits-cycles i is p.rr_cursor m
            ∙ (let once = occurs-Ascends i 0 is (available_indices-Ascends p now exclude) c in
                ap (λ x. m * x) once ∙ omega arith),
      )
