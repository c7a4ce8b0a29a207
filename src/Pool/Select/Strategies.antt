-- ===== src/Pool/Select/Strategies.antt =====
-- src/pool.rs: what each strategy promises beyond availability.
use echofront.Base.{
  ℕ, ◌≡◌, ◌≢◌, refl, ap, ◌∙◌, true, List, [], ◌∷◌, Option, some, ok, ◌>>=◌, contains,
}
use echofront.HashRing.{rebuild, lookup}
use echofront.Pool.{Pool, least_connections, consistent_hash}
use echofront.Pool.Select.{select, select_from, available_indices, members_of, chosen, select_by}
use echofront.Pool.Select.Available.{available_indices-All, available_indices-Ascends}
use echofront.Pool.Select.Least.{IsLeast, select_least_conn_lem}
use echofront.Pool.Select.Sticky.{RingFits, select_hash_lem}

module _ {ℓ} {U : Type ℓ} where
  select-IsLeast :
      (p : Pool U) (now : ℕ) (key : Option (List ℕ)) (exclude is : List ℕ)
      → p.strategy ≡ least_connections
      → available_indices p now exclude ≡ is
      → is ≢ []
      → (i : ℕ) × (select p now key exclude ≡ ok (p, some i))
        × (contains is i ≡ true)
        × IsLeast p.backends i is
  unfolding select
  select-IsLeast p now key exclude [] s e n = absurd (n refl)
  select-IsLeast p now key exclude (i ∷ is) s e n =
      let bounds = rw e at (available_indices-All p now exclude) in
      let up = rw e at (available_indices-Ascends p now exclude) in
      let (j, done, c, least) = select_least_conn_lem p i is bounds up in
      (
        j,
        ap (select_from p key) e
            ∙ ap (λ s. select_by s p (i ∷ is) key) s
            ∙ ap (λ m. m >>= λ x. ok (p, some x)) done,
        c,
        least,
      )

  -- Least connections: if any node may be selected, the choice is an available node with the fewest
  -- requests in flight, and of those the one with the lowest index; the pool stays as it is.
  pub least_connections_choice :
      (p : Pool U) (now : ℕ) (key : Option (List ℕ)) (exclude : List ℕ)
      → p.strategy ≡ least_connections
      → available_indices p now exclude ≢ []
      → (i : ℕ) × (select p now key exclude ≡ ok (p, some i))
        × (contains (available_indices p now exclude) i ≡ true)
        × IsLeast p.backends i (available_indices p now exclude)
  least_connections_choice p now key exclude s n =
      select-IsLeast p now key exclude (available_indices p now exclude) s refl n

  sticky_from_available :
      (p : Pool U) (now : ℕ) (key : List ℕ) (exclude is : List ℕ)
      → p.strategy ≡ consistent_hash
      → RingFits p
      → available_indices p now exclude ≡ is
      → is ≢ []
      → (p' : Pool U) × (ms : List (ℕ × List ℕ)) × (id : ℕ) × (select p now (some key) exclude
          ≡ ok (p', some id))
        × (members_of p.backends is ≡ ok ms)
        × (lookup (rebuild p.ring ms) key ≡ some id)
  unfolding select
  sticky_from_available p now key exclude [] s f e n = absurd (n refl)
  sticky_from_available p now key exclude (i ∷ is) s f e n =
      let bounds = rw e at (available_indices-All p now exclude) in
      let (r, ms, id, done, fits, members, found, c) = select_hash_lem p i is key f bounds in
      (
        record p { ring = r; ring_signature = i ∷ is },
        ms,
        id,
        ap (select_from p (some key)) e
            ∙ ap (λ s. select_by s p (i ∷ is) (some key)) s
            ∙ ap (λ m. m >>= λ x. ok (chosen x)) done,
        members,
        found,
      )

  -- Consistent hash, on a pool whose cached ring, if any, is the ring of the nodes it was built from:
  -- if any node may be selected, a key goes to the member that a ring rebuilt from the available
  -- nodes gives it to.
  pub consistent_hash_choice :
      (p : Pool U) (now : ℕ) (key : List ℕ) (exclude : List ℕ)
      → p.strategy ≡ consistent_hash
      → RingFits p
      → available_indices p now exclude ≢ []
      → (p' : Pool U) × (ms : List (ℕ × List ℕ)) × (id : ℕ) × (select p now (some key) exclude
          ≡ ok (p', some id))
        × (members_of p.backends (available_indices p now exclude) ≡ ok ms)
        × (lookup (rebuild p.ring ms) key ≡ some id)
  consistent_hash_choice p now key exclude s f n =
      sticky_from_available p now key exclude (available_indices p now exclude) s f refl n
