-- ===== src/Proxy/Used.antt =====
-- src/pool.rs, `select_hash`: the pools that a program can come by with a pool's own operations, and
-- who serves a key on them.
use echofront.Base.{ℕ, ◌≡◌, ◌≢◌, List, [], some, ok}
use echofront.HashRing.{rebuild, lookup}
use echofront.Pool
use echofront.Pool.{Pool, Strategy, HealthConfig, consistent_hash}
use echofront.Pool.Select.{select, available_indices, members_of}
use echofront.Pool.Select.Sticky.{RingFits}
use echofront.Pool.Select.Strategies.{consistent_hash_choice}
use echofront.Proxy.Operated.{Operated, Operated-RingFits}
use echofront.Proxy.Reachable
use echofront.Proxy.Reachable.{Built-RingFits}
use echofront.Upstream.{Upstream}

module _ {ℓ} {U : Type ℓ} where
  -- A pool after any run of its operations, with any arguments and in any order.
  pub data Used (upstream : Upstream U) : Pool U → Type ℓ where
    created :
        (name : List ℕ) (strategy : Strategy) (health : HealthConfig)
        → Used upstream (Pool.new name strategy health)
    operated : (p p' : Pool U) → Used upstream p → Operated upstream p p' → Used upstream p'

  Used-RingFits : (upstream : Upstream U) (p : Pool U) → Used upstream p → RingFits p
  Used-RingFits upstream p (created name strategy health) =
      Built-RingFits p (Reachable.empty name strategy health)
  Used-RingFits upstream p' (operated p q used op) =
      Operated-RingFits upstream p p' op (Used-RingFits upstream p used)

  -- The ring that a pool keeps from earlier selections never shows: on a pool that hashes, whatever
  -- operations made it and whatever nodes earlier selections excluded or found out of order, if any
  -- node may be selected, then a key goes to the member that owns it on a ring rebuilt from the nodes
  -- that are available now.
  pub consistent_hash_owner :
      (upstream : Upstream U) (p : Pool U) (now : ℕ) (key : List ℕ) (exclude : List ℕ)
      → Used upstream p
      → p.strategy ≡ consistent_hash
      → available_indices p now exclude ≢ []
      → (p' : Pool U) × (ms : List (ℕ × List ℕ)) × (id : ℕ) × (select p now (some key) exclude
          ≡ ok (p', some id))
        × (members_of p.backends (available_indices p now exclude) ≡ ok ms)
        × (lookup (rebuild p.ring ms) key ≡ some id)
  consistent_hash_owner upstream p now key exclude used hashes some_left =
      consistent_hash_choice p now key exclude hashes (Used-RingFits upstream p used) some_left
