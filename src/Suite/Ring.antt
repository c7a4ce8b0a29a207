-- ===== src/Suite/Ring.antt =====
-- src/hashring.rs, its tests of up to 400 keys.
use echofront.Base.{
  ℕ, zero, suc, ◌≡◌, refl, Bool, true, false, ◌&&◌, List, [], ◌∷◌, ◌++◌, none, some, contains,
}
use echofront.HashRing
use echofront.HashRing.{ConsistentHashRing, rebuild, lookup, mix64, fnv1a_64, lookup_from}
use echofront.HashRing.Map.{insert, first_from}
use echofront.Http.{bytes}
use echofront.Proxy.{decimal}
use echofront.Suite.{all_of, is_index}

-- `build`.
abbrev pub build : List (ℕ × List ℕ) → ℕ → ConsistentHashRing
build members vnodes = rebuild (HashRing.new vnodes) members

-- `n` lookups of a key, each with the same answer.
abbrev same_again : ℕ → ConsistentHashRing → List ℕ → ℕ → Bool
same_again zero r key first = true
same_again (suc n) r key first = is_index (lookup r key) first && same_again n r key first

abbrev same_key_same_member : Bool
same_key_same_member =
    let r = build ((0, bytes "a") ∷ (1, bytes "b") ∷ (2, bytes "c") ∷ []) 100 in
    elim (lookup r (bytes "session-42")) [
      | none ↦ false
      | some first ↦ same_again 100 r (bytes "session-42") first
    ]

same_key_same_member_test : same_key_same_member ≡ true
unfolding HashRing.new rebuild lookup insert mix64 fnv1a_64 lookup_from first_from
same_key_same_member_test = refl

-- The members that `n` users are sent to, from a number on.
abbrev owners : ℕ → ℕ → ConsistentHashRing → List ℕ
owners zero i r = []
owners (suc n) i r =
    let rest = owners n (suc i) r in
    elim (lookup r (bytes "user-" ++ decimal i)) [ none ↦ rest | some m ↦ m ∷ rest ]

abbrev prefix_similar_keys_spread_across_members : Bool
prefix_similar_keys_spread_across_members =
    let found =
      owners 400 0
        (build ((0, bytes "A") ∷ (1, bytes "B") ∷ (2, bytes "C") ∷ (3, bytes "D") ∷ []) 160) in
    all_of (contains found 0 ∷ contains found 1 ∷ contains found 2 ∷ contains found 3 ∷ [])

prefix_similar_keys_spread_across_members_test : prefix_similar_keys_spread_across_members ≡ true
unfolding HashRing.new rebuild lookup insert mix64 fnv1a_64 lookup_from first_from decimal
prefix_similar_keys_spread_across_members_test = refl
