-- ===== src/HashRing/Members.antt =====
-- src/hashring.rs: what `rebuild` does to the keys when one member joins or leaves.
use native.Mathlib.Decide.{ℕ_discrete}
use echofront.Base.{ℕ, zero, suc, ◌≡◌, ◌≢◌, ◌⊎◌, inl, inr, List, [], ◌∷◌, ◌++◌, some, arith}
use echofront.HashRing.{
  ConsistentHashRing, place, place_all, point, rebuild, lookup, lookup_from, mix64, fnv1a_64,
}
use echofront.HashRing.Map.{insert, first_from, get-insert, insert-IsSorted, IsSorted}
use echofront.HashRing.Successor.{Without, lookup_from-Without}

place-IsSorted : (id base n v : ℕ) (m : List (ℕ × ℕ)) → IsSorted m → IsSorted (place id base n v m)
unfolding place
place-IsSorted id base zero v m s = s
place-IsSorted id base (suc n) v m s =
    place-IsSorted id base n (suc v) (insert (point base v) id m)
      (insert-IsSorted (point base v) id m s)

pub place_all-IsSorted :
    (n : ℕ) (ms : List (ℕ × List ℕ)) (m : List (ℕ × ℕ)) → IsSorted m → IsSorted (place_all n ms m)
unfolding place_all
place_all-IsSorted n [] m s = s
place_all-IsSorted n ((id, name) ∷ ms) m s =
    place_all-IsSorted n ms (place id (fnv1a_64 name) n 0 m)
      (place-IsSorted id (fnv1a_64 name) n 0 m s)

-- The same insertion on both sides, and an insertion for the member that is left out.
insert-Without :
    (x p id : ℕ) (m m' : List (ℕ × ℕ)) → Without x m m' → Without x (insert p id m) (insert p id m')
insert-Without x p id m m' w = record {
  kept = λ k v e n. ground (arith, get-insert k p id m, get-insert k p id m', w.kept k v);
  still_free = λ k e. ground (arith, get-insert k p id m, get-insert k p id m', w.still_free k);
}

insert_own-Without : (x p : ℕ) (m m' : List (ℕ × ℕ)) → Without x m m' → Without x (insert p x m) m'
insert_own-Without x p m m' w = record {
  kept = λ k v e n. ground (arith, get-insert k p x m, w.kept k v);
  still_free = λ k e. ground (arith, get-insert k p x m, w.still_free k);
}

place-Without :
    (x id base n v : ℕ) (m m' : List (ℕ × ℕ))
    → Without x m m'
    → Without x (place id base n v m) (place id base n v m')
unfolding place
place-Without x id base zero v m m' w = w
place-Without x id base (suc n) v m m' w =
    place-Without x id base n (suc v) (insert (point base v) id m) (insert (point base v) id m')
      (insert-Without x (point base v) id m m' w)

place_own-Without :
    (x base n v : ℕ) (m m' : List (ℕ × ℕ)) → Without x m m' → Without x (place x base n v m) m'
unfolding place
place_own-Without x base zero v m m' w = w
place_own-Without x base (suc n) v m m' w =
    place_own-Without x base n (suc v) (insert (point base v) x m) m'
      (insert_own-Without x (point base v) m m' w)

place_all-Without :
    (x n : ℕ) (ms : List (ℕ × List ℕ)) (m m' : List (ℕ × ℕ))
    → Without x m m'
    → Without x (place_all n ms m) (place_all n ms m')
unfolding place_all
place_all-Without x n [] m m' w = w
place_all-Without x n ((id, name) ∷ ms) m m' w =
    place_all-Without x n ms (place id (fnv1a_64 name) n 0 m) (place id (fnv1a_64 name) n 0 m')
      (place-Without x id (fnv1a_64 name) n 0 m m' w)

place_all-removed :
    (x n : ℕ) (name : List ℕ) (before after : List (ℕ × List ℕ)) (m m' : List (ℕ × ℕ))
    → Without x m m'
    → Without x (place_all n (before ++ (x, name) ∷ after) m) (place_all n (before ++ after) m')
unfolding place_all
place_all-removed x n name [] after m m' w =
    place_all-Without x n after (place x (fnv1a_64 name) n 0 m) m'
      (place_own-Without x (fnv1a_64 name) n 0 m m' w)
place_all-removed x n name ((id, other) ∷ before) after m m' w =
    place_all-removed x n name before after (place id (fnv1a_64 other) n 0 m)
      (place id (fnv1a_64 other) n 0 m') (place-Without x id (fnv1a_64 other) n 0 m m' w)

pub lookup-lookup_from :
    (r : ConsistentHashRing) (key : List ℕ)
    → lookup r key ≡ lookup_from (mix64 (fnv1a_64 key)) r.ring
unfolding lookup lookup_from first_from
lookup-lookup_from r key = ground arith

-- Taking a member off the ring, at any place among the others, moves only the keys that it served:
-- a key that another member served stays with that member.
pub rebuild_removed :
    (r : ConsistentHashRing) (x : ℕ) (name : List ℕ) (before after : List (ℕ × List ℕ))
    (key : List ℕ) (id : ℕ)
    → lookup (rebuild r (before ++ (x, name) ∷ after)) key ≡ some id
    → id ≢ x
    → lookup (rebuild r (before ++ after)) key ≡ some id
unfolding rebuild
rebuild_removed r x name before after key id e n =
    let empty : Without x [] [] = record { kept = λ k v f m. f; still_free = λ k f. f } in
    let ring = place_all r.vnodes (before ++ (x, name) ∷ after) [] in
    let ring' = place_all r.vnodes (before ++ after) [] in
    rw lookup-lookup_from (
      lookup_from-Without x (mix64 (fnv1a_64 key)) id ring ring'
        (place_all-IsSorted r.vnodes (before ++ (x, name) ∷ after) [] tt)
        (place_all-IsSorted r.vnodes (before ++ after) [] tt)
        (place_all-removed x r.vnodes name before after [] [] empty) n (rw lookup-lookup_from at e))

-- Putting a member on the ring moves keys only to that member.
pub rebuild_added :
    (r : ConsistentHashRing) (x : ℕ) (name : List ℕ) (before after : List (ℕ × List ℕ))
    (key : List ℕ) (old new : ℕ)
    → lookup (rebuild r (before ++ after)) key ≡ some old
    → lookup (rebuild r (before ++ (x, name) ∷ after)) key ≡ some new
    → (new ≡ old) ⊎ (new ≡ x)
rebuild_added r x name before after key old new e e' = elim (ℕ_discrete new x) [
  | yes own ↦ inr own
  | no other ↦
      let stays = rebuild_removed r x name before after key new e' other in
      inl (ground (arith, stays, e))
]
