-- ===== src/HashRing/Owners.antt =====
-- src/hashring.rs: the owners of the points of a rebuilt ring are its members, and every key has one.
use echofront.Base.{
  ℕ, zero, suc, ◌<◌, ◌≡◌, ◌≢◌, refl, ◌∙◌, List, [], ◌∷◌, map, some, true, arith, contains,
  Option-cases, inl, inr,
}
use echofront.HashRing.{
  ConsistentHashRing, place, place_all, point, rebuild, lookup, lookup_from, mix64, fnv1a_64,
}
use echofront.HashRing.Map.{get, insert, get-insert, first_from, IsSorted}
use echofront.HashRing.Successor.{lookup_from-IsClockwise, IsClockwise}
use echofront.HashRing.Members.{place_all-IsSorted, lookup-lookup_from}

-- Every point belongs to one of `ids`.
abbrev OwnedBy : List ℕ → List (ℕ × ℕ) → Type 0
OwnedBy ids m = (k v : ℕ) → get k m ≡ some v → contains ids v ≡ true

insert-OwnedBy :
    (ids : List ℕ) (p id : ℕ) (m : List (ℕ × ℕ))
    → contains ids id ≡ true
    → OwnedBy ids m
    → OwnedBy ids (insert p id m)
insert-OwnedBy ids p id m h o k v e = ground (arith, get-insert k p id m, o k v)

place-OwnedBy :
    (ids : List ℕ) (id base n v : ℕ) (m : List (ℕ × ℕ))
    → contains ids id ≡ true
    → OwnedBy ids m
    → OwnedBy ids (place id base n v m)
unfolding place
place-OwnedBy ids id base zero v m h o = o
place-OwnedBy ids id base (suc n) v m h o =
    place-OwnedBy ids id base n (suc v) (insert (point base v) id m) h
      (insert-OwnedBy ids (point base v) id m h o)

place_all-OwnedBy :
    (ids : List ℕ) (n : ℕ) (ms : List (ℕ × List ℕ)) (m : List (ℕ × ℕ))
    → ((i : ℕ) → contains (map (λ x. x.0) ms) i ≡ true → contains ids i ≡ true)
    → OwnedBy ids m
    → OwnedBy ids (place_all n ms m)
unfolding place_all
place_all-OwnedBy ids n [] m sub o = o
place_all-OwnedBy ids n ((id, name) ∷ ms) m sub o =
    place_all-OwnedBy ids n ms (place id (fnv1a_64 name) n 0 m) (λ i h. sub i (ground (arith, h)))
      (place-OwnedBy ids id (fnv1a_64 name) n 0 m (sub id (ground arith)) o)

lookup_from-OwnedBy :
    (ids : List ℕ) (h v : ℕ) (m : List (ℕ × ℕ))
    → IsSorted m
    → OwnedBy ids m
    → lookup_from h m ≡ some v
    → contains ids v ≡ true
lookup_from-OwnedBy ids h v m s o e = owner (lookup_from-IsClockwise h m v s e)
  where
    owner : (k : ℕ) × IsClockwise h m k v → contains ids v ≡ true
    owner (k, inl f) = o k v f.present
    owner (k, inr (_, f)) = o k v f.present

-- Whatever a rebuilt ring returns for a key is one of the members that it was built from.
pub lookup-rebuild_member :
    (r : ConsistentHashRing) (ms : List (ℕ × List ℕ)) (key : List ℕ) (id : ℕ)
    → lookup (rebuild r ms) key ≡ some id
    → contains (map (λ m. m.0) ms) id ≡ true
unfolding rebuild get
lookup-rebuild_member r ms key id e =
    lookup_from-OwnedBy (map (λ m. m.0) ms) (mix64 (fnv1a_64 key)) id (place_all r.vnodes ms [])
      (place_all-IsSorted r.vnodes ms [] tt)
      (place_all-OwnedBy (map (λ m. m.0) ms) r.vnodes ms [] (λ i h. h) (λ k v h. cc))
      (rw lookup-lookup_from at e)

insert_nonempty : (k v : ℕ) (m : List (ℕ × ℕ)) → insert k v m ≢ []
unfolding insert
insert_nonempty k v [] = ground arith
insert_nonempty k v ((j, w) ∷ m) = ground arith

place_nonempty : (id base n v : ℕ) (m : List (ℕ × ℕ)) → m ≢ [] → place id base n v m ≢ []
unfolding place
place_nonempty id base zero v m h = h
place_nonempty id base (suc n) v m h =
    place_nonempty id base n (suc v) (insert (point base v) id m)
      (insert_nonempty (point base v) id m)

place_pos_nonempty : (id base n : ℕ) (m : List (ℕ × ℕ)) → 0 < n → place id base n 0 m ≢ []
unfolding place
place_pos_nonempty id base zero m h = absurd (omega arith)
place_pos_nonempty id base (suc n) m h =
    place_nonempty id base n (suc zero) (insert (point base zero) id m)
      (insert_nonempty (point base zero) id m)

place_all_nonempty :
    (n : ℕ) (ms : List (ℕ × List ℕ)) (m : List (ℕ × ℕ)) → m ≢ [] → place_all n ms m ≢ []
unfolding place_all
place_all_nonempty n [] m h = h
place_all_nonempty n ((id, name) ∷ ms) m h =
    place_all_nonempty n ms (place id (fnv1a_64 name) n 0 m)
      (place_nonempty id (fnv1a_64 name) n 0 m h)

pub rebuild_nonempty :
    (r : ConsistentHashRing) (ms : List (ℕ × List ℕ))
    → 0 < r.vnodes
    → ms ≢ []
    → (rebuild r ms).ring ≢ []
unfolding rebuild place_all
rebuild_nonempty r [] v h = absurd (h refl)
rebuild_nonempty r ((id, name) ∷ ms) v h =
    place_all_nonempty r.vnodes ms (place id (fnv1a_64 name) r.vnodes 0 [])
      (place_pos_nonempty id (fnv1a_64 name) r.vnodes [] v)

nonempty_lookup : (h : ℕ) (m : List (ℕ × ℕ)) → m ≢ [] → (id : ℕ) × (lookup_from h m ≡ some id)
unfolding lookup_from first_from
nonempty_lookup h [] n = absurd (n refl)
nonempty_lookup h ((k, v) ∷ m) n = elim (Option-cases (first_from h ((k, v) ∷ m))) [
  | inl e ↦ (v, rw (e, lookup_from))
  | inr ((j, w), e) ↦ (w, rw (e, lookup_from))
]

-- A ring with virtual nodes that was built from at least one member serves every key.
pub lookup-rebuild_total :
    (r : ConsistentHashRing) (ms : List (ℕ × List ℕ)) (key : List ℕ)
    → 0 < r.vnodes
    → ms ≢ []
    → (id : ℕ) × (lookup (rebuild r ms) key ≡ some id) × (contains (map (λ m. m.0) ms) id ≡ true)
lookup-rebuild_total r ms key v h =
    let (id, e) =
      nonempty_lookup (mix64 (fnv1a_64 key)) (rebuild r ms).ring (rebuild_nonempty r ms v h) in
    let e' = lookup-lookup_from (rebuild r ms) key ∙ e in
    (id, e', lookup-rebuild_member r ms key id e')
