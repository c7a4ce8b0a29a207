-- ===== src/Pool/Select/Sticky.antt =====
-- src/pool.rs, `select_hash`: the ring that the pool caches is always as good as a fresh one, so a
-- key goes to the same node whenever the same nodes are available.
use echofront.Base.{
  ℕ, ◌<◌, ◌≡◌, ◌≢◌, refl, sym, ap, ◌∙◌, Bool-cases, true, not, ◌||◌, List, [], ◌∷◌, map, some, ok,
  ◌>>=◌, index_total, length, contains, All, arith, list_eq, list_eq→eq, inl, inr,
}
use echofront.HashRing.{
  place_all, ConsistentHashRing, rebuild, lookup, is_empty, lookup_from, mix64, fnv1a_64,
}
use echofront.HashRing.Members.{lookup-lookup_from}
use echofront.HashRing.Owners.{lookup-rebuild_total}
use echofront.Pool.{Pool, Backend}
use echofront.Pool.Select.{members_of, refresh_ring, select_hash, unwrap_or}

lookup-ring :
    (r r' : ConsistentHashRing) (key : List ℕ) → r.ring ≡ r'.ring → lookup r key ≡ lookup r' key
lookup-ring r r' key e =
    lookup-lookup_from r key
    ∙ ap (lookup_from (mix64 (fnv1a_64 key))) e
    ∙ sym (lookup-lookup_from r' key)

rebuild-vnodes :
    (r r' : ConsistentHashRing) (ms : List (ℕ × List ℕ))
    → r.vnodes ≡ r'.vnodes
    → (rebuild r ms).ring ≡ (rebuild r' ms).ring
unfolding rebuild
rebuild-vnodes r r' ms e = ap (λ n. place_all n ms []) e

module _ {ℓ} {U : Type ℓ} where
  -- The cached ring, if it was built for some nodes, is the one that these nodes build.
  pub record RingFits (p : Pool U) : Type ℓ where
    pub vnodes_pos : 0 < p.ring.vnodes
    pub built :
        p.ring_signature ≢ []
        → (ms : List (ℕ × List ℕ)) × (members_of p.backends p.ring_signature ≡ ok ms)
          × (p.ring.ring ≡ (rebuild p.ring ms).ring)

  members_of_lem :
      (bs : List (Backend U)) (is : List ℕ)
      → All (λ i. i < length bs) is
      → (ms : List (ℕ × List ℕ)) × (members_of bs is ≡ ok ms) × (map (λ m. m.0) ms ≡ is)
  unfolding members_of
  members_of_lem bs [] a = ([], refl, refl)
  members_of_lem bs (i ∷ is) a =
      let (b, e) = index_total bs i a.0 in
      let (ms, e', ids) = members_of_lem bs is a.1 in
      ((i, b.name) ∷ ms, ground (arith, e, e'), ap (◌∷◌ i) ids)

  -- The pool with the ring for the nodes `is`.
  abbrev with_ring : Pool U → ConsistentHashRing → List ℕ → Pool U
  with_ring p r is = record p { ring = r; ring_signature = is }

  refresh_ring_lem :
      (p : Pool U) (is : List ℕ) (ms : List (ℕ × List ℕ))
      → RingFits p
      → is ≢ []
      → members_of p.backends is ≡ ok ms
      → (r : ConsistentHashRing) × (refresh_ring p is ≡ ok (with_ring p r is))
        × (r.vnodes ≡ p.ring.vnodes)
        × (r.ring ≡ (rebuild p.ring ms).ring)
  unfolding refresh_ring
  refresh_ring_lem p is ms f n e =
      elim (Bool-cases (not (list_eq p.ring_signature is) || is_empty p.ring)) [
        | inl stale ↦ (rebuild p.ring ms, rw (stale, refresh_ring, e), refl, refl)
        | inr current ↦
            let same : p.ring_signature ≡ is =
              list_eq→eq p.ring_signature is (ground (arith, current)) in
            let (ms', e', ring) = f.built (λ z. n (sym same ∙ z)) in
            let ms_eq : ms' ≡ ms = cc (rw same at e', e) in
            (
              p.ring,
              rw (current, refresh_ring) (ap (λ s. ok (with_ring p p.ring s)) same),
              refl,
              ring ∙ ap (λ x. (rebuild p.ring x).ring) ms_eq,
            )
      ]

  -- With a key, `select_hash` takes the member that a fresh ring of the available nodes gives the
  -- key to, whatever ring was cached; it leaves a fitting ring behind.
  pub select_hash_lem :
      (p : Pool U) (first : ℕ) (rest : List ℕ) (key : List ℕ)
      → RingFits p
      → All (λ i. i < length p.backends) (first ∷ rest)
      → (r : ConsistentHashRing) × (ms : List (ℕ × List ℕ)) × (id : ℕ) × (select_hash p
            (first ∷ rest)
            (some key)
          ≡ ok (with_ring p r (first ∷ rest), id))
        × RingFits (with_ring p r (first ∷ rest))
        × (members_of p.backends (first ∷ rest) ≡ ok ms)
        × (lookup (rebuild p.ring ms) key ≡ some id)
        × (contains (first ∷ rest) id ≡ true)
  unfolding select_hash
  select_hash_lem p first rest key f a =
      let is : List ℕ = first ∷ rest in
      let (ms, e, ids) = members_of_lem p.backends is a in
      let (r, done, vn, same) = refresh_ring_lem p is ms f (λ z. cc) e in
      let (id, found, member) =
        lookup-rebuild_total p.ring ms key f.vnodes_pos (λ z. cc (rw z at ids)) in
      let served : lookup r key ≡ some id = lookup-ring r (rebuild p.ring ms) key same ∙ found in
      (
        r,
        ms,
        id,
        ap (λ m. m >>= λ p'. ok (p', unwrap_or (lookup p'.ring key) first)) done
            ∙ ap (λ o. ok (with_ring p r is, unwrap_or o first)) served,
        record {
          vnodes_pos = rw vn f.vnodes_pos;
          built = λ _. (ms, e, same ∙ sym (rebuild-vnodes r p.ring ms vn));
        },
        e,
        found,
        rw ids at member,
      )
