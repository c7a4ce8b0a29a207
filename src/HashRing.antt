-- ===== src/HashRing.antt =====
-- src/hashring.rs: the consistent hash ring. Names and keys are their UTF-8 bytes. A `BTreeMap` is
-- the list of its entries in ascending order of the keys.
pub mod Map
pub mod Successor
pub mod Members
pub mod Owners
use Prim.Native.Nat.{bit_xor}
use echofront.Base.{
  ℕ, zero, suc, ◌+◌, ◌*◌, ◌/◌, ◌%◌, ◌^◌, max, List, [], ◌∷◌, map, Option, none, some, Bool, true,
  false,
}
use echofront.Base.Words.{u64_mod, add_u64}
use Map.{insert, first_from}

-- The loop of `fnv1a_64`, from the hash so far.
fnv1a_64_from : ℕ → List ℕ → ℕ
fnv1a_64_from h [] = h
fnv1a_64_from h (b ∷ bytes) = fnv1a_64_from (bit_xor h b * 0x0000_0100_0000_01b3 % u64_mod) bytes

unfoldable pub fnv1a_64 : List ℕ → ℕ
unfolding fnv1a_64_from
fnv1a_64 bytes = fnv1a_64_from 0xcbf2_9ce4_8422_2325 bytes

unfoldable pub mix64 : ℕ → ℕ
mix64 z =
    let y = bit_xor z (z / 2 ^ 30) * 0xbf58_476d_1ce4_e5b9 % u64_mod in
    let x = bit_xor y (y / 2 ^ 27) * 0x94d0_49bb_1331_11eb % u64_mod in bit_xor x (x / 2 ^ 31)

pub record ConsistentHashRing : Type 0 where
  pub vnodes : ℕ
  pub ring : List (ℕ × ℕ)
  pub members : List ℕ

-- `ConsistentHashRing::new`.
unfoldable pub new : ℕ → ConsistentHashRing
new vnodes = record { vnodes = max vnodes 1; ring = []; members = [] }

-- `mix64(base.wrapping_add(mix64(u64::from(v))))`: where virtual node `v` of a member stands.
pub point : ℕ → ℕ → ℕ
point base v = mix64 (add_u64 base (mix64 v))

-- The inner loop of `rebuild`, with `rounds` virtual nodes left from `v` on.
pub place : ℕ → ℕ → ℕ → ℕ → List (ℕ × ℕ) → List (ℕ × ℕ)
place id base zero v ring = ring
place id base (suc rounds) v ring = place id base rounds (suc v) (insert (point base v) id ring)

-- The outer loop of `rebuild`.
pub place_all : ℕ → List (ℕ × List ℕ) → List (ℕ × ℕ) → List (ℕ × ℕ)
place_all vnodes [] ring = ring
place_all vnodes ((id, name) ∷ members) ring =
    place_all vnodes members (place id (fnv1a_64 name) vnodes 0 ring)

unfoldable pub rebuild : ConsistentHashRing → List (ℕ × List ℕ) → ConsistentHashRing
unfolding place_all place point
rebuild r members = record r {
  members = map (λ m. m.0) members;
  ring = place_all r.vnodes members [];
}

unfoldable pub is_empty : ConsistentHashRing → Bool
is_empty r = elim r.ring [ [] ↦ true | _ ∷ _ ↦ false ]

-- From the hash of the key clockwise, and from the start of the ring past its end.
unfoldable pub lookup_from : ℕ → List (ℕ × ℕ) → Option ℕ
lookup_from h ring = elim (first_from h ring) [
  | some (_, id) ↦ some id
  | none ↦ elim ring [ [] ↦ none | (_, id) ∷ _ ↦ some id ]
]

unfoldable pub lookup : ConsistentHashRing → List ℕ → Option ℕ
lookup r key = elim r.ring [ [] ↦ none | _ ∷ _ ↦ lookup_from (mix64 (fnv1a_64 key)) r.ring ]
