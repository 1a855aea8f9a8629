-- ===== src/Art/Sharded/Alike.antt =====
-- A sharded adapter answers as one adapter.
use mathlib.Core.Option.{some-injective}
use radixip.Base.{
  ℕ, zero, suc, ◌%◌, ◌<◌, ◌≡◌, refl, sym, ap, ◌∙◌, false, Option, none, some, Option-cases, inl,
  inr, List, [], ◌∷◌, ◌==◌, ◌>>=◌, or_else, map, map_option, arith,
}
use radixip.Net.{IpAddr, octets}
use radixip.Engine.Sharded.{get_shard, hash_v4, hash_v6}
use radixip.Art.Adapter
use radixip.Art.Adapter.{ArtEngineAdapter}
use radixip.Art.Sharded.{
  ShardedArtEngineAdapter, repeat, new, insert, shard_at, lookup, remove_all, remove, contains,
  clear, size,
}

-- A call that changes an adapter.
pub data Change (M : Type 0) : Type 0 where
  inserts : (ip : List ℕ) (prefix : ℕ) → M → Change M
  removes : (ip : List ℕ) (prefix : ℕ) → Change M
  clears : Change M

get_shard-lt : (n mask_bits : ℕ) (ip : IpAddr) → get_shard (suc n) mask_bits ip < suc n
unfolding get_shard
get_shard-lt n mask_bits (IpAddr.v4 o) = below (hash_v4 mask_bits o) n
  where
    below : (x n : ℕ) → x % suc n < suc n
    below x n = omega arith
get_shard-lt n mask_bits (IpAddr.v6 o) = below (hash_v6 mask_bits o) n
  where
    below : (x n : ℕ) → x % suc n < suc n
    below x n = omega arith

module _ {M : Type 0} where
  -- One adapter, until a freed pointer is met.
  unfoldable pub change : Change M → ArtEngineAdapter M → Option (ArtEngineAdapter M)
  change (inserts ip prefix m) a = some (Adapter.insert a ip prefix m).0
  change (removes ip prefix) a = map_option (λ r. r.0) (Adapter.remove a ip prefix)
  change clears a = some (Adapter.clear a)

  unfoldable pub changes : List (Change M) → ArtEngineAdapter M → Option (ArtEngineAdapter M)
  changes [] a = some a
  changes (c ∷ cs) a = change c a >>= changes cs

  unfoldable pub change_all :
      Change M → ShardedArtEngineAdapter M → Option (ShardedArtEngineAdapter M)
  change_all (inserts ip prefix m) s = some (insert s ip prefix m).0
  change_all (removes ip prefix) s = map_option (λ r. r.0) (remove s ip prefix)
  change_all clears s = some (clear s)

  unfoldable pub changes_all :
      List (Change M) → ShardedArtEngineAdapter M → Option (ShardedArtEngineAdapter M)
  changes_all [] s = some s
  changes_all (c ∷ cs) s = change_all c s >>= changes_all cs

  map-repeat :
      (f : ArtEngineAdapter M → ArtEngineAdapter M) (n : ℕ) (a : ArtEngineAdapter M)
      → map f (repeat n a) ≡ repeat n (f a)
  map-repeat f zero a = refl
  map-repeat f (suc n) a = ap (λ l. f a ∷ l) (map-repeat f n a)

  shard_at-repeat : (n i : ℕ) (a : ArtEngineAdapter M) → i < n → shard_at (repeat n a) i ≡ some a
  shard_at-repeat zero i a h = absurd (omega arith)
  shard_at-repeat (suc n) zero a h = refl
  shard_at-repeat (suc n) (suc i) a h = shard_at-repeat n i a (omega arith)

  remove_all-repeat :
      (n : ℕ) (a b : ArtEngineAdapter M) (r : Option M) (ip : List ℕ) (prefix : ℕ)
      → Adapter.remove a ip prefix ≡ some (b, r)
      → (x : Option M) × (remove_all (repeat n a) ip prefix ≡ some (repeat n b, x))
  unfolding remove_all
  remove_all-repeat zero a b r ip prefix h = (none, refl)
  remove_all-repeat (suc n) a b r ip prefix h =
      let (x, rest) = remove_all-repeat n a b r ip prefix h in
      (or_else r x, rw (remove_all, h, rest) refl)

  -- All shards of a sharded adapter are one adapter.
  abbrev IsAlike : (n : ℕ) → ShardedArtEngineAdapter M → ArtEngineAdapter M → Type 0
  IsAlike n s a = (s.shards ≡ repeat (suc n) a) × (s.num_shards ≡ suc n)

  change-IsAlike :
      (n : ℕ) (c : Change M) (s : ShardedArtEngineAdapter M) (a b : ArtEngineAdapter M)
      → IsAlike n s a
      → change c a ≡ some b
      → (s' : ShardedArtEngineAdapter M) × (change_all c s ≡ some s') × IsAlike n s' b
  unfolding change change_all insert remove clear
  change-IsAlike n (inserts ip prefix m) s a b (same, count) h =
      let f = λ (x : ArtEngineAdapter M). (Adapter.insert x ip prefix m).0 in
      (
        (insert s ip prefix m).0,
        refl,
        (
          ap (map f) same ∙ map-repeat f (suc n) a ∙ ap (repeat (suc n)) (some-injective _ _ h),
          count,
        ),
      )
  change-IsAlike n (removes ip prefix) s a b (same, count) h =
      elim (Option-cases (Adapter.remove a ip prefix)) [
        | inl p ↦ absurd (ground (arith, p, h))
        | inr (r, p) ↦
            (let first : r.0 ≡ b = some-injective _ _ (sym (ap (map_option (λ x. x.0)) p) ∙ h) in
              let (x, q) = remove_all-repeat (suc n) a r.0 r.1 ip prefix p in
              (
                record s { shards = repeat (suc n) r.0 },
                rw (remove, same, q) refl,
                (ap (repeat (suc n)) first, count),
              ))
      ]
  change-IsAlike n clears s a b (same, count) h = (
    clear s,
    refl,
    (
      ap (map Adapter.clear) same
          ∙ map-repeat Adapter.clear (suc n) a
          ∙ ap (repeat (suc n)) (some-injective _ _ h),
      count,
    ),
  )

  changes-IsAlike :
      (n : ℕ) (cs : List (Change M)) (s : ShardedArtEngineAdapter M) (a b : ArtEngineAdapter M)
      → IsAlike n s a
      → changes cs a ≡ some b
      → (s' : ShardedArtEngineAdapter M) × (changes_all cs s ≡ some s') × IsAlike n s' b
  unfolding changes changes_all
  changes-IsAlike n [] s a b (same, count) h =
      (s, refl, (same ∙ ap (repeat (suc n)) (some-injective _ _ h), count))
  changes-IsAlike n (c ∷ cs) s a b alike h = elim (Option-cases (change c a)) [
    | inl p ↦ absurd (ground (arith, p, h))
    | inr (a2, p) ↦
        (let (s2, q, alike2) = change-IsAlike n c s a a2 alike p in
          let rest : changes cs a2 ≡ some b = sym (ap (λ o. o >>= changes cs) p) ∙ h in
          let (s3, q3, alike3) = changes-IsAlike n cs s2 a2 b alike2 rest in
          (s3, ap (λ o. o >>= changes_all cs) q ∙ q3, alike3))
  ]

  lookup-IsAlike :
      (n : ℕ) (s : ShardedArtEngineAdapter M) (a : ArtEngineAdapter M) (ip : IpAddr)
      → IsAlike n s a
      → lookup s ip ≡ Adapter.lookup a (octets ip)
  unfolding lookup
  lookup-IsAlike n s a ip (same, count) =
      let nonzero : suc n == 0 ≡ false = ground arith in
      rw
        (
          lookup,
          count,
          nonzero,
          same,
          shard_at-repeat (suc n) (get_shard (suc n) s.mask_bits ip) a
              (get_shard-lt n s.mask_bits ip),
        )
        refl

  -- With at least one shard: where changes of one new adapter meet no freed pointer, the same
  -- changes of a new sharded adapter do not panic, and then its lookups, contains and size answer
  -- as those of the one adapter do.
  pub changes_all-alike :
      (n shard_size mask_bits : ℕ) (cs : List (Change M)) (a : ArtEngineAdapter M)
      → changes cs Adapter.new ≡ some a
      → (s : ShardedArtEngineAdapter M) × (changes_all cs (new (suc n) shard_size mask_bits)
          ≡ some s)
        × ((ip : IpAddr) → lookup s ip ≡ Adapter.lookup a (octets ip))
        × ((ip : List ℕ) → contains s ip ≡ Adapter.contains a ip)
        × (size s ≡ Adapter.size a)
  unfolding new contains size
  changes_all-alike n shard_size mask_bits cs a h =
      let (s, q, alike) =
        changes-IsAlike n cs (new (suc n) shard_size mask_bits) Adapter.new a (refl, refl) h in
      (
        s,
        q,
        λ ip. lookup-IsAlike n s a ip alike,
        λ ip. rw (contains, alike.0) refl,
        rw (size, alike.0) refl,
      )
