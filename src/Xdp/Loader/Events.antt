-- ===== src/Xdp/Loader/Events.antt =====
-- The seeding and all events keep the maps of the kernel in step with the set of entries.
use Prim.Native.String.{String}
use mathlib.Core.Option.{some-injective}
use radixip.Base.{
  ℕ, ◌≡◌, ◌↔◌, inl, inr, sym, subst, Bool, true, false, ◌||◌, Option, none, some, List, [], ◌∷◌,
  if◌then◌else◌, ◌>>=◌, Bool-cases, Option-cases, arith, words, string_key, either_way,
}
use radixip.Net.{IpAddr}
use radixip.Xdp.{LpmTrie, PrefixNet}
use radixip.Xdp.Loader.{
  IpNet, Config, Maps, normalize, put, parse_net, accepted, seed, apply_to, apply_fields,
  apply_event, start, apply_events,
}
use radixip.Xdp.Loader.Sets.{In, has_nothing}
use radixip.Xdp.Loader.Normal.{IsAdmitted, normalize-IsAdmitted}
use radixip.Xdp.Loader.Synced.{
  IsSynced, Covers, blocks, put-IsSynced, delete-IsSynced, blocks-Covers,
}

module _ {N4 N6 T4 T6 : Type 0} ⦃a : PrefixNet 4 N4⦄ ⦃b : PrefixNet 16 N6⦄ (maps4 : LpmTrie T4)
    (maps6 : LpmTrie T6) (parse_cidr : String → Option (IpNet N4 N6))
    (parse_host : String → Option (IpNet N4 N6)) (config : Config N4 N6) where
  -- Maps as the loader creates them, where the kernel had none pinned.
  abbrev pub IsFresh : Maps T4 T6 N4 N6 → Type 0
  IsFresh m =
      (m.entries ≡ [])
      × ((len : ℕ) (key : List ℕ) (w : ℕ) → ¬ maps4.Stored m.v4 len key w)
      × ((len : ℕ) (key : List ℕ) (w : ℕ) → ¬ maps6.Stored m.v6 len key w)

  fresh-IsSynced : (m : Maps T4 T6 N4 N6) → IsFresh m → IsSynced maps4 maps6 config m
  fresh-IsSynced m (h, h4, h6) = rw h (
    λ len key w.
        (λ s. absurd (h4 len key w s), λ (_, n, i, _). absurd (has_nothing (IpNet.v4 n) i)),
    λ len key w.
        (λ s. absurd (h6 len key w s), λ (_, n, i, _). absurd (has_nothing (IpNet.v6 n) i)),
    λ net i. absurd (has_nothing net i),
  )

  accepted-IsAdmitted :
      (value : String) (net : IpNet N4 N6)
      → accepted parse_cidr parse_host config value ≡ some net
      → IsAdmitted config net
  unfolding accepted
  accepted-IsAdmitted value net h = elim (Option-cases (parse_net parse_cidr parse_host value)) [
    | inl p ↦ absurd (ground (arith, p, h))
    | inr (x, p) ↦
        normalize-IsAdmitted config x net (subst (λ o. (o >>= normalize config) ≡ some net) p h)
  ]

  seed-IsSynced :
      (items : List String) (m : Maps T4 T6 N4 N6)
      → IsSynced maps4 maps6 config m
      → IsSynced maps4 maps6 config (seed maps4 maps6 parse_cidr parse_host config items m)
  unfolding seed
  seed-IsSynced [] m h = h
  seed-IsSynced (item ∷ items) m h =
      elim (Option-cases (accepted parse_cidr parse_host config item)) [
        | inl p ↦ rw (seed, p) (seed-IsSynced items m h)
        | inr (net, p) ↦
            rw (seed, p)
              (seed-IsSynced items (put maps4 maps6 m net).0
                (put-IsSynced maps4 maps6 config m net (accepted-IsAdmitted item net p) h))
      ]

  apply_to-IsSynced :
      (adds : Bool) (cidr : String) (m : Maps T4 T6 N4 N6)
      → IsSynced maps4 maps6 config m
      → IsSynced maps4 maps6 config (apply_to maps4 maps6 parse_cidr parse_host config adds cidr m)
  unfolding apply_to
  apply_to-IsSynced adds cidr m h =
      elim (Option-cases (accepted parse_cidr parse_host config cidr)) [
        | inl p ↦ rw (apply_to, p) h
        | inr (net, p) ↦
            (let ok = accepted-IsAdmitted cidr net p in
              elim (Bool-cases adds) [
                | inl q ↦ rw (apply_to, p, q) (put-IsSynced maps4 maps6 config m net ok h)
                | inr q ↦ rw (apply_to, p, q) (delete-IsSynced maps4 maps6 config m net ok h)
              ])
      ]

  apply_fields-IsSynced :
      (fields : List String) (m : Maps T4 T6 N4 N6)
      → IsSynced maps4 maps6 config m
      → IsSynced maps4 maps6 config (apply_fields maps4 maps6 parse_cidr parse_host config fields m)
  unfolding apply_fields
  apply_fields-IsSynced [] m h = h
  apply_fields-IsSynced (first ∷ []) m h =
      either_way (IsSynced maps4 maps6 config)
        (string_key.same first "add" || string_key.same first "del") h
        (apply_to-IsSynced true first m h)
  apply_fields-IsSynced (first ∷ second ∷ _) m h =
      either_way (IsSynced maps4 maps6 config) (string_key.same first "add")
        (apply_to-IsSynced true second m h)
        (either_way (IsSynced maps4 maps6 config) (string_key.same first "del")
          (apply_to-IsSynced false second m h) (apply_to-IsSynced true first m h))

  apply_events-IsSynced :
      (payloads : List String) (m : Maps T4 T6 N4 N6)
      → IsSynced maps4 maps6 config m
      → IsSynced maps4 maps6 config
          (apply_events maps4 maps6 parse_cidr parse_host config payloads m)
  unfolding apply_events apply_event
  apply_events-IsSynced [] m h = h
  apply_events-IsSynced (payload ∷ payloads) m h =
      apply_events-IsSynced payloads
        (apply_event maps4 maps6 parse_cidr parse_host config payload m)
        (apply_fields-IsSynced (words payload) m h)

  refused :
      (closed : Bool) (m now : Maps T4 T6 N4 N6)
      → (if closed then none else some m) ≡ some now
      → m ≡ now
  refused true m now p = absurd (cc)
  refused false m now p = some-injective _ _ p

  start-IsSynced :
      (snapshot : Option (List String)) (m now : Maps T4 T6 N4 N6)
      → IsSynced maps4 maps6 config m
      → start maps4 maps6 parse_cidr parse_host config snapshot m ≡ some now
      → IsSynced maps4 maps6 config now
  unfolding start
  start-IsSynced none m now h p =
      subst (IsSynced maps4 maps6 config) (refused config.fail_closed m now p) h
  start-IsSynced (some items) m now h p =
      subst (IsSynced maps4 maps6 config) (some-injective _ _ p) (seed-IsSynced items m h)

  -- The loader starts with fresh maps and then applies messages.
  abbrev pub Runs :
      (snapshot : Option (List String)) (payloads : List String) → Maps T4 T6 N4 N6 → Type 0
  Runs snapshot payloads now =
      (m : Maps T4 T6 N4 N6) × (attached : Maps T4 T6 N4 N6) × IsFresh m
      × (start maps4 maps6 parse_cidr parse_host config snapshot m ≡ some attached)
      × (now ≡ apply_events maps4 maps6 parse_cidr parse_host config payloads attached)

  pub Runs-IsSynced :
      (snapshot : Option (List String)) (payloads : List String) (now : Maps T4 T6 N4 N6)
      → Runs snapshot payloads now
      → IsSynced maps4 maps6 config now
  Runs-IsSynced snapshot payloads now (m, attached, fresh, p, q) =
      subst (IsSynced maps4 maps6 config) (sym q) (
        apply_events-IsSynced payloads attached
          (start-IsSynced snapshot m attached (fresh-IsSynced m fresh) p))

  -- After the seeding of fresh maps and after all messages, the program in the kernel finds an
  -- address exactly if one of the loader's entries covers it.
  pub blocks-entries :
      (snapshot : Option (List String)) (payloads : List String) (now : Maps T4 T6 N4 N6)
      → Runs snapshot payloads now
      → (ip : IpAddr)
      → (blocks maps4 maps6 now ip ≡ true)
        ↔ ((net : IpNet N4 N6) × In now.entries net × Covers net ip)
  blocks-entries snapshot payloads now h ip =
      blocks-Covers maps4 maps6 config now ip (Runs-IsSynced snapshot payloads now h)
