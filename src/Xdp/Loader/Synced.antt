-- ===== src/Xdp/Loader/Synced.antt =====
-- The maps of the kernel and the set of entries of the loader, over all events.
use radixip.Base.{
  ℕ, ◌≡◌, ◌↔◌, inl, inr, sym, subst, Bool, true, false, List, Bool-cases, string_key,
}
use radixip.Net.{IpAddr}
use radixip.Xdp.{LpmTrie, PrefixNet, Agree}
use radixip.Xdp.Kernel.{hit}
use radixip.Xdp.Tracks.{Tracks, Tracks-same, Tracks-insert, Tracks-remove, hit-Tracks}
use radixip.Xdp.Loader.{IpNet, v4, v6, Config, Maps, add, discard, put, delete}
use radixip.Xdp.Loader.Families.{
  Only4, Only6, add4, add6, add46, add64, discard4, discard6, discard46, discard64,
}
use radixip.Xdp.Loader.Sets.{In, v4_injective, v6_injective, has-add, has-discard}
use radixip.Xdp.Loader.Normal.{IsAdmitted}

module _ {N4 N6 : Type 0} ⦃a : PrefixNet 4 N4⦄ ⦃b : PrefixNet 16 N6⦄ where
  -- A network covers an address of its family.
  abbrev pub Covers : IpNet N4 N6 → IpAddr → Type 0
  Covers (v4 n) (IpAddr.v4 o) = Agree (a.prefix_len n) o (a.addr n)
  Covers (v4 n) (IpAddr.v6 o) = true ≡ false
  Covers (v6 n) (IpAddr.v4 o) = true ≡ false
  Covers (v6 n) (IpAddr.v6 o) = Agree (b.prefix_len n) o (b.addr n)

  added :
      (config : Config N4 N6) (net : IpNet N4 N6) (set : List (IpNet N4 N6))
      → IsAdmitted config net
      → ((x : IpNet N4 N6) → In set x → IsAdmitted config x)
      → (x : IpNet N4 N6) → In (add net set) x
      → IsAdmitted config x
  added config net set ok adm x h = elim ((has-add x net set).0 h) [
    | inl e ↦ subst (IsAdmitted config) (sym e) ok
    | inr i ↦ adm x i
  ]

  module _ {T4 T6 : Type 0} (maps4 : LpmTrie T4) (maps6 : LpmTrie T6) where
    -- Each trie holds the entries of its family, and the configuration admits every entry.
    abbrev pub IsSynced : Config N4 N6 → Maps T4 T6 N4 N6 → Type 0
    IsSynced config m =
        Tracks maps4 4 a m.v4 (Only4 m.entries)
        × Tracks maps6 16 b m.v6 (Only6 m.entries)
        × ((net : IpNet N4 N6) → In m.entries net → IsAdmitted config net)

    -- The maps of the loader as the kernel reads them.
    abbrev pub blocks : Maps T4 T6 N4 N6 → IpAddr → Bool
    blocks m (IpAddr.v4 o) = hit maps4 m.v4 32 o
    blocks m (IpAddr.v6 o) = hit maps6 m.v6 128 o

    canonical4 :
        (config : Config N4 N6) (m : Maps T4 T6 N4 N6)
        → ((net : IpNet N4 N6) → In m.entries net → IsAdmitted config net)
        → (n : N4) → Only4 m.entries n
        → a.trunc n ≡ n
    canonical4 config m adm n i = v4_injective (a.trunc n) n (adm (v4 n) i).0

    canonical6 :
        (config : Config N4 N6) (m : Maps T4 T6 N4 N6)
        → ((net : IpNet N4 N6) → In m.entries net → IsAdmitted config net)
        → (n : N6) → Only6 m.entries n
        → b.trunc n ≡ n
    canonical6 config m adm n i = v6_injective (b.trunc n) n (adm (v6 n) i).0

    in4 :
        (m : Maps T4 T6 N4 N6) (net : IpNet N4 N6) (o : List ℕ)
        → In m.entries net
        → Covers net (IpAddr.v4 o)
        → (n : N4) × Only4 m.entries n × Agree (a.prefix_len n) o (a.addr n)
    in4 m (v4 n) o i c = (n, i, c)
    in4 m (v6 n) o i c = absurd (cc)

    in6 :
        (m : Maps T4 T6 N4 N6) (net : IpNet N4 N6) (o : List ℕ)
        → In m.entries net
        → Covers net (IpAddr.v6 o)
        → (n : N6) × Only6 m.entries n × Agree (b.prefix_len n) o (b.addr n)
    in6 m (v4 n) o i c = absurd (cc)
    in6 m (v6 n) o i c = (n, i, c)

    pub put-IsSynced :
        (config : Config N4 N6) (m : Maps T4 T6 N4 N6) (net : IpNet N4 N6)
        → IsAdmitted config net
        → IsSynced config m
        → IsSynced config (put maps4 maps6 m net).0
    unfolding put
    put-IsSynced config m (v4 n) ok (h4, h6, adm) =
        let set = m.entries in
        elim (Bool-cases (maps4.insert m.v4 (a.prefix_len n) (a.addr (a.trunc n)) 1).1) [
          | inl p ↦ rw p (
            Tracks-insert maps4 4 a m.v4 (Only4 set) (Only4 (add (v4 n) set)) n (λ k. add4 n k set)
                (canonical4 config m adm) (v4_injective (a.trunc n) n ok.0) p h4,
            Tracks-same maps6 16 b m.v6 (Only6 set) (Only6 (add (v4 n) set)) (λ k. add46 n k set)
                h6,
            added config (v4 n) set ok adm,
          )
          | inr p ↦
              rw (p, maps4.insert_err m.v4 (a.prefix_len n) (a.addr (a.trunc n)) 1 p) (h4, h6, adm)
        ]
    put-IsSynced config m (v6 n) ok (h4, h6, adm) =
        let set = m.entries in
        elim (Bool-cases (maps6.insert m.v6 (b.prefix_len n) (b.addr (b.trunc n)) 1).1) [
          | inl p ↦ rw p (
            Tracks-same maps4 4 a m.v4 (Only4 set) (Only4 (add (v6 n) set)) (λ k. add64 n k set) h4,
            Tracks-insert maps6 16 b m.v6 (Only6 set) (Only6 (add (v6 n) set)) n (λ k. add6 n k set)
                (canonical6 config m adm) (v6_injective (b.trunc n) n ok.0) p h6,
            added config (v6 n) set ok adm,
          )
          | inr p ↦
              rw (p, maps6.insert_err m.v6 (b.prefix_len n) (b.addr (b.trunc n)) 1 p) (h4, h6, adm)
        ]

    pub delete-IsSynced :
        (config : Config N4 N6) (m : Maps T4 T6 N4 N6) (net : IpNet N4 N6)
        → IsAdmitted config net
        → IsSynced config m
        → IsSynced config (delete maps4 maps6 m net)
    unfolding delete
    delete-IsSynced config m (v4 n) ok (h4, h6, adm) =
        let set = m.entries in
        (
          Tracks-remove maps4 4 a m.v4 (Only4 set) (Only4 (discard (v4 n) set)) n
              (λ k. discard4 n k set) (canonical4 config m adm) (v4_injective (a.trunc n) n ok.0)
              h4,
          Tracks-same maps6 16 b m.v6 (Only6 set) (Only6 (discard (v4 n) set))
              (λ k. discard46 n k set) h6,
          λ net i. adm net ((has-discard net (v4 n) set).0 i).0,
        )
    delete-IsSynced config m (v6 n) ok (h4, h6, adm) =
        let set = m.entries in
        (
          Tracks-same maps4 4 a m.v4 (Only4 set) (Only4 (discard (v6 n) set))
              (λ k. discard64 n k set) h4,
          Tracks-remove maps6 16 b m.v6 (Only6 set) (Only6 (discard (v6 n) set)) n
              (λ k. discard6 n k set) (canonical6 config m adm) (v6_injective (b.trunc n) n ok.0)
              h6,
          λ net i. adm net ((has-discard net (v6 n) set).0 i).0,
        )

    -- The program in the kernel finds an address if an entry covers it.
    pub blocks-Covers :
        (config : Config N4 N6) (m : Maps T4 T6 N4 N6) (ip : IpAddr)
        → IsSynced config m
        → (blocks m ip ≡ true) ↔ ((net : IpNet N4 N6) × In m.entries net × Covers net ip)
    blocks-Covers config m (IpAddr.v4 o) (h4, h6, adm) =
        let law = hit-Tracks maps4 4 a m.v4 (Only4 m.entries) o h4 in
        (λ h. (let (n, i, c) = law.0 h in (v4 n, i, c)), λ (net, i, c). law.1 (in4 m net o i c))
    blocks-Covers config m (IpAddr.v6 o) (h4, h6, adm) =
        let law = hit-Tracks maps6 16 b m.v6 (Only6 m.entries) o h6 in
        (λ h. (let (n, i, c) = law.0 h in (v6 n, i, c)), λ (net, i, c). law.1 (in6 m net o i c))
