-- ===== src/Hybrid/Planes.antt =====
-- What the data plane of a hybrid engine follows of the control plane, over standard engines.
use Prim.Native.String.{String}
use radixip.Base.{
  ◌≡◌, ◌⊎◌, inl, inr, refl, ap, sym, subst, ◌∙◌, Bool, true, false, not, ◌&&◌, is_some, Result, ok,
  err, List, [], ◌∷◌, All, All-append, Bool-cases, arith,
}
use radixip.RouteTree.{RouteTree}
use radixip.Engine.{StandardEngine, inserted}
use radixip.Engine
use radixip.RadixEngine.{standard}
use radixip.Hybrid.{
  RedisCacheUpdate, insert_update, remove_update, clear_update, HybridEngine, publish_json,
  spawn_publish_insert, replicate_insert, settle_insert, insert, lookup, replicate_remove, remove,
  contains, replicate_clear, clear,
}

-- A call of a hybrid engine.
pub data Call (R I M : Type 0) : Type 0 where
  insert_call : R → M → Call R I M
  lookup_call : I → Call R I M
  remove_call : R → Call R I M
  clear_call : Call R I M

Result-cases : {A E : Type 0} (r : Result A E) → ((a : A) × (r ≡ ok a)) ⊎ ((e : E) × (r ≡ err e))
Result-cases (ok a) = inl (a, refl)
Result-cases (err e) = inr (e, refl)

module _ {T R I M : Type 0} (t : RouteTree T R I M) where
  insert-tree :
      (e : StandardEngine T) (p : R) (m : M)
      → (Engine.insert t e p m).0.tree ≡ (t.insert e.tree p m).0
  unfolding Engine.insert inserted
  insert-tree e p m = elim (Result-cases (t.insert e.tree p m).1) [
    | inl (b, q) ↦ rw (Engine.insert, q) refl
    | inr (s, q) ↦ rw (Engine.insert, q) refl
  ]

  insert_ok :
      (e : StandardEngine T) (p : R) (m : M) (b : Bool)
      → (t.insert e.tree p m).1 ≡ ok b
      → (Engine.insert t e p m).1 ≡ ok tt
  unfolding Engine.insert
  insert_ok e p m b q = rw (Engine.insert, q) refl

  insert_err :
      (e : StandardEngine T) (p : R) (m : M) (s : String)
      → (t.insert e.tree p m).1 ≡ err s
      → (Engine.insert t e p m).1 ≡ err s
  unfolding Engine.insert
  insert_err e p m s q = rw (Engine.insert, q) refl

  remove-tree :
      (e : StandardEngine T) (p : R) → (Engine.remove t e p).0.tree ≡ (t.remove e.tree p).0
  unfolding Engine.remove
  remove-tree e p = elim (Bool-cases (is_some (t.remove e.tree p).1)) [
    | inl q ↦ rw q refl
    | inr q ↦ rw q refl
  ]

  clear-tree : (e : StandardEngine T) → (Engine.clear t e).tree ≡ t.clear e.tree
  unfolding Engine.clear
  clear-tree e = refl

  lookup-tree : (e : StandardEngine T) (ip : I) → (Engine.lookup t e ip).0.tree ≡ e.tree
  unfolding Engine.lookup
  lookup-tree e ip = refl

  abbrev pub Hybrids : Type 0
  Hybrids = HybridEngine (StandardEngine T) R M

  module _ (redis : Bool) where
    unfoldable pub after : Call R I M → Hybrids → Hybrids
    after (insert_call p m) h = (insert (standard t) redis h p m).0
    after (lookup_call ip) h = (lookup (standard t) redis h ip).0
    after (remove_call p) h = (remove (standard t) redis h p).0
    after clear_call h = clear (standard t) redis h

    unfoldable pub after_all : List (Call R I M) → Hybrids → Hybrids
    after_all [] h = h
    after_all (c ∷ cs) h = after_all cs (after c h)

  -- An insertion that fails leaves the tree as it was.
  abbrev pub KeepsOnError : Type 0
  KeepsOnError =
      (x : T) (p : R) (m : M) (s : String) → (t.insert x p m).1 ≡ err s → (t.insert x p m).0 ≡ x

  -- Without a client, and with one tree in both planes.
  abbrev pub IsTwin : Hybrids → Type 0
  IsTwin h = (h.has_client ≡ false) × (h.data_plane.tree ≡ h.control_plane.tree)

  after-IsTwin : KeepsOnError → (c : Call R I M) (h : Hybrids) → IsTwin h → IsTwin (after true c h)
  unfolding after insert settle_insert lookup remove clear replicate_insert replicate_remove
      replicate_clear
  after-IsTwin keeps (insert_call p m) h (alone, same) =
      let control = (Engine.insert t h.control_plane p m).0 in
      let kept = record h { control_plane = control } in
      let twin_after : Result (Unit {0}) String → Type 0 =
        λ r. IsTwin (settle_insert (standard t) true r p m kept).0 in
      elim (Result-cases (t.insert h.control_plane.tree p m).1) [
        | inl (b, q) ↦ subst twin_after (sym (insert_ok h.control_plane p m b q)) (
            rw alone (
              refl,
              insert-tree h.data_plane p m
                  ∙ ap (λ x. (t.insert x p m).0) same
                  ∙ sym (insert-tree h.control_plane p m),
            ))
        | inr (s, q) ↦ subst twin_after (sym (insert_err h.control_plane p m s q)) (
          alone,
          same ∙ sym (keeps h.control_plane.tree p m s q) ∙ sym (insert-tree h.control_plane p m),
        )
      ]
  after-IsTwin keeps (lookup_call ip) h (alone, same) = (alone, lookup-tree h.data_plane ip ∙ same)
  after-IsTwin keeps (remove_call p) h (alone, same) =
      rw (remove, replicate_remove, alone)
        (
          refl,
          remove-tree h.data_plane p
              ∙ ap (λ x. (t.remove x p).0) same
              ∙ sym (remove-tree h.control_plane p),
        )
  after-IsTwin keeps clear_call h (alone, same) =
      rw (clear, replicate_clear, alone)
        (
          refl,
          clear-tree h.data_plane ∙ ap (λ x. t.clear x) same ∙ sym (clear-tree h.control_plane),
        )

  after_all-IsTwin :
      KeepsOnError
      → (cs : List (Call R I M)) (h : Hybrids) → IsTwin h
      → IsTwin (after_all true cs h)
  unfolding after_all
  after_all-IsTwin keeps [] h twin = twin
  after_all-IsTwin keeps (c ∷ cs) h twin =
      after_all-IsTwin keeps cs (after true c h) (after-IsTwin keeps c h twin)

  -- Without a client, from planes with one tree, over a tree that a failing insertion keeps: after
  -- any calls, a lookup and contains answer as the control plane would.
  pub lookup-control :
      (cs : List (Call R I M)) (h : Hybrids) (ip : I) (prefix : R)
      → KeepsOnError
      → IsTwin h
      → ((lookup (standard t) true (after_all true cs h) ip).1
          ≡ (Engine.lookup t (after_all true cs h).control_plane ip).1)
        × (contains (standard t) true (after_all true cs h) prefix
            ≡ Engine.contains t (after_all true cs h).control_plane prefix)
  unfolding lookup contains Engine.lookup Engine.contains
  lookup-control cs h ip prefix keeps twin =
      let same = (after_all-IsTwin keeps cs h twin).1 in
      (ap (λ x. t.lookup x ip) same, ap (λ x. t.contains x prefix) same)

  abbrev pub IsInsertion : RedisCacheUpdate R M → Type 0
  IsInsertion (insert_update _ _) = Unit
  IsInsertion (remove_update _) = true ≡ false
  IsInsertion clear_update = true ≡ false

  -- In a build without the feature, or with a client.
  abbrev pub IsCut : (redis : Bool) → Hybrids → Type 0
  IsCut redis h = (redis && not h.has_client) ≡ false

  -- The data plane still holds a tree, and only insertions are sent.
  abbrev pub Holds : Hybrids → T → Type 0
  Holds h x = (h.data_plane.tree ≡ x) × All IsInsertion h.spawned

  spawned-Holds :
      (redis : Bool) (p : R) (m : M) (h : Hybrids) (x : T)
      → IsCut redis h
      → Holds h x
      → IsCut redis (replicate_insert (standard t) redis p m h)
        × Holds (replicate_insert (standard t) redis p m h) x
  unfolding replicate_insert publish_json spawn_publish_insert
  spawned-Holds false p m h x cut hold = (cut, hold)
  spawned-Holds true p m h x cut (same, sent) =
      let client : h.has_client ≡ true = ground (arith, cut) in
      rw client
        (refl, (same, All-append IsInsertion h.spawned (insert_update p m ∷ []) sent (tt, tt)))

  after-Holds :
      (redis : Bool) (c : Call R I M) (h : Hybrids) (x : T)
      → IsCut redis h
      → Holds h x
      → IsCut redis (after redis c h) × Holds (after redis c h) x
  unfolding after insert settle_insert lookup remove clear replicate_remove replicate_clear
      publish_json
  after-Holds redis (insert_call p m) h x cut (same, sent) =
      let control = (Engine.insert t h.control_plane p m).0 in
      let kept = record h { control_plane = control } in
      let holds_after : Result (Unit {0}) String → Type 0 = λ r.
        IsCut redis (settle_insert (standard t) redis r p m kept).0
        × Holds (settle_insert (standard t) redis r p m kept).0 x in
      elim (Result-cases (Engine.insert t h.control_plane p m).1) [
        | inl (u, q) ↦ subst holds_after (sym q) (spawned-Holds redis p m kept x cut (same, sent))
        | inr (s, q) ↦ subst holds_after (sym q) (cut, (same, sent))
      ]
  after-Holds redis (lookup_call ip) h x cut (same, sent) =
      (cut, (lookup-tree h.data_plane ip ∙ same, sent))
  after-Holds false (remove_call p) h x cut hold = (cut, hold)
  after-Holds true (remove_call p) h x cut hold =
      let client : h.has_client ≡ true = ground (arith, cut) in rw client (refl, hold)
  after-Holds false clear_call h x cut hold = (cut, hold)
  after-Holds true clear_call h x cut hold =
      let client : h.has_client ≡ true = ground (arith, cut) in rw client (refl, hold)

  after_all-Holds :
      (redis : Bool) (cs : List (Call R I M)) (h : Hybrids) (x : T)
      → IsCut redis h
      → Holds h x
      → Holds (after_all redis cs h) x
  unfolding after_all
  after_all-Holds redis [] h x cut hold = hold
  after_all-Holds redis (c ∷ cs) h x cut hold =
      let (cut2, hold2) = after-Holds redis c h x cut hold in
      after_all-Holds redis cs (after redis c h) x cut2 hold2

  -- Without the feature, or with a client: no call changes what a lookup or contains answers, and
  -- the updates that are sent are insertions only.
  pub lookup-cut :
      (redis : Bool) (cs : List (Call R I M)) (h : Hybrids) (ip : I) (prefix : R)
      → IsCut redis h
      → h.spawned ≡ []
      → ((lookup (standard t) redis (after_all redis cs h) ip).1
          ≡ (lookup (standard t) redis h ip).1)
        × (contains (standard t) redis (after_all redis cs h) prefix
            ≡ contains (standard t) redis h prefix)
        × All IsInsertion (after_all redis cs h).spawned
  unfolding lookup contains Engine.lookup Engine.contains
  lookup-cut redis cs h ip prefix cut empty =
      let (same, sent) =
        after_all-Holds redis cs h h.data_plane.tree cut
          (refl, subst (All IsInsertion) (sym empty) tt) in
      (ap (λ x. t.lookup x ip) same, ap (λ x. t.contains x prefix) same, sent)
