-- ===== src/Art/Layouts.antt =====
-- The children of a node of lib/rust/engine/src/art/mod.rs as a map from bytes, through the growth
-- of the node.
use radixip.Base.{
  ℕ, suc, ◌+◌, ◌≤◌, ◌<◌, ◌≡◌, refl, sym, ap, subst, ◌∙◌, true, false, Bool-cases, Option,
  Option-cases, none, some, ltb, leb, ◌==◌, arith, if◌then◌else◌, inl, inr,
}
use radixip.Art.{
  NodeBox, null, Inner, n4, n16, n48, n256, Slots, unused, slot, is_null, count, find_slot,
  find_child, push, put, index_slots, child_slots, spread, add_child_256, add_child_48,
  add_child_16, add_child,
}

module _ {M : Type 0} where
  -- Different keys with children that are there.
  unfoldable pub AreSlots : Slots M → Type 0
  AreSlots unused = Unit
  AreSlots (slot k c rest) = (find_slot rest k ≡ none) × (is_null c ≡ false) × AreSlots rest

  -- Every index that is in use names a child below `num`.
  pub IsIndex : (num : ℕ) (index : ℕ → ℕ) (children : ℕ → NodeBox M) → Type 0
  IsIndex num index children =
      (b : ℕ) → index b < 48 → (index b < num) × (is_null (children (index b)) ≡ false)

  unfoldable pub IsFit : Inner M → Type 0
  IsFit (n4 s) = AreSlots s × (count s ≤ 4)
  IsFit (n16 s) = AreSlots s × (count s ≤ 16)
  IsFit (n48 num index children) = IsIndex num index children × (num < 45)
  IsFit (n256 num children) = Unit

  abbrev find_48 : (index : ℕ → ℕ) (children : ℕ → NodeBox M) (x : ℕ) → Option (NodeBox M)
  find_48 index children x = if ltb (index x) 48 then some (children (index x)) else none

  abbrev find_256 : (children : ℕ → NodeBox M) (x : ℕ) → Option (NodeBox M)
  find_256 children x = if is_null (children x) then none else some (children x)

  count-push : (s : Slots M) (b : ℕ) (c : NodeBox M) → count (push s b c) ≡ suc (count s)
  count-push unused b c = refl
  count-push (slot k d rest) b c = ap suc (count-push rest b c)

  find_slot-push :
      (s : Slots M) (b : ℕ) (c : NodeBox M) (x : ℕ)
      → find_slot s b ≡ none
      → find_slot (push s b c) x ≡ (if x == b then some c else find_slot s x)
  unfolding find_slot
  find_slot-push unused b c x h = ground arith
  find_slot-push (slot k d rest) b c x h =
      let absent : find_slot rest b ≡ none = ground (arith, h) in
      ground (arith, h, find_slot-push rest b c x absent)

  push-AreSlots :
      (s : Slots M) (b : ℕ) (c : NodeBox M)
      → AreSlots s
      → find_slot s b ≡ none
      → is_null c ≡ false
      → AreSlots (push s b c)
  unfolding AreSlots find_slot
  push-AreSlots unused b c h e p = (refl, p, tt)
  push-AreSlots (slot k d rest) b c (fresh, there, hs) e p =
      let absent : find_slot rest b ≡ none = ground (arith, e) in
      let other : k == b ≡ false = ground (arith, e) in
      (
        find_slot-push rest b c k absent ∙ ground (arith, fresh, other),
        there,
        push-AreSlots rest b c hs absent p,
      )

  -- A new child in a map with an index.
  find_48-put :
      (num : ℕ) (index : ℕ → ℕ) (children : ℕ → NodeBox M) (b : ℕ) (c : NodeBox M) (x : ℕ)
      → IsIndex num index children
      → num < 48
      → find_48 (put index b num) (put children num c) x
        ≡ (if x == b then some c else find_48 index children x)
  unfolding IsIndex
  find_48-put num index children b c x h l = elim (Bool-cases (x == b)) [
    | inl same ↦ ground (arith, same)
    | inr other ↦ elim (Bool-cases (ltb (index x) 48)) [
      | inl used ↦ let below = (h x (ground (arith, used))).0 in ground (arith, other, used, below)
      | inr free ↦ ground (arith, other, free)
    ]
  ]

  put-IsIndex :
      (num : ℕ) (index : ℕ → ℕ) (children : ℕ → NodeBox M) (b : ℕ) (c : NodeBox M)
      → IsIndex num index children
      → is_null c ≡ false
      → IsIndex (suc num) (put index b num) (put children num c)
  unfolding IsIndex
  put-IsIndex num index children b c h p x used = elim (Bool-cases (x == b)) [
    | inl same ↦ (ground (arith, same), ground (arith, same, p))
    | inr other ↦
        let before : index x < 48 = ground (arith, other, used) in
        let (below, there) = h x before in
        (ground (arith, other, below), ground (arith, other, below, there))
  ]

  find_256-spread :
      (num : ℕ) (index : ℕ → ℕ) (children : ℕ → NodeBox M) (x : ℕ)
      → IsIndex num index children
      → find_256 (spread index children) x ≡ find_48 index children x
  unfolding IsIndex
  find_256-spread num index children x h = elim (Bool-cases (ltb (index x) 48)) [
    | inl used ↦ let there = (h x (ground (arith, used))).1 in ground (arith, used, there)
    | inr free ↦ ground (arith, free)
  ]

  find_256-put :
      (children : ℕ → NodeBox M) (b : ℕ) (c : NodeBox M) (x : ℕ)
      → is_null c ≡ false
      → find_256 (put children b c) x ≡ (if x == b then some c else find_256 children x)
  find_256-put children b c x p = elim (Bool-cases (x == b)) [
    | inl same ↦ ground (arith, same, p)
    | inr other ↦ ground (arith, other)
  ]

  child_slots_below :
      (s : Slots M) (i : ℕ) (f : ℕ → NodeBox M) (j : ℕ) → j < i → child_slots s i f j ≡ f j
  child_slots_below unused i f j l = refl
  child_slots_below (slot k c rest) i f j l =
      child_slots_below rest (suc i) (put f i c) j (omega arith) ∙ ground arith

  -- The index of a node that has grown leads to the children that its keys had.
  index_slots_absent :
      (s : Slots M) (i : ℕ) (index : ℕ → ℕ) (b : ℕ)
      → find_slot s b ≡ none
      → index_slots s i index b ≡ index b
  unfolding find_slot
  index_slots_absent unused i index b h = refl
  index_slots_absent (slot k c rest) i index b h =
      let absent : find_slot rest b ≡ none = ground (arith, h) in
      let other : k == b ≡ false = ground (arith, h) in
      index_slots_absent rest (suc i) (put index k i) b absent ∙ ground (arith, other)

  index_slots_present :
      (s : Slots M) (i : ℕ) (index : ℕ → ℕ) (f : ℕ → NodeBox M) (b : ℕ) (c : NodeBox M)
      → AreSlots s
      → find_slot s b ≡ some c
      → (index_slots s i index b < i + count s)
        × (child_slots s i f (index_slots s i index b) ≡ c)
        × (is_null c ≡ false)
  unfolding find_slot AreSlots
  index_slots_present unused i index f b c h e = absurd (cc)
  index_slots_present (slot k d rest) i index f b c (fresh, there, hs) e =
      elim (Bool-cases (k == b)) [
        | inl same ↦
            let kb : k ≡ b = ground (arith, same) in
            let dc : d ≡ c = ground (arith, same, e) in
            let at_i : index_slots rest (suc i) (put index k i) b ≡ i =
              index_slots_absent rest (suc i) (put index k i) b
                (subst (λ (x : ℕ). find_slot rest x ≡ none) kb fresh)
              ∙ ground (arith, kb) in
            (
              omega (arith, at_i),
              ap (child_slots rest (suc i) (put f i d)) at_i
                  ∙ child_slots_below rest (suc i) (put f i d) i (omega arith)
                  ∙ ground (arith, dc),
              subst (λ (n : NodeBox M). is_null n ≡ false) dc there,
            )
        | inr other ↦
            let later : find_slot rest b ≡ some c = ground (arith, other, e) in
            let (below, child, real) =
              index_slots_present rest (suc i) (put index k i) (put f i d) b c hs later in
            (omega (arith, below), child, real)
      ]

  abbrev grown_index : Slots M → ℕ → ℕ
  grown_index s = index_slots s 0 (λ _. 48)

  abbrev grown_children : Slots M → ℕ → NodeBox M
  grown_children s = child_slots s 0 (λ _. null)

  find_48-grown :
      (s : Slots M) (x : ℕ)
      → AreSlots s
      → count s ≤ 48
      → find_48 (grown_index s) (grown_children s) x ≡ find_slot s x
  find_48-grown s x h l = elim (Option-cases (find_slot s x)) [
    | inl absent ↦
        let free = index_slots_absent s 0 (λ _. 48) x absent in ground (arith, free, absent)
    | inr (c, e) ↦
        let (below, child, _) = index_slots_present s 0 (λ _. 48) (λ _. null) x c h e in
        let used : ltb (grown_index s x) 48 ≡ true = ground (arith, below) in
        rw used (ap some child ∙ sym e)
  ]

  grown-IsIndex :
      (s : Slots M)
      → AreSlots s
      → count s ≤ 48
      → IsIndex (count s) (grown_index s) (grown_children s)
  unfolding IsIndex
  grown-IsIndex s h l b used = elim (Option-cases (find_slot s b)) [
    | inl absent ↦
        let free = index_slots_absent s 0 (λ _. 48) b absent in absurd (omega (arith, free, used))
    | inr (c, e) ↦
        let (below, child, real) = index_slots_present s 0 (λ _. 48) (λ _. null) b c h e in
        (omega (arith, below), ap is_null child ∙ real)
  ]

  -- What a call of add_child is to do.
  IsAdded : Inner M → (b : ℕ) → NodeBox M → Inner M → Type 0
  IsAdded n b c after =
      IsFit after × ((x : ℕ) → find_child after x ≡ (if x == b then some c else find_child n x))

  add_child_48-IsAdded :
      (num : ℕ) (index : ℕ → ℕ) (children : ℕ → NodeBox M) (b : ℕ) (c : NodeBox M)
      → IsIndex num index children
      → num < 45
      → is_null c ≡ false
      → IsAdded (n48 num index children) b c (add_child_48 num index children b c)
  unfolding IsAdded IsFit add_child_48 find_child
  add_child_48-IsAdded num index children b c h l p =
      let room : leb 48 num ≡ false = ground arith in
      let after = put-IsIndex num index children b c h p in
      elim (Bool-cases (leb 45 (num + 1))) [
        | inl full ↦
            rw (room, full)
              (
                tt,
                λ x.
                    find_256-spread (suc num) (put index b num) (put children num c) x after
                    ∙ find_48-put num index children b c x h (omega arith),
              )
        | inr fits ↦
            rw (room, fits)
              (
                (ground (arith, after), ground (arith, fits)),
                λ x. find_48-put num index children b c x h (omega arith),
              )
      ]

  add_child_16-IsAdded :
      (s : Slots M) (b : ℕ) (c : NodeBox M)
      → AreSlots s
      → count s ≤ 16
      → find_slot s b ≡ none
      → is_null c ≡ false
      → IsAdded (n16 s) b c (add_child_16 s b c)
  unfolding IsAdded IsFit add_child_16 find_child
  add_child_16-IsAdded s b c h l absent p = elim (Bool-cases (leb 16 (count s))) [
    | inl full ↦
        let (fit, found) =
          add_child_48-IsAdded (count s) (grown_index s) (grown_children s) b c
            (grown-IsIndex s h (omega arith)) (omega arith) p in
        rw full (
          fit,
          λ x. found x ∙ ap (λ o. if x == b then some c else o) (find_48-grown s x h (omega arith)),
        )
    | inr room ↦ rw room (
      (push-AreSlots s b c h absent p, ground (arith, room, count-push s b c)),
      λ x. find_slot-push s b c x absent,
    )
  ]

  -- A child that is added to a fit node, under a byte that has none, is found under that byte, the
  -- other bytes find what they found, and the node, which may have grown, is fit again.
  pub add_child-find_child :
      (n : Inner M) (b : ℕ) (c : NodeBox M)
      → IsFit n
      → find_child n b ≡ none
      → is_null c ≡ false
      → IsFit (add_child n b c)
        × ((x : ℕ) → find_child (add_child n b c) x ≡ (if x == b then some c else find_child n x))
  unfolding IsFit IsAdded add_child find_child add_child_256
  add_child-find_child (n4 s) b c (h, l) absent p = elim (Bool-cases (leb 4 (count s))) [
    | inl full ↦ rw full (add_child_16-IsAdded s b c h (omega arith) absent p)
    | inr room ↦ rw room (
      (push-AreSlots s b c h absent p, ground (arith, room, count-push s b c)),
      λ x. find_slot-push s b c x absent,
    )
  ]
  add_child-find_child (n16 s) b c (h, l) absent p = add_child_16-IsAdded s b c h l absent p
  add_child-find_child (n48 num index children) b c (h, l) absent p =
      add_child_48-IsAdded num index children b c h l p
  add_child-find_child (n256 num children) b c h absent p = (tt, λ x. find_256-put children b c x p)
