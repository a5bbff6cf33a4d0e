-- ===== src/SharedLock/Scan.antt =====
-- The scan of the children in rlock and wlock of example/distribute_sharedlock.cc.
use zookeeper_cpp_client.Common.{
  ◌≤◌, ◌≡◌, refl, ap, ◌∙◌, Bool, true, false, List, [], ◌∷◌, none, some, arith, if◌then◌else◌, All,
  All-impl, if_split, if_cases, Bool-cases, ◌⊎◌, inl, inr,
}
use zookeeper_cpp_client.Codes.{Bytes}
use zookeeper_cpp_client.SharedLock.{place, sort, blocks, last_before, least_node}
use zookeeper_cpp_client.SharedLock.Names.{get_seq_no, data_less}

-- In the order of the sequence numbers.
abbrev pub IsOrdered : List Bytes → Type 0
IsOrdered [] = Unit
IsOrdered (c ∷ cs) = All (λ d. get_seq_no c ≤ get_seq_no d) cs × IsOrdered cs

module _ (P : Bytes → Type 0) where
  All-place : (c : Bytes) (ds : List Bytes) → P c → All P ds → All P (place c ds)
  All-place c [] h a = (h, tt)
  All-place c (d ∷ ds) h a = if_cases (All P) (data_less d c) _ _ (a.0, All-place c ds h a.1) (h, a)

  place-All : (c : Bytes) (ds : List Bytes) → All P (place c ds) → P c × All P ds
  place-All c [] a = a
  place-All c (d ∷ ds) a = split (data_less d c) (place-All c ds) a
    where
      split :
          (b : Bool)
          → (All P (place c ds) → P c × All P ds)
          → All P (if b then d ∷ place c ds else c ∷ d ∷ ds)
          → P c × All P (d ∷ ds)
      split true f a = let (h, rest) = f a.1 in (h, (a.0, rest))
      split false f a = a

  -- What holds of all the sorted children holds of the children.
  pub sort-All : (cs : List Bytes) → All P (sort cs) → All P cs
  sort-All [] a = tt
  sort-All (c ∷ cs) a = let (h, rest) = place-All c (sort cs) a in (h, sort-All cs rest)

place-IsOrdered : (c : Bytes) (ds : List Bytes) → IsOrdered ds → IsOrdered (place c ds)
unfolding data_less
place-IsOrdered c [] s = (tt, tt)
place-IsOrdered c (d ∷ ds) s =
    if_split IsOrdered (data_less d c) (d ∷ place c ds) (c ∷ d ∷ ds)
      (λ e. (
        All-place (λ x. get_seq_no d ≤ get_seq_no x) c ds (ground (arith, e)) s.0,
        place-IsOrdered c ds s.1,
      ))
      (λ e. (
        (
          ground (arith, e),
          All-impl (λ x. get_seq_no d ≤ get_seq_no x) (λ x. get_seq_no c ≤ get_seq_no x) ds
              (λ x h. ground (arith, e, h)) s.0,
        ),
        s,
      ))

sort-IsOrdered : (cs : List Bytes) → IsOrdered (sort cs)
sort-IsOrdered [] = tt
sort-IsOrdered (c ∷ cs) = place-IsOrdered c (sort cs) (sort-IsOrdered cs)

module _ (r : Bool) (path : Bytes) where
  -- The last child that blocks is the one with the largest number.
  record IsLast (c : Bytes) (cs : List Bytes) : Type 0 where
    pub blocks_path : blocks r path c ≡ true
    pub largest : All (λ d. blocks r path d ≡ true → get_seq_no d ≤ get_seq_no c) cs

  kept-IsLast :
      (cs : List Bytes) (f : Bytes)
      → IsOrdered cs
      → blocks r path f ≡ true
      → All (λ d. get_seq_no f ≤ get_seq_no d) cs
      → (c : Bytes) × (last_before r path cs (some f) ≡ some c)
        × (get_seq_no f ≤ get_seq_no c)
        × IsLast c cs
  kept-IsLast [] f s h a = (f, refl, omega arith, record { blocks_path = h; largest = tt })
  kept-IsLast (d ∷ ds) f s h a = elim (Bool-cases (blocks r path d)) [
    | inl e ↦
        let (c, run, l, m) = kept-IsLast ds d s.1 e s.0 in
        (
          c,
          ap (λ b. last_before r path ds (if b then some d else some f)) e ∙ run,
          omega (arith, a.0, l),
          record { blocks_path = m.blocks_path; largest = (λ x. l, m.largest) },
        )
    | inr e ↦
        let (c, run, l, m) = kept-IsLast ds f s.1 h a.1 in
        (
          c,
          ap (λ b. last_before r path ds (if b then some d else some f)) e ∙ run,
          l,
          record { blocks_path = m.blocks_path; largest = (λ x. absurd (cc (x, e)), m.largest) },
        )
  ]

  scanned :
      (cs : List Bytes)
      → IsOrdered cs
      → ((last_before r path cs none ≡ none) × All (λ d. blocks r path d ≡ false) cs)
        ⊎ ((c : Bytes) × (last_before r path cs none ≡ some c) × IsLast c cs)
  scanned [] s = inl (refl, tt)
  scanned (d ∷ ds) s = elim (Bool-cases (blocks r path d)) [
    | inl e ↦
        let (c, run, l, m) = kept-IsLast ds d s.1 e s.0 in
        inr (
          c,
          ap (λ b. last_before r path ds (if b then some d else none)) e ∙ run,
          record { blocks_path = m.blocks_path; largest = (λ x. l, m.largest) },
        )
    | inr e ↦ elim (scanned ds s.1) [
      | inl (run, a) ↦
          inl (ap (λ b. last_before r path ds (if b then some d else none)) e ∙ run, (e, a))
      | inr (c, run, m) ↦ inr (
        c,
        ap (λ b. last_before r path ds (if b then some d else none)) e ∙ run,
        record { blocks_path = m.blocks_path; largest = (λ x. absurd (cc (x, e)), m.largest) },
      )
    ]
  ]

  -- The lock is free for a path when no child blocks it, whatever the order of the children; else the
  -- child that is waited for blocks it, and no blocking child has a larger sequence number.
  pub least_node_lem :
      (children : List Bytes)
      → ((least_node r path children ≡ none) × All (λ d. blocks r path d ≡ false) children)
        ⊎ ((c : Bytes) × (least_node r path children ≡ some c)
            × (blocks r path c ≡ true)
            × All (λ d. blocks r path d ≡ true → get_seq_no d ≤ get_seq_no c) children)
  unfolding least_node
  least_node_lem children = elim (scanned (sort children) (sort-IsOrdered children)) [
    | inl (run, a) ↦ inl (run, sort-All (λ d. blocks r path d ≡ false) children a)
    | inr (c, run, m) ↦ inr (
      c,
      run,
      m.blocks_path,
      sort-All (λ d. blocks r path d ≡ true → get_seq_no d ≤ get_seq_no c) children m.largest,
    )
  ]
