-- ===== src/Examples/Reliable.antt =====
-- The calls on the example's tree do not fail but for the state of the tree.
use zookeeper_cpp_client.Common.{
  ℕ, ◌≡◌, refl, ap, sym, subst, ◌⊎◌, Bool, true, false, [], ◌∷◌, some, arith, take, All, ◌∙◌,
  length, ◌≤◌,
}
use zookeeper_cpp_client.Codes.{Bytes, zok, znonode, znodeexists, znotempty}
use zookeeper_cpp_client.Zoo.{IsReliable}
use zookeeper_cpp_client.Zoo.Path.{slash, rfind, child}
use zookeeper_cpp_client.Examples.Tree.{
  Nodes, no_nodes, only_a, a_and_b, tree, Which, root, node_a, node_ab, other, which, here,
  create_at, list_at, delete_at, which-root, which-node_a, which-node_ab,
}

-- The paths that no call refuses.
abbrev pub usable : Which → Bool
usable node_a = true
usable node_ab = true
usable w = false

pub create-rc :
    (w : Which) (e : Nodes)
    → usable w ≡ true
    → let rc = (create_at w e).0 in (rc ≡ zok) ⊎ (rc ≡ znodeexists) ⊎ (rc ≡ znonode)
create-rc w e h = ground arith

pub create-parent :
    (p : Bytes) (w : Which) (e : Nodes) (i : ℕ)
    → which p ≡ w
    → (create_at w e).0 ≡ znonode
    → rfind slash p ≡ some i
    → usable (which (take i p)) ≡ true
unfolding rfind
create-parent p node_ab no_nodes i j h k =
    let at : some 2 ≡ some i = sym (ap (rfind slash) (which-node_ab p j)) ∙ k in
    let two : 2 ≡ i = cc at in
    subst (λ n. usable (which (take n p)) ≡ true) two
      (ap (λ p. usable (which (take 2 p))) (which-node_ab p j))
create-parent p _ e i j h k = absurd (ground (arith, h))

pub list-rc : (w : Which) (e : Nodes) → let rc = (list_at w e).0 in (rc ≡ zok) ⊎ (rc ≡ znonode)
list-rc w e = ground arith

pub list-usable :
    (p : Bytes) (w : Which) (e : Nodes)
    → which p ≡ w
    → usable w ≡ true
    → All (λ n. usable (which (child p n)) ≡ true) (list_at w e).1
list-usable p node_a a_and_b i h =
    (ap (λ p. usable (which (child p (b'b' ∷ [])))) (which-node_a p i), tt)
list-usable p node_a no_nodes i h = tt
list-usable p node_a only_a i h = tt
list-usable p node_ab a_and_b i h = tt
list-usable p node_ab no_nodes i h = tt
list-usable p node_ab only_a i h = tt
list-usable p root e i h = absurd (cc h)
list-usable p other e i h = absurd (cc h)

pub delete-rc :
    (w : Which) (e : Nodes)
    → usable w ≡ true
    → let rc = (delete_at w e).0 in (rc ≡ zok) ⊎ (rc ≡ znonode) ⊎ (rc ≡ znotempty)
delete-rc w e h = ground arith

abbrev pub tree-IsReliable : IsReliable tree
tree-IsReliable = record {
  connected = λ e. refl;
  is_valid = λ p. usable (which p);
  create_rc = λ p v fl n e h. create-rc (which p) e h;
  valid_parent = λ p v fl n e i h k j. create-parent p (which p) e i refl k j;
  children_rc = λ p e h. list-rc (which p) e;
  valid_children = λ p e h k. list-usable p (which p) e refl h;
  delete_rc = λ p e h. delete-rc (which p) e h;
}

-- No path is longer than four bytes.
pub tree-bounded : (e : Nodes) (q : Bytes) → here e (which q) ≡ true → length q ≤ 4
tree-bounded e q h = bounded (which q) refl h
  where
    bounded : (w : Which) → which q ≡ w → here e w ≡ true → length q ≤ 4
    bounded root i k = omega (arith, ap length (which-root q i))
    bounded node_a i k = omega (arith, ap length (which-node_a q i))
    bounded node_ab i k = omega (arith, ap length (which-node_ab q i))
    bounded other i k = absurd (ground (arith, k))
