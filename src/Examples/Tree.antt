-- ===== src/Examples/Tree.antt =====
-- A small ZooKeeper for the examples: the node /a, and below it /a/b, each there or not. Other
-- paths are refused.
use zookeeper_cpp_client.Common.{
  ℕ, ◌≡◌, ◌≢◌, refl, ap, sym, subst, ◌⊎◌, inl, inr, Bool, true, false, List, [], ◌∷◌, some, arith,
  negsuc, take, if◌then◌else◌, ◌∙◌,
}
use zookeeper_cpp_client.Common.Std.{bytes_beq, bytes_beq_iff}
use zookeeper_cpp_client.Codes.{Bytes, Rc, zok, znonode, znodeexists, znotempty, other_rc}
use zookeeper_cpp_client.Zoo.{Zoo, IsTree}
use zookeeper_cpp_client.Zoo.Path.{slash, rfind, Any, IsUnder, child}

pub data Nodes : Type 0 where
  no_nodes only_a a_and_b : Nodes

abbrev pub path_a : Bytes
path_a = b'/' ∷ b'a' ∷ []

abbrev pub path_ab : Bytes
path_ab = b'/' ∷ b'a' ∷ b'/' ∷ b'b' ∷ []

pub data Which : Type 0 where
  root node_a node_ab other : Which

abbrev pub which : Bytes → Which
which q =
    if bytes_beq q []
    then root
    else if bytes_beq q path_a
    then node_a
    else if bytes_beq q path_ab
    then node_ab
    else other

abbrev pub here : Nodes → Which → Bool
here e root = true
here only_a node_a = true
here a_and_b node_a = true
here a_and_b node_ab = true
here e w = false

abbrev pub create_at : Which → Nodes → Rc × Nodes
create_at root e = (znodeexists, e)
create_at node_a no_nodes = (zok, only_a)
create_at node_a e = (znodeexists, e)
create_at node_ab no_nodes = (znonode, no_nodes)
create_at node_ab only_a = (zok, a_and_b)
create_at node_ab a_and_b = (znodeexists, a_and_b)
create_at other e = (other_rc 0, e)

abbrev pub list_at : Which → Nodes → Rc × List Bytes
list_at root no_nodes = (zok, [])
list_at root e = (zok, (b'a' ∷ []) ∷ [])
list_at node_a no_nodes = (znonode, [])
list_at node_a only_a = (zok, [])
list_at node_a a_and_b = (zok, (b'b' ∷ []) ∷ [])
list_at node_ab a_and_b = (zok, [])
list_at w e = (znonode, [])

abbrev pub delete_at : Which → Nodes → Rc × Nodes
delete_at node_a only_a = (zok, no_nodes)
delete_at node_a a_and_b = (znotempty, a_and_b)
delete_at node_ab a_and_b = (zok, only_a)
delete_at root e = (other_rc 0, e)
delete_at w e = (znonode, e)

pub which-root : (p : Bytes) → which p ≡ root → p ≡ []
which-root p h = ground (arith, bytes_beq_iff p [])

pub which-node_a : (p : Bytes) → which p ≡ node_a → p ≡ path_a
which-node_a p h = ground (arith, bytes_beq_iff p path_a)

pub which-node_ab : (p : Bytes) → which p ≡ node_ab → p ≡ path_ab
which-node_ab p h = ground (arith, bytes_beq_iff p path_ab)

child-path_a : (p r : Bytes) → child p r ≡ path_a → p ≡ []
child-path_a [] r h = refl
child-path_a (x ∷ []) r h = ground arith
child-path_a (x ∷ y ∷ []) r h = ground arith
child-path_a (x ∷ y ∷ z ∷ p) r h = ground arith

child-path_ab : (p r : Bytes) → child p r ≡ path_ab → (p ≡ []) ⊎ (p ≡ path_a)
child-path_ab [] r h = inl refl
child-path_ab (x ∷ []) r h = ground arith
child-path_ab (x ∷ y ∷ []) r h = inr (ground arith)
child-path_ab (x ∷ y ∷ z ∷ []) r h = ground arith
child-path_ab (x ∷ y ∷ z ∷ u ∷ []) r h = ground arith
child-path_ab (x ∷ y ∷ z ∷ u ∷ v ∷ p) r h = ground arith

child_not_root : (p r : Bytes) → child p r ≢ []
child_not_root [] r = λ h. cc
child_not_root (x ∷ p) r = λ h. cc

abbrev pub tree : Zoo
tree = record {
  Env = Nodes;
  is_connected = λ e. true;
  zoo_get = λ p n e. ((if here e (which p) then zok else znonode, some [], negsuc 0), e);
  zoo_get_children = λ p e. (list_at (which p) e, e);
  zoo_exists = λ p e. (if here e (which p) then zok else znonode, e);
  zoo_create = λ p v fl n e. (((create_at (which p) e).0, p), (create_at (which p) e).1);
  zoo_set = λ p v n e. (if here e (which p) then zok else znonode, e);
  zoo_delete = λ p n e. delete_at (which p) e;
}

pub here-parent :
    (p r : Bytes) (v : Which) (e : Nodes)
    → which (child p r) ≡ v
    → here e v ≡ true
    → here e (which p) ≡ true
here-parent p r root e k h = absurd (child_not_root p r (which-root (child p r) k))
here-parent p r node_a e k h =
    ap (λ q. here e (which q)) (child-path_a p r (which-node_a (child p r) k))
here-parent p r node_ab e k h = elim (child-path_ab p r (which-node_ab (child p r) k)) [
  | inl x ↦ ap (λ q. here e (which q)) x
  | inr x ↦ ap (λ q. here e (which q)) x ∙ ground arith
]
here-parent p r other e k h = ground arith

pub create_zok-here :
    (w : Which) (e : Nodes) → (create_at w e).0 ≡ zok → here (create_at w e).1 w ≡ true
create_zok-here w e h = ground arith

pub create_exists-here :
    (w : Which) (e : Nodes) → (create_at w e).0 ≡ znodeexists → here (create_at w e).1 w ≡ true
create_exists-here w e h = ground arith

pub create-keeps : (w v : Which) (e : Nodes) → here e v ≡ true → here (create_at w e).1 v ≡ true
create-keeps w v e h = ground arith

pub list_zok-here : (w : Which) (e : Nodes) → (list_at w e).0 ≡ zok → here e w ≡ true
list_zok-here w e h = ground arith

pub list_znonode-here : (w : Which) (e : Nodes) → (list_at w e).0 ≡ znonode → here e w ≡ false
list_znonode-here w e h = ground arith

pub delete_zok-here :
    (w : Which) (e : Nodes) → (delete_at w e).0 ≡ zok → here (delete_at w e).1 w ≡ false
delete_zok-here w e h = ground arith

pub delete_znonode-here : (w : Which) (e : Nodes) → (delete_at w e).0 ≡ znonode → here e w ≡ false
delete_znonode-here w e h = ground arith

pub delete-shrinks : (w v : Which) (e : Nodes) → here (delete_at w e).1 v ≡ true → here e v ≡ true
delete-shrinks w v e h = ground arith

pub delete-others :
    (w v : Which) (e : Nodes) → (w ≢ v) ⊎ (v ≡ other) → here (delete_at w e).1 v ≡ here e v
delete-others w v e h = ground arith

pub which-other : (p q : Bytes) → q ≢ p → (which p ≢ which q) ⊎ (which q ≡ other)
which-other p q h = ground (
  arith,
  which-root p,
  which-root q,
  which-node_a p,
  which-node_a q,
  which-node_ab p,
  which-node_ab q,
  h,
)

pub list_complete :
    (p q : Bytes) (w v : Which) (e : Nodes)
    → which p ≡ w
    → which q ≡ v
    → (list_at w e).0 ≡ zok
    → here e v ≡ true
    → IsUnder p q
    → Any (λ n. (q ≡ child p n) ⊎ IsUnder (child p n) q) (list_at w e).1
list_complete p q w root e i j h k (r, u) = absurd (child_not_root p r (sym u ∙ which-root q j))
list_complete p q root node_a no_nodes i j h k u = absurd (cc k)
list_complete p q root node_a _ i j h k u =
    inl (inl (which-node_a q j ∙ sym (ap (λ p. child p (b'a' ∷ [])) (which-root p i))))
list_complete p q root node_ab a_and_b i j h k u = inl (
    inr (
      b'b' ∷ [],
      which-node_ab q j ∙ sym (ap (λ p. child (child p (b'a' ∷ [])) (b'b' ∷ [])) (which-root p i)),
    ))
list_complete p q root node_ab _ i j h k u = absurd (cc k)
list_complete p q node_a node_a e i j h k (r, u) =
    absurd (cc (child-path_a p r (sym u ∙ which-node_a q j), which-node_a p i))
list_complete p q node_a node_ab a_and_b i j h k u =
    inl (inl (which-node_ab q j ∙ sym (ap (λ p. child p (b'b' ∷ [])) (which-node_a p i))))
list_complete p q node_a node_ab _ i j h k u = absurd (cc k)
list_complete p q node_ab node_a e i j h k (r, u) =
    absurd (cc (child-path_a p r (sym u ∙ which-node_a q j), which-node_ab p i))
list_complete p q node_ab node_ab e i j h k (r, u) =
    elim (child-path_ab p r (sym u ∙ which-node_ab q j)) [
      | inl x ↦ absurd (cc (x, which-node_ab p i))
      | inr x ↦ absurd (cc (x, which-node_ab p i))
    ]
list_complete p q other v e i j h k u = absurd (cc h)
list_complete p q w other e i j h k u = absurd (ground (arith, k))

pub create-missing :
    (p : Bytes) (w : Which) (e : Nodes)
    → which p ≡ w
    → (create_at w e).0 ≡ znonode
    → (i : ℕ) × (rfind slash p ≡ some i) × (here e (which (take i p)) ≡ false)
unfolding rfind
create-missing p node_ab no_nodes i h =
    subst (λ p. (i : ℕ) × (rfind slash p ≡ some i) × (here no_nodes (which (take i p)) ≡ false))
      (sym (which-node_ab p i)) (2, refl, refl)
create-missing p _ e i h = ground arith

pub full-list :
    (p : Bytes) (w : Which) (e : Nodes)
    → which p ≡ w
    → (delete_at w e).0 ≡ znotempty
    → (r : Bytes) × (here e (which (child p r)) ≡ true)
full-list p node_a a_and_b i h =
    (b'b' ∷ [], ap (λ p. here a_and_b (which (child p (b'b' ∷ [])))) (which-node_a p i))
full-list p _ e i h = absurd (ground (arith, h))

abbrev pub tree-IsTree : IsTree tree
tree-IsTree = record {
  has = λ e p. here e (which p);
  closed = λ e p r h. here-parent p r (which (child p r)) e refl h;
  create_zok = λ p v fl n e h. create_zok-here (which p) e h;
  create_plain = λ p v fl n e h k. refl;
  create_znodeexists = λ p v fl n e h. create_exists-here (which p) e h;
  create_znonode = λ p v fl n e h. create-missing p (which p) e refl h;
  create_keeps = λ p v fl n e q h. create-keeps (which p) (which q) e h;
  children_zok = λ p e h. list_zok-here (which p) e h;
  children_complete = λ p q e h k u. list_complete p q (which p) (which q) e refl refl h k u;
  children_znonode = λ p e h. list_znonode-here (which p) e h;
  children_same = λ p q e. refl;
  delete_zok = λ p v e h. delete_zok-here (which p) e h;
  delete_znonode = λ p v e h. delete_znonode-here (which p) e h;
  delete_znotempty = λ p v e h. full-list p (which p) e refl h;
  delete_others = λ p q v e h. delete-others (which p) (which q) e (which-other p q h);
  delete_shrinks = λ p q v e h. delete-shrinks (which p) (which q) e h;
}
