-- ===== src/Examples/Meeting.antt =====
-- Servers with ephemeral nodes by their paths, which answer a number of calls until a connection is
-- lost.
use zookeeper_cpp_client.Common.{
  ℕ, ◌-◌, ◌≡◌, refl, List, [], Option, none, some, arith, negsuc, ltb, if◌then◌else◌,
}
use zookeeper_cpp_client.Common.Std.{
  StdMap, find, assign, erase, find-assign, find-erase, bytes_ord, bytes_beq_iff,
}
use zookeeper_cpp_client.Codes.{Bytes, Rc, zok, znonode, znodeexists}
use zookeeper_cpp_client.Zoo.{Flags}
use zookeeper_cpp_client.Servers.{Servers, IsOwning, ephemeral_node}

pub record Nodes : Type 0 where
  pub owners : StdMap Bytes ℕ
  pub answers : ℕ

abbrev created_node : ℕ → Bytes → Flags → Option ℕ → Nodes → (Rc × Bytes) × Nodes
created_node p path fl (some q) e = ((znodeexists, []), e)
created_node p path fl none e =
    ((zok, path), if fl.ephemeral then record e { owners = assign path p e.owners } else e)

abbrev deleted_node : Bytes → Option ℕ → Nodes → Rc × Nodes
deleted_node path none e = (znonode, e)
deleted_node path (some q) e = (zok, record e { owners = erase path e.owners })

abbrev listed : Option ℕ → Rc × List Bytes
listed none = (znonode, [])
listed (some q) = (zok, [])

abbrev pub servers : Servers
servers = record {
  Env = Nodes;
  is_connected = λ p e. ltb 0 e.answers;
  zoo_get = λ p path n e. ((zok, none, negsuc 0), e);
  zoo_get_children =
      λ p path e. (listed (find path e.owners), record e { answers = e.answers - 1 });
  zoo_exists = λ p path e. (zok, e);
  zoo_create = λ p path v fl n e. created_node p path fl (find path e.owners) e;
  zoo_set = λ p path v n e. (zok, e);
  zoo_delete = λ p path v e. deleted_node path (find path e.owners) e;
  passes = λ n e. record e { answers = n };
}

created_new :
    (p : ℕ) (path : Bytes) (fl : Flags) (o : Option ℕ) (e : Nodes)
    → (created_node p path fl o e).0.0 ≡ zok
    → o ≡ none
created_new p path fl none e h = refl
created_new p path fl (some q) e h = cc h

created_own :
    (p : ℕ) (path : Bytes) (o : Option ℕ) (e : Nodes)
    → (created_node p path ephemeral_node o e).0.0 ≡ zok
    → find path (created_node p path ephemeral_node o e).1.owners ≡ some p
created_own p path none e h =
    ground (arith, find-assign path path p e.owners, bytes_beq_iff path path)
created_own p path (some q) e h = cc h

created_keeps :
    (p : ℕ) (path : Bytes) (fl : Flags) (o : Option ℕ) (e : Nodes) (q : Bytes) (r : ℕ)
    → find path e.owners ≡ o
    → find q e.owners ≡ some r
    → find q (created_node p path fl o e).1.owners ≡ some r
created_keeps p path fl none e q r i h =
    ground (arith, find-assign path q p e.owners, bytes_beq_iff path q)
created_keeps p path fl (some t) e q r i h = h

deleted_gone :
    (path : Bytes) (o : Option ℕ) (e : Nodes)
    → (deleted_node path o e).0 ≡ zok
    → find path (deleted_node path o e).1.owners ≡ none
deleted_gone path none e h = cc h
deleted_gone path (some q) e h =
    ground (arith, find-erase path path e.owners, bytes_beq_iff path path)

listed_znonode : (o : Option ℕ) → (listed o).0 ≡ znonode → o ≡ none
listed_znonode none h = refl
listed_znonode (some q) h = cc h

pub servers-IsOwning : IsOwning servers
servers-IsOwning = record {
  owner = λ e path. find path e.owners;
  create_new = λ p path v n e h. created_new p path ephemeral_node (find path e.owners) e h;
  create_own = λ p path v n e h. created_own p path (find path e.owners) e h;
  create_keeps = λ p path v fl n e q r h. created_keeps p path fl (find path e.owners) e q r refl h;
  passes_keeps = λ n e q r h. h;
  children_same = λ p path e q. refl;
  children_znonode = λ p path e h. listed_znonode (find path e.owners) h;
  delete_gone = λ p path v e h. deleted_gone path (find path e.owners) e h;
}
