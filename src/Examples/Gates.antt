-- ===== src/Examples/Gates.antt =====
-- A barrier of two, on servers that count the nodes under its parent.
use zookeeper_cpp_client.Common.{
  ℕ, zero, suc, ◌+◌, ◌≤◌, ◌≡◌, refl, true, List, [], ◌∷◌, ◌++◌, Option, none, some, arith, pos,
  negsuc, length, if◌then◌else◌,
}
use zookeeper_cpp_client.Common.Steps.{follow}
use zookeeper_cpp_client.Codes.{Bytes, zok}
use zookeeper_cpp_client.Sync.{create, set, get_children}
use zookeeper_cpp_client.Servers.{Servers}
use zookeeper_cpp_client.Barrier.{
  new_distri_barrier, parent_path, as_size, has_enough, init, create_child, countdown,
  child_node_name,
}
use zookeeper_cpp_client.Barrier.World.{
  World, Action, through, inits, waits, looks, sleeps, notified, wakes, counts, new_world, run,
  step,
}
use zookeeper_cpp_client.Barrier.Members.{IsCounting}
use zookeeper_cpp_client.Barrier.Through.{through_counts}
use zookeeper_cpp_client.Barrier.Growing.{IsGrowing}
use zookeeper_cpp_client.Barrier.Open.{called_back, enough_open}

abbrev names : ℕ → List Bytes
names zero = []
names (suc n) = child_node_name ∷ names n

length-names : (n : ℕ) → length (names n) ≤ n
length-names zero = omega arith
length-names (suc n) = omega (arith, length-names n)

abbrev servers : Servers
servers = record {
  Env = ℕ;
  is_connected = λ p e. true;
  zoo_get = λ p path n e. ((zok, none, negsuc 0), e);
  zoo_get_children = λ p path e. ((zok, names e), e);
  zoo_exists = λ p path e. (zok, e);
  zoo_create = λ p path v fl n e. ((zok, path), if fl.sequence then suc e else e);
  zoo_set = λ p path v n e. (zok, e);
  zoo_delete = λ p path v e. (zok, e);
  passes = λ n e. e;
}

servers-IsCounting : IsCounting servers
servers-IsCounting = record {
  members = λ e. e;
  create_member = λ p v fl n e. ground arith;
  create_parent = λ p v fl n e h. ground (arith, h);
  set_same = λ p path v n e. omega arith;
  children_same = λ p path e. omega arith;
  children_zok = λ p e h. length-names e;
  deletes = λ p path v e. omega arith;
  passes_same = λ n e. omega arith;
}

-- The thread of the object 1 sleeps, and another one counts down twice.
abbrev until_asleep : List Action
until_asleep =
    inits 1 true 7 true [] [] (pos 2)
    ∷ inits 2 true 8 true [] [] (pos 2)
    ∷ waits 1
    ∷ looks 1
    ∷ sleeps 1
    ∷ counts 2
    ∷ counts 2
    ∷ []

abbrev some_acts : List Action
some_acts = until_asleep ++ wakes 1 ∷ []

abbrev or_new : Option (World servers) → World servers
or_new none = new_world servers 0
or_new (some w) = w

abbrev sleeping : World servers
sleeping = or_new (run servers 1 until_asleep (new_world servers 0))

abbrev ready : World servers
ready = or_new (run servers 1 some_acts (new_world servers 0))

through_counts_example : as_size (ready.party 1).barrier.barr_num ≤ 0 + ready.sent
unfolding run follow new_distri_barrier has_enough init create set countdown create_child
    get_children servers-IsCounting
through_counts_example =
    through_counts servers servers-IsCounting 0 1 some_acts ready
      (or_new (step servers 1 (looks 1) ready)) 1 refl refl refl

servers-IsGrowing : IsGrowing servers
servers-IsGrowing = record {
  members = λ e. e;
  create_more = λ p v n e h. omega arith;
  create_keeps = λ p path v fl n e. ground arith;
  set_keeps = λ p path v n e. omega arith;
  children_keeps = λ p path e. omega arith;
  children_zok = λ p e h. all_names e;
  passes_keeps = λ n e. omega arith;
}
  where
    all_names : (n : ℕ) → n ≤ length (names n)
    all_names zero = omega arith
    all_names (suc n) = omega (arith, all_names n)

-- Another object counts down between the callback and the list.
abbrev woken : World servers
woken = or_new (run servers 1 (counts 2 ∷ []) (called_back servers 1 sleeping))

enough_open_example :
    (w3 : World servers) × (run servers 1
        (notified 1 parent_path (names 2) ∷ counts 2 ∷ looks 1 ∷ [])
        sleeping
      ≡ some w3)
    × ((w3.party 1).phase ≡ through)
unfolding run follow new_distri_barrier has_enough init create set countdown create_child
    get_children servers-IsGrowing
enough_open_example =
    enough_open servers servers-IsGrowing 0 1 until_asleep (counts 2 ∷ []) sleeping woken 1
      (names 2) (refl, (refl, (refl, (refl, (refl, (refl, (refl, tt))))))) refl refl (omega arith)
      (omega arith) ((refl, refl), tt) refl refl
