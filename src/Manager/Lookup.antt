-- ===== src/Manager/Lookup.antt =====
-- What the lookups of the manager find after its operations.
use zookeeper_cpp_client.Common.{
  ℕ, ◌≡◌, ◌≢◌, ap, ◌∙◌, Bool, true, false, List, [], Option, none, some, arith, ◌==◌, if◌then◌else◌,
}
use zookeeper_cpp_client.Common.Std.{find-assign, find-erase, find-erase_self, nat_ord}
use zookeeper_cpp_client.Client.{ZkClient, new_client}
use zookeeper_cpp_client.Task.{Action}
use zookeeper_cpp_client.Session.{Deliveries, InitArgs, Outcome}
use zookeeper_cpp_client.Session
use zookeeper_cpp_client.Session.Start.{init_starts_checking, init_fails_silently}
use zookeeper_cpp_client.Manager.{
  ZkClientManager, bump_handle, get_any_client, get_zk_client, destroy_client, update_client,
  begin_create, end_create, create_zk_client, check_session_state, retry, if_initialized,
}
use zookeeper_cpp_client.Manager.Handles.{next_handle-update_client}

-- A client is found after a write under its handle if one stood there.
pub get_any_client-update_client :
    (h j : ℕ) (c d : ZkClient) (m : ZkClientManager)
    → get_any_client h m ≡ some d
    → get_any_client j (update_client h c m) ≡ (if h == j then some c else get_any_client j m)
unfolding get_any_client update_client
get_any_client-update_client h j c d m e = ground (arith, find-assign h j c m.total_zk_clients)

get_any_client-begin_create :
    (memory : ℕ) (m : ZkClientManager) (j : ℕ)
    → let (h, c, m1) = begin_create memory m in
      get_any_client j m1 ≡ (if h == j then some c else get_any_client j m)
unfolding get_any_client begin_create
get_any_client-begin_create memory m j = find-assign _ j _ m.total_zk_clients

-- createZkClient behind init, right after the client was registered.
module _ (memory : ℕ) (m : ZkClientManager) (succ : Bool) (c : ZkClient) (acts : List Action) where
  abbrev pub h : ℕ
  h = (begin_create memory m).0

  abbrev pub done : ℕ × ZkClientManager
  done = end_create h (succ, c, acts) (begin_create memory m).2

  result-end_create : done.0 ≡ (if succ then h else 0)
  unfolding end_create begin_create
  result-end_create = ground (arith, next_handle-update_client h c (begin_create memory m).2)

  pub get_any_client-end_create :
      (j : ℕ) → get_any_client j done.1 ≡ (if h == j then some c else get_any_client j m)
  unfolding end_create
  get_any_client-end_create j =
      let m1 = (begin_create memory m).2 in
      ground (
        arith,
        get_any_client-begin_create memory m j,
        get_any_client-begin_create memory m h,
        get_any_client-update_client h j c (begin_create memory m).1 m1,
      )

  self-end_create : get_any_client h done.1 ≡ some c
  self-end_create = ground (arith, get_any_client-end_create h)

get_zk_client-of :
    (h : ℕ) (c : ZkClient) (m : ZkClientManager)
    → get_any_client h m ≡ some c
    → get_zk_client h m ≡ if_initialized (some c)
unfolding get_zk_client get_any_client
get_zk_client-of h c m e = ap if_initialized e

if_initialized-yes : (c : ZkClient) → c.is_initialized ≡ true → if_initialized (some c) ≡ some c
if_initialized-yes c e = ground arith

if_initialized-not : (c : ZkClient) → c.is_initialized ≡ false → if_initialized (some c) ≡ none
if_initialized-not c e = ground arith

pub create-ended :
    (a : InitArgs) (zh : Option ℕ) (ds : Deliveries) (memory : ℕ) (m : ZkClientManager)
    (succ : Bool) (c : ZkClient) (acts : List Action)
    → Session.init a zh ds (new_client (bump_handle m.next_handle) memory) ≡ some (succ, c, acts)
    → create_zk_client a zh ds memory m
      ≡ some ((done memory m succ c acts).0, (done memory m succ c acts).1, acts)
unfolding create_zk_client begin_create
create-ended a zh ds memory m succ c acts i = rw i

module _ (a : InitArgs) (zh : Option ℕ) (ds : Deliveries) (memory : ℕ) (m : ZkClientManager)
    (c : ZkClient) (acts : List Action) where
  abbrev new_handle : ℕ
  new_handle = bump_handle m.next_handle

  -- When init returns true, createZkClient returns the new handle, getZkClient finds the initialised
  -- client under it, and every other handle is as it was.
  pub create_succeeds :
      (j : ℕ)
      → Session.init a zh ds (new_client new_handle memory) ≡ some (true, c, acts)
      → j ≢ new_handle
      → (n : ZkClientManager) × (create_zk_client a zh ds memory m ≡ some (new_handle, n, acts))
        × (get_zk_client new_handle n ≡ some c)
        × (get_any_client j n ≡ get_any_client j m)
  unfolding begin_create
  create_succeeds j i h =
      let n = (done memory m true c acts).1 in
      (
        n,
        rw (create-ended a zh ds memory m true c acts i, result-end_create memory m true c acts),
        get_zk_client-of new_handle c n (self-end_create memory m true c acts)
            ∙ if_initialized-yes c (init_starts_checking a zh ds new_handle memory i).0,
        ground (arith, h, get_any_client-end_create memory m true c acts j),
      )

  -- When init returns false, createZkClient returns 0 and getZkClient finds no client under the new
  -- handle, but the client stays in the manager, where the caller has no handle to destroy it by.
  create_fails :
      Session.init a zh ds (new_client new_handle memory) ≡ some (false, c, acts)
      → (n : ZkClientManager) × (create_zk_client a zh ds memory m ≡ some (0, n, acts))
        × (get_zk_client new_handle n ≡ none)
        × (get_any_client new_handle n ≡ some c)
  unfolding begin_create
  create_fails i =
      let n = (done memory m false c acts).1 in
      let kept = self-end_create memory m false c acts in
      (
        n,
        rw (create-ended a zh ds memory m false c acts i, result-end_create memory m false c acts),
        get_zk_client-of new_handle c n kept
            ∙ if_initialized-not c (init_fails_silently a zh ds new_handle memory i).1,
        kept,
      )

-- destroyClient takes away the client of its handle and no other: both lookups find nothing there,
-- and what they found elsewhere.
pub get_zk_client-destroy_client :
    (h j : ℕ) (m : ZkClientManager)
    → (get_zk_client j (destroy_client h m) ≡ (if h == j then none else get_zk_client j m))
      × (get_any_client j (destroy_client h m) ≡ (if h == j then none else get_any_client j m))
unfolding get_zk_client get_any_client destroy_client
get_zk_client-destroy_client h j m = ground (arith, find-erase h j m.total_zk_clients)

-- Once a client is destroyed, the check and the retry that are still pending for it do nothing and
-- set no timer again.
destroyed_is_left_alone :
    (h now : ℕ) (zh : Option ℕ) (ds : Deliveries) (m : ZkClientManager)
    → (check_session_state h now (destroy_client h m) ≡ (destroy_client h m, []))
      × (retry h zh ds (destroy_client h m) ≡ some (destroy_client h m, []))
unfolding check_session_state retry get_zk_client destroy_client
destroyed_is_left_alone h now zh ds m = ground (arith, find-erase_self h m.total_zk_clients)
