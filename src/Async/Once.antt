-- ===== src/Async/Once.antt =====
-- Each asynchronous operation that returns true leads to one call of its handler, and that call has
-- the code which the synchronous operation of the same name returns.
use zookeeper_cpp_client.Common.{
  ℕ, ◌≡◌, refl, Bool, true, false, List, [], ◌∷◌, Option, none, some, arith, map, if◌then◌else◌,
}
use zookeeper_cpp_client.Codes.{Bytes, Rc, zok, ZkErrorCode}
use zookeeper_cpp_client.Sync.{read_code, create_code, delete_code}
use zookeeper_cpp_client.Async.{
  Op, get_node_op, get_children_op, exist_op, create_op, set_op, delete_op, OperateContext,
  UserCall, get_node_call, get_children_call, exist_call, create_call, set_call, delete_call, issue,
  is_read_rc, is_create_rc, is_set_rc, is_delete_rc, Payload, complete,
}

-- The handler, the code, the path and the user's context of a call.
pub record Told : Type 0 where
  pub handler : ℕ
  pub code : ZkErrorCode
  pub path : Bytes
  pub context : ℕ

abbrev pub told : UserCall → Told
told (get_node_call h ec p v n x) = record { handler = h; code = ec; path = p; context = x }
told (get_children_call h ec p ns x) = record { handler = h; code = ec; path = p; context = x }
told (exist_call h ec p x) = record { handler = h; code = ec; path = p; context = x }
told (create_call h ec p v x) = record { handler = h; code = ec; path = p; context = x }
told (set_call h ec p n x) = record { handler = h; code = ec; path = p; context = x }
told (delete_call h ec p x) = record { handler = h; code = ec; path = p; context = x }

-- What the synchronous operation makes of a return code.
abbrev pub sync_code : Op → Rc → ZkErrorCode
sync_code create_op rc = create_code rc
sync_code delete_op rc = delete_code rc
sync_code _ rc = read_code rc

-- What the operation's completion asserts.
abbrev pub is_expected : Op → Rc → Bool
is_expected create_op rc = is_create_rc rc
is_expected set_op rc = is_set_rc rc
is_expected delete_op rc = is_delete_rc rc
is_expected _ rc = is_read_rc rc

abbrev pub the_call : Op → Bytes → ℕ → ℕ → Rc → Told
the_call op path h x rc = record { handler = h; code = sync_code op rc; path = path; context = x }

abbrev pub tell : Option (List UserCall) → Option (List Told)
tell none = none
tell (some us) = some (map told us)

complete_tells :
    (op : Op) (path : Bytes) (h x : ℕ) (rc : Rc) (l : Payload)
    → is_expected op rc ≡ true
    → tell (complete (record { op = op; path = path; context = x; handler = h }) rc l)
      ≡ some (the_call op path h x rc ∷ [])
unfolding complete
complete_tells get_node_op path h x rc l e = ground arith
complete_tells get_children_op path h x rc l e = ground arith
complete_tells exist_op path h x rc l e = ground arith
complete_tells create_op path h x rc l e = ground arith
complete_tells set_op path h x rc l e = ground arith
complete_tells delete_op path h x rc l e = ground arith

-- An operation that returns true had a handler and a connected session, the library has taken one
-- request of it, and no context is lost. When the library completes that request with a return code
-- that the completion expects, the handler is called exactly once, with the user's path and context
-- and with the code that the synchronous operation of the same name makes of that return code.
pub issue_then_complete :
    (op : Op) (path : Bytes) (handler : Option ℕ) (x : ℕ) (on : Bool) (rc0 rc : Rc) (l : Payload)
    → (issue op path handler x on rc0).result ≡ true
    → is_expected op rc ≡ true
    → (c : OperateContext) × ((issue op path handler x on rc0).request ≡ some c)
      × ((issue op path handler x on rc0).lost ≡ none)
      × (on ≡ true)
      × (handler ≡ some c.handler)
      × (tell (complete c rc l) ≡ some (the_call op path c.handler x rc ∷ []))
unfolding issue
issue_then_complete op path none x on rc0 rc l e k = cc e
issue_then_complete op path (some h) x false rc0 rc l e k = cc e
issue_then_complete op path (some h) x true zok rc l e k = (
  record { op = op; path = path; context = x; handler = h },
  refl,
  refl,
  refl,
  refl,
  complete_tells op path h x rc l k,
)
issue_then_complete op path (some h) x true _ rc l e k = cc e

-- An operation with a handler that returns false has left the library nothing to complete, so its
-- handler is never called. Its context is lost, neither taken nor deleted, exactly where the
-- session was connected, and so the library refused the call.
not_issued_is_silent :
    (op : Op) (path : Bytes) (h x : ℕ) (on : Bool) (rc0 : Rc)
    → (issue op path (some h) x on rc0).result ≡ false
    → ((issue op path (some h) x on rc0).request ≡ none)
      × ((issue op path (some h) x on rc0).lost
          ≡ (if on then some (record { op = op; path = path; context = x; handler = h }) else none))
unfolding issue
not_issued_is_silent op path h x on rc0 e = ground arith
