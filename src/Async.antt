-- ===== src/Async.antt =====
-- The asynchronous operations of src/ZkClient.cc: what each hands to the C library, and what its
-- completion tells the user. The return code of a `zoo_a...` call and what the library passes to a
-- completion are arguments. The six operations share their guards, and differ in the handler, the
-- assertion, the codes and the arguments of the call.
pub mod Post
pub mod Once
use zookeeper_cpp_client.Common.{
  ℕ, Bool, true, false, List, [], ◌∷◌, Option, none, some, ℤ, if◌then◌else◌,
}
use zookeeper_cpp_client.Codes.{
  Bytes, Rc, zok, znonode, znodeexists, znotempty, zconnectionloss, zoperationtimeout, znoauth,
  zclosing, zbadversion, znochildrenforephemerals, ZkErrorCode, zk_succeed, zk_not_exist, zk_error,
  zk_existed, zk_not_empty, invalid_data_version,
}

-- The operation that a context belongs to, by the handler that it has.
pub data Op : Type 0 where
  get_node_op get_children_op exist_op create_op set_op delete_op : Op

-- ZkOperateAndWatchContext as the operations fill it: the constructor's arguments, and the one
-- handler that the operation sets. A handler that is null never gets into a context.
pub record OperateContext : Type 0 where
  pub op : Op
  pub path : Bytes
  pub context : ℕ
  pub handler : ℕ

-- A call of a handler of the user, with what it is told.
pub data UserCall : Type 0 where
  get_node_call : ℕ → ZkErrorCode → Bytes → Bytes → ℤ → ℕ → UserCall
  get_children_call : ℕ → ZkErrorCode → Bytes → List Bytes → ℕ → UserCall
  exist_call : ℕ → ZkErrorCode → Bytes → ℕ → UserCall
  create_call : ℕ → ZkErrorCode → Bytes → Bytes → ℕ → UserCall
  set_call : ℕ → ZkErrorCode → Bytes → ℤ → ℕ → UserCall
  delete_call : ℕ → ZkErrorCode → Bytes → ℕ → UserCall

-- What becomes of a call of an operation: what it returns, and the context that the C library has
-- taken. Where the library refuses, the context is neither taken nor deleted.
pub record Issued (C : Type 0) : Type 0 where
  pub result : Bool
  pub request : Option C
  pub lost : Option C

abbrev pub not_issued : {C : Type 0} → Issued C
not_issued = record { result = false; request = none; lost = none }

abbrev pub by_rc : {C : Type 0} → Rc → C → Issued C
by_rc zok c = record { result = true; request = some c; lost = none }
by_rc _ c = record { result = false; request = none; lost = some c }

-- The guards of every operation: the handler, then the connection.
abbrev pub guarded : {C : Type 0} → Option ℕ → Bool → Rc → (ℕ → C) → Issued C
guarded none on rc make = not_issued
guarded (some h) on rc make = if on then by_rc rc (make h) else not_issued

-- getNode, getChildren, isExist, create, set and deleteNode with a handler.
unfoldable pub issue : Op → Bytes → Option ℕ → ℕ → Bool → Rc → Issued OperateContext
issue op path handler context on rc =
    guarded handler on rc (λ h. record { op = op; path = path; context = context; handler = h })

abbrev pub is_read_rc : Rc → Bool
is_read_rc zok = true
is_read_rc zconnectionloss = true
is_read_rc zoperationtimeout = true
is_read_rc znoauth = true
is_read_rc znonode = true
is_read_rc zclosing = true
is_read_rc _ = false

abbrev pub is_create_rc : Rc → Bool
is_create_rc znodeexists = true
is_create_rc znochildrenforephemerals = true
is_create_rc rc = is_read_rc rc

abbrev pub is_set_rc : Rc → Bool
is_set_rc zbadversion = true
is_set_rc rc = is_read_rc rc

abbrev pub is_delete_rc : Rc → Bool
is_delete_rc znotempty = true
is_delete_rc rc = is_set_rc rc

-- What the library passes to a completion besides the return code; the client reads it after ZOK.
pub record Payload : Type 0 where
  pub value : Bytes
  pub names : List Bytes
  pub version : ℤ

abbrev pub asserted : Bool → List UserCall → Option (List UserCall)
asserted ok calls = if ok then some calls else none

-- The completions: `none` is a failed assertion, and the context is deleted otherwise.
unfoldable pub get_node_data_completion : Rc → Payload → OperateContext → Option (List UserCall)
get_node_data_completion rc l c = asserted (is_read_rc rc) (elim rc [
  | zok ↦ get_node_call c.handler zk_succeed c.path l.value l.version c.context ∷ []
  | znonode ↦ get_node_call c.handler zk_not_exist c.path [] invalid_data_version c.context ∷ []
  | _ ↦ get_node_call c.handler zk_error c.path [] invalid_data_version c.context ∷ []
])

unfoldable pub get_children_string_completion :
    Rc → Payload → OperateContext → Option (List UserCall)
get_children_string_completion rc l c = asserted (is_read_rc rc) (elim rc [
  | zok ↦ get_children_call c.handler zk_succeed c.path l.names c.context ∷ []
  | znonode ↦ get_children_call c.handler zk_not_exist c.path [] c.context ∷ []
  | _ ↦ get_children_call c.handler zk_error c.path [] c.context ∷ []
])

unfoldable pub exist_completion : Rc → OperateContext → Option (List UserCall)
exist_completion rc c = asserted (is_read_rc rc) (elim rc [
  | zok ↦ exist_call c.handler zk_succeed c.path c.context ∷ []
  | znonode ↦ exist_call c.handler zk_not_exist c.path c.context ∷ []
  | _ ↦ exist_call c.handler zk_error c.path c.context ∷ []
])

unfoldable pub create_completion : Rc → Payload → OperateContext → Option (List UserCall)
create_completion rc l c = asserted (is_create_rc rc) (elim rc [
  | zok ↦ create_call c.handler zk_succeed c.path l.value c.context ∷ []
  | znonode ↦ create_call c.handler zk_not_exist c.path [] c.context ∷ []
  | znodeexists ↦ create_call c.handler zk_existed c.path [] c.context ∷ []
  | _ ↦ create_call c.handler zk_error c.path [] c.context ∷ []
])

unfoldable pub set_completion : Rc → Payload → OperateContext → Option (List UserCall)
set_completion rc l c = asserted (is_set_rc rc) (elim rc [
  | zok ↦ set_call c.handler zk_succeed c.path l.version c.context ∷ []
  | znonode ↦ set_call c.handler zk_not_exist c.path invalid_data_version c.context ∷ []
  | _ ↦ set_call c.handler zk_error c.path invalid_data_version c.context ∷ []
])

unfoldable pub delete_completion : Rc → OperateContext → Option (List UserCall)
delete_completion rc c = asserted (is_delete_rc rc) (elim rc [
  | zok ↦ delete_call c.handler zk_succeed c.path c.context ∷ []
  | znonode ↦ delete_call c.handler zk_not_exist c.path c.context ∷ []
  | znotempty ↦ delete_call c.handler zk_not_empty c.path c.context ∷ []
  | _ ↦ delete_call c.handler zk_error c.path c.context ∷ []
])

-- The completion that an operation hands to the library with its context.
unfoldable pub complete : OperateContext → Rc → Payload → Option (List UserCall)
unfolding get_node_data_completion get_children_string_completion exist_completion create_completion
    set_completion delete_completion
complete c rc l = elim c.op [
  | get_node_op ↦ get_node_data_completion rc l c
  | get_children_op ↦ get_children_string_completion rc l c
  | exist_op ↦ exist_completion rc c
  | create_op ↦ create_completion rc l c
  | set_op ↦ set_completion rc l c
  | delete_op ↦ delete_completion rc c
]
