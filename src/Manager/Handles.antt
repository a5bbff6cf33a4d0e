-- ===== src/Manager/Handles.antt =====
-- The handles that createZkClient gives out.
use zookeeper_cpp_client.Common.{ℕ, ◌^◌, ◌<◌, ◌≡◌, ◌≢◌, true, List, arith}
use zookeeper_cpp_client.Common.Std.{nat_ord}
use zookeeper_cpp_client.Client.{ZkClient}
use zookeeper_cpp_client.Task.{Action}
use zookeeper_cpp_client.Manager.{
  ZkClientManager, bump_handle, begin_create, end_create, update_client,
}

bump_handle_range : (n : ℕ) → (0 < bump_handle n) × (bump_handle n < 2 ^ 32)
unfolding bump_handle
bump_handle_range n = ground arith

bump_handle_ne : (n : ℕ) → 0 < n → n < 2 ^ 32 → bump_handle n ≢ n
unfolding bump_handle
bump_handle_ne n p q = ground arith

-- The next handle is a uint32_t other than 0, so that no failure is taken for a handle.
abbrev pub IsValid : ZkClientManager → Type 0
IsValid m = (0 < m.next_handle) × (m.next_handle < 2 ^ 32)

-- Taking a handle keeps `nextHandle_` a nonzero uint32_t, and the handle differs from the last one
-- that was taken.
begin_create-IsValid :
    (memory : ℕ) (m : ZkClientManager)
    → IsValid m
    → IsValid (begin_create memory m).2
      × ((begin_create memory m).0 ≢ m.next_handle)
      × (0 < (begin_create memory m).0)
unfolding begin_create
begin_create-IsValid memory m v =
    let r = bump_handle_range m.next_handle in (r, bump_handle_ne m.next_handle v.0 v.1, r.0)

pub next_handle-update_client :
    (h : ℕ) (c : ZkClient) (m : ZkClientManager) → (update_client h c m).next_handle ≡ m.next_handle
unfolding update_client
next_handle-update_client h c m = ground arith

-- When a second thread takes a handle while the first one is in init, with a nextHandle_ that is
-- a nonzero uint32_t, the first one's createZkClient succeeds with the second one's handle, which
-- is not its own client's.
pub end_create_races :
    (memory memory' : ℕ) (m : ZkClientManager) (c : ZkClient) (acts : List Action)
    → IsValid m
    → let (h, _, m1) = begin_create memory m in
      let (h', _, m2) = begin_create memory' m1 in
      ((end_create h (true, c, acts) m2).0 ≡ h') × (h' ≢ h)
unfolding begin_create end_create
end_create_races memory memory' m c acts v =
    let m1 = (begin_create memory m).2 in
    let w = begin_create-IsValid memory m v in
    (
      next_handle-update_client (begin_create memory m).0 c (begin_create memory' m1).2,
      (begin_create-IsValid memory' m1 w.0).1,
    )
