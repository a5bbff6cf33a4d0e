-- ===== src/Client/Maps.antt =====
-- The maps of watches: what a lookup finds after a write or a cancel.
use zookeeper_cpp_client.Common.{◌≡◌, false, none, some, arith, if◌then◌else◌}
use zookeeper_cpp_client.Common.Std.{find-assign, find-erase, find-erase_self, bytes_beq, bytes_ord}
use zookeeper_cpp_client.Codes.{Bytes}
use zookeeper_cpp_client.Client.{
  NodeWatchData, ChildWatchData, ZkClient, set_node_watch_data, get_node_watch_data,
  is_should_notify_node_watch, cancel_reg_node_watcher, set_child_watch_data, get_child_watch_data,
  is_should_notify_child_watch, cancel_reg_child_watcher,
}

module _ (p q : Bytes) (c : ZkClient) where
  pub get_node_watch_data-set_node_watch_data :
      (d : NodeWatchData)
      → get_node_watch_data q (set_node_watch_data p d c)
        ≡ (if bytes_beq p q then some d else get_node_watch_data q c)
  unfolding get_node_watch_data set_node_watch_data
  get_node_watch_data-set_node_watch_data d = find-assign p q d c.node_watch_datas

  pub get_node_watch_data-cancel :
      get_node_watch_data q (cancel_reg_node_watcher p c)
      ≡ (if bytes_beq p q then none else get_node_watch_data q c)
  unfolding get_node_watch_data cancel_reg_node_watcher
  get_node_watch_data-cancel = find-erase p q c.node_watch_datas

  pub get_child_watch_data-set_child_watch_data :
      (d : ChildWatchData)
      → get_child_watch_data q (set_child_watch_data p d c)
        ≡ (if bytes_beq p q then some d else get_child_watch_data q c)
  unfolding get_child_watch_data set_child_watch_data
  get_child_watch_data-set_child_watch_data d = find-assign p q d c.child_watch_datas

  pub get_child_watch_data-cancel :
      get_child_watch_data q (cancel_reg_child_watcher p c)
      ≡ (if bytes_beq p q then none else get_child_watch_data q c)
  unfolding get_child_watch_data cancel_reg_child_watcher
  get_child_watch_data-cancel = find-erase p q c.child_watch_datas

module _ (p : Bytes) (c : ZkClient) where
  pub not_notified-cancel_node : is_should_notify_node_watch p (cancel_reg_node_watcher p c) ≡ false
  unfolding is_should_notify_node_watch cancel_reg_node_watcher
  not_notified-cancel_node = ground (arith, find-erase_self p c.node_watch_datas)

  pub not_notified-cancel_child :
      is_should_notify_child_watch p (cancel_reg_child_watcher p c) ≡ false
  unfolding is_should_notify_child_watch cancel_reg_child_watcher
  not_notified-cancel_child = ground (arith, find-erase_self p c.child_watch_datas)
