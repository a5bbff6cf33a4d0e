-- ===== src/Watch/Told.antt =====
-- What an event of a watched node tells the user: existWatcher and the completion of its fetch,
-- getNodeDataOnWatcher, of src/ZkClient.cc.
use zookeeper_cpp_client.Common.{
  ◌≡◌, ◌⊎◌, ◌++◌, refl, inl, inr, ap, sym, ◌∙◌, true, false, List, [], ◌∷◌, Option, none, some,
  arith, ℤ,
}
use zookeeper_cpp_client.Common.Std.{bytes_ord}
use zookeeper_cpp_client.Codes.{
  Bytes, Rc, zok, znonode, created_event, deleted_event, changed_event, notwatching_event,
  node_create, node_change, node_delete, type_error, get_node_value_failed,
  get_node_value_failed_node_not_exist, invalid_data_version, EventType, ZkNotifyType,
  session_event, is_session_event,
}
use zookeeper_cpp_client.Client.{
  ZkClient, is_found, get_node_watch_data, is_should_notify_node_watch,
}
use zookeeper_cpp_client.Watch.{
  WatchContext, NodeCall, NodeFetch, Watched, exist_watcher, get_node_data_on_watcher, fetched_node,
  node_failure, node_fetch,
}
use zookeeper_cpp_client.Watch.Node.{found_both}

-- The completion of the fetch, if there is one.
abbrev pub finish_fetch : Option NodeFetch → Rc → Bytes → ℤ → ZkClient → Option (List NodeCall)
finish_fetch none rc value version c = some []
finish_fetch (some f) rc value version c = get_node_data_on_watcher rc value version f c

-- The one call, now or when the fetch completes.
abbrev pub IsOneCall : WatchContext → List NodeCall → Type 0
IsOneCall w us =
    (u : NodeCall) × (us ≡ u ∷ [])
    × (u.path ≡ w.path)
    × (u.handler ≡ w.handler)
    × (u.context ≡ w.context)

IsOneCall-fetch :
    (c : ZkClient) (w : WatchContext) (f : NodeFetch) (rc : Rc) (value : Bytes) (version : ℤ)
    (us : List NodeCall)
    → is_should_notify_node_watch f.path c ≡ true
    → is_found (get_node_watch_data f.path c) ≡ true
    → (f.path ≡ w.path) × (f.handler ≡ w.handler) × (f.context ≡ w.context)
    → get_node_data_on_watcher rc value version f c ≡ some us
    → IsOneCall w us
unfolding get_node_data_on_watcher
IsOneCall-fetch c w f zok value version us n d (p, h, x) g =
    (fetched_node f f.notify_type value version, ground (arith, n, d, g), p, h, x)
IsOneCall-fetch c w f znonode value version us n d (p, h, x) g = (
  fetched_node f get_node_value_failed_node_not_exist [] invalid_data_version,
  ground (arith, n, d, g),
  p,
  h,
  x,
)
IsOneCall-fetch c w f _ value version us n d (p, h, x) g =
    (fetched_node f get_node_value_failed [] invalid_data_version, ground (arith, n, d, g), p, h, x)

-- The handler is called now, or a fetch is under way for it.
NowOrLater : WatchContext → Watched NodeCall NodeFetch → Type 0
NowOrLater w r =
    ((t : ZkNotifyType) × (r.told ≡ node_failure w t ∷ []) × (r.fetch ≡ none))
    ⊎ ((t : ZkNotifyType) × (r.told ≡ []) × (r.fetch ≡ some (node_fetch w t)))

exist_watcher-NowOrLater :
    (c : ZkClient) (w : WatchContext) (type : EventType) (rc : Rc) (r : Watched NodeCall NodeFetch)
    → is_should_notify_node_watch w.path c ≡ true
    → is_session_event type ≡ false
    → exist_watcher type w rc c ≡ some r
    → NowOrLater w r × (r.deleted ≡ true)
unfolding exist_watcher NowOrLater
exist_watcher-NowOrLater c w created_event zok r n s e =
    (inr (node_create, ground arith, ground arith), ground arith)
exist_watcher-NowOrLater c w created_event _ r n s e =
    (inl (get_node_value_failed, ground (arith, n, e), ground arith), ground arith)
exist_watcher-NowOrLater c w deleted_event rc r n s e =
    (inl (node_delete, ground (arith, n, e), ground arith), ground arith)
exist_watcher-NowOrLater c w changed_event zok r n s e =
    (inr (node_change, ground arith, ground arith), ground arith)
exist_watcher-NowOrLater c w changed_event _ r n s e =
    (inl (get_node_value_failed, ground (arith, n, e), ground arith), ground arith)
exist_watcher-NowOrLater c w notwatching_event rc r n s e =
    (inl (type_error, ground (arith, n, e), ground arith), ground arith)
exist_watcher-NowOrLater c w session_event rc r n s e = absurd (cc s)
exist_watcher-NowOrLater c w _ rc r n s e = absurd (cc e)

IsOneCall-NowOrLater :
    (c : ZkClient) (w : WatchContext) (rc : Rc) (value : Bytes) (version : ℤ)
    (r : Watched NodeCall NodeFetch) (us : List NodeCall)
    → is_should_notify_node_watch w.path c ≡ true
    → NowOrLater w r
    → finish_fetch r.fetch rc value version c ≡ some us
    → IsOneCall w (r.told ++ us)
unfolding NowOrLater
IsOneCall-NowOrLater c w rc value version r us n (inl (t, now, no_fetch)) g =
    (node_failure w t, ground (arith, now, no_fetch, g), refl, refl, refl)
IsOneCall-NowOrLater c w rc value version r us n (inr (t, silent, fetch)) g =
    let d = sym (found_both w.path c) ∙ n in
    let done = ap (λ o. finish_fetch o rc value version c) (sym fetch) ∙ g in
    let (u, once, p, h, x) =
      IsOneCall-fetch c w (node_fetch w t) rc value version us n d (refl, refl, refl) done in
    (u, ap (λ xs. xs ++ us) silent ∙ once, p, h, x)

-- An event of a watched path, other than a session event, leads to exactly one call of the user's
-- handler, at once or when the fetch of the new data completes with the path still watched; the
-- call has the watcher's path, handler and context, and the watcher's context is deleted.
pub event_tells_once :
    (c : ZkClient) (w : WatchContext) (type : EventType) (rc rc1 : Rc) (value : Bytes) (version : ℤ)
    (r : Watched NodeCall NodeFetch) (us : List NodeCall)
    → is_should_notify_node_watch w.path c ≡ true
    → is_session_event type ≡ false
    → exist_watcher type w rc c ≡ some r
    → finish_fetch r.fetch rc1 value version c ≡ some us
    → IsOneCall w (r.told ++ us) × (r.deleted ≡ true)
event_tells_once c w type rc rc1 value version r us n s e g =
    let (q, deleted) = exist_watcher-NowOrLater c w type rc r n s e in
    (IsOneCall-NowOrLater c w rc1 value version r us n q g, deleted)
