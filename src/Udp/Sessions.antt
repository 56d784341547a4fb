-- ===== src/Udp/Sessions.antt =====
-- `UdpRuntime` of src/udp/mod.rs: the table of UDP sessions. A section that runs under the lock of the
-- table is one function. A session and a `Notify` are shared objects, named by numbers: which
-- sessions are cancelled, when each was last seen and who waits on which `Notify` stand beside the
-- table. The abort of a task is not modelled.
pub mod Steps
pub mod Expiry
pub mod Safety
pub mod Ending
pub mod Preserved
pub mod Invariant
use xtp_rs.Prelude.{
  Bool, List, Option, [], contains, false, if◌then◌else◌, leb, list_eq, map_get, map_insert,
  map_remove, nat_eq, none, option_eq, pair_eq, some, true, ℕ, ◌&&◌, ◌-◌, ◌==◌, ◌∷◌,
}
use xtp_rs.Udp.{UdpSessionKey, addr_eq, key_eq, kind_eq}

pub data UdpSessionEntry : Type 0 where
  creating ready : ℕ → UdpSessionEntry

pub record UdpRuntime : Type 0 where
  pub sessions : List (UdpSessionKey × UdpSessionEntry)
  pub timeout : ℕ
  pub closed : Bool
  pub cancelled : List ℕ
  pub last_seen : ℕ → ℕ
  pub waiting_on : List ℕ

abbrev pub new_runtime : ℕ → UdpRuntime
new_runtime timeout = record {
  sessions = [];
  timeout = timeout;
  closed = false;
  cancelled = [];
  last_seen = λ id. 0;
  waiting_on = [];
}

-- `Notify::notify_waiters` wakes all that wait on it.
unfoldable pub wake : ℕ → List ℕ → List ℕ
wake n [] = []
wake n (w ∷ ws) = let rest = wake n ws in if w == n then rest else w ∷ rest

abbrev pub notify_waiters : ℕ → UdpRuntime → UdpRuntime
notify_waiters n r = record r { waiting_on = wake n r.waiting_on }

abbrev pub cancel : ℕ → UdpRuntime → UdpRuntime
cancel id r = record r { cancelled = id ∷ r.cancelled }

abbrev pub is_cancelled : UdpRuntime → ℕ → Bool
is_cancelled r id = contains r.cancelled id

abbrev pub touch : ℕ → ℕ → UdpRuntime → UdpRuntime
touch id now r = record r { last_seen = λ j. if j == id then now else r.last_seen j }

abbrev pub remove : UdpSessionKey → UdpRuntime → UdpRuntime
remove key r = record r { sessions = map_remove r.sessions key }

abbrev pub put : UdpSessionKey → UdpSessionEntry → UdpRuntime → UdpRuntime
put key e r = record r { sessions = map_insert r.sessions key e }

-- What one round of the loop in `get_or_create_udp_session` finds.
pub data Begun : Type 0 where
  refused : Begun
  reuse wait_on create_as : ℕ → Begun

abbrev pub begin_at : UdpRuntime → UdpSessionKey → ℕ → Option UdpSessionEntry → Begun × UdpRuntime
begin_at r key fresh (some (ready id)) = (reuse id, r)
begin_at r key fresh (some (creating n)) = (wait_on n, record r { waiting_on = n ∷ r.waiting_on })
begin_at r key fresh none = (create_as fresh, put key (creating fresh) r)

unfoldable pub begin_session : UdpRuntime → UdpSessionKey → ℕ → Begun × UdpRuntime
begin_session r key fresh =
    if r.closed then (refused, r) else begin_at r key fresh (map_get r.sessions key)

-- How the task that creates a session ends.
pub data Created : Type 0 where
  session_created : ℕ → Created
  creation_failed task_failed : Created

pub data SessionResult : Type 0 where
  session : ℕ → SessionResult
  shutting_down task_error creation_error exited_before_registration : SessionResult

abbrev pub cancel_created : Created → UdpRuntime → UdpRuntime
cancel_created (session_created id) r = cancel id r
cancel_created creation_failed r = r
cancel_created task_failed r = r

abbrev pub register : UdpRuntime → UdpSessionKey → ℕ → Created → SessionResult × UdpRuntime
register r key n (session_created id) =
    if is_cancelled r id
    then (exited_before_registration, notify_waiters n (remove key r))
    else (session id, notify_waiters n (put key (ready id) r))
register r key n creation_failed = (creation_error, notify_waiters n (remove key r))
register r key n task_failed = (task_error, notify_waiters n (remove key r))

abbrev pub task_has_failed : Created → Bool
task_has_failed task_failed = true
task_has_failed (session_created id) = false
task_has_failed creation_failed = false

-- The rest of `get_or_create_udp_session`, once the creating task has ended.
unfoldable pub finish_session :
    UdpRuntime → UdpSessionKey → ℕ → Created → SessionResult × UdpRuntime
finish_session r key n created =
    if task_has_failed created
    then (task_error, notify_waiters n (remove key r))
    else if r.closed
    then (shutting_down, cancel_created created (notify_waiters n (remove key r)))
    else register r key n created

abbrev pub ready_of : Option UdpSessionEntry → Option ℕ
ready_of (some (ready id)) = some id
ready_of (some (creating n)) = none
ready_of none = none

unfoldable pub get_ready_udp_session : UdpRuntime → UdpSessionKey → Option ℕ
get_ready_udp_session r key = ready_of (map_get r.sessions key)

abbrev pub is_expired : UdpRuntime → ℕ → ℕ → Bool
is_expired r now id = leb r.timeout (now - r.last_seen id)

-- The sessions that the first pass of `cleanup_expired_sessions` selects.
unfoldable pub expired_in :
    UdpRuntime → ℕ → List (UdpSessionKey × UdpSessionEntry) → List (UdpSessionKey × ℕ)
expired_in r now [] = []
expired_in r now ((key, creating n) ∷ m) = expired_in r now m
expired_in r now ((key, ready id) ∷ m) =
    let rest = expired_in r now m in if is_expired r now id then (key, id) ∷ rest else rest

-- The table still has the very session (`Arc::ptr_eq`), and it has not been seen since.
abbrev pub should_remove : UdpRuntime → ℕ → ℕ → Option UdpSessionEntry → Bool
should_remove r now id (some (ready current)) = current == id && is_expired r now current
should_remove r now id (some (creating n)) = false
should_remove r now id none = false

-- The second pass, under the lock.
unfoldable pub remove_expired : ℕ → List (UdpSessionKey × ℕ) → UdpRuntime → UdpRuntime
remove_expired now [] r = r
remove_expired now ((key, id) ∷ rest) r =
    remove_expired now rest
      (if should_remove r now id (map_get r.sessions key) then cancel id (remove key r) else r)

unfoldable pub cleanup_expired_sessions : ℕ → UdpRuntime → UdpRuntime
unfolding expired_in remove_expired
cleanup_expired_sessions now r = remove_expired now (expired_in r now r.sessions) r

-- `shutdown`: first the flag, then, under the lock, the entries.
abbrev pub close : UdpRuntime → UdpRuntime
close r = record r { closed = true }

abbrev pub end_entry : UdpSessionEntry → UdpRuntime → UdpRuntime
end_entry (ready id) r = cancel id r
end_entry (creating n) r = notify_waiters n r

unfoldable pub end_entries : List (UdpSessionKey × UdpSessionEntry) → UdpRuntime → UdpRuntime
end_entries [] r = r
end_entries ((key, e) ∷ m) r = end_entries m (end_entry e r)

unfoldable pub clear : UdpRuntime → UdpRuntime
unfolding end_entries
clear r = record (end_entries r.sessions r) { sessions = [] }

abbrev pub same_session : ℕ → Option UdpSessionEntry → Bool
same_session id (some (ready current)) = current == id
same_session id (some (creating n)) = false
same_session id none = false

-- The end of a receive loop, after its session has been cancelled.
unfoldable pub leave_table : UdpRuntime → UdpSessionKey → ℕ → UdpRuntime
leave_table r key id = if same_session id (map_get r.sessions key) then remove key r else r
