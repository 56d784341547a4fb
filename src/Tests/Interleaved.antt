-- ===== src/Tests/Interleaved.antt =====
-- The table of UDP sessions (src/udp/mod.rs): two callers of one key, a session, a shutdown.
use xtp_rs.Prelude.{
  In, UniqueKeys, [], contains, false, list_eq, map_get, map_insert, map_remove, nat_eq, none,
  option_eq, pair_eq, refl, some, true, ℕ, ◌∷◌, ◌≡◌, ◌⊎◌,
}
use xtp_rs.Routes.{ip4}
use xtp_rs.Udp.{UdpSessionKey, addr_eq, for_tproxy, key_eq, kind_eq}
use xtp_rs.Udp.Sessions.{
  Created, UdpRuntime, begin_session, cleanup_expired_sessions, clear, close, create_as,
  finish_session, get_ready_udp_session, is_cancelled, new_runtime, ready, refused, remove_expired,
  session_created, wake,
}
use xtp_rs.Udp.Sessions.Steps.{
  Reach, World, add_creator, begin, empty_world, finish, here, next, shutdown_clears,
  shutdown_closes,
}
use xtp_rs.Udp.Sessions.Safety.{Reach-no_leak, Reach-one_creator, Reach-woken}
use xtp_rs.Udp.Sessions.Expiry.{cleanup_expired_sessions-exact, remove_expired-keeps, unexpired}

abbrev key : UdpSessionKey
key = (for_tproxy (record { ip = ip4 1; port = 5000 }) (record { ip = ip4 8; port = 443 })).key

abbrev start : World
start = empty_world 60

abbrev begun : World → ℕ → World
begun w fresh = record w {
  runtime = (begin_session w.runtime key fresh).1;
  creators = add_creator key (begin_session w.runtime key fresh).0 w.creators;
}

-- The second caller waits for the first.
abbrev two_callers : World
two_callers = begun (begun start 5) 6

two_callers_run : Reach start two_callers
two_callers_run = next (next here (begin key 5)) (begin key 6)

abbrev created : World
created = record two_callers {
  runtime = (finish_session two_callers.runtime key 5 (session_created 9)).1;
  creators = map_remove two_callers.creators key;
  made = (key, 9) ∷ [];
}

at_work : map_get two_callers.creators key ≡ some 5
unfolding begin_session map_get map_insert
at_work = refl

created_run : Reach start created
created_run = next two_callers_run (finish key 5 (session_created 9) at_work)

created_test : (created.runtime.sessions ≡ (key, ready 9) ∷ []) × (created.runtime.waiting_on ≡ [])
unfolding begin_session finish_session map_get map_insert wake
created_test = (refl, refl)

abbrev stopped : World
stopped = record created { runtime = clear (close created.runtime); cleared = true }

stopped_run : Reach start stopped
stopped_run = next (next created_run shutdown_closes) (shutdown_clears refl)

Reach-no_leak_example :
    ((k : UdpSessionKey) (id : ℕ)
      → In (k, id) stopped.made
      → (map_get stopped.runtime.sessions k ≡ some (ready id))
        ⊎ (is_cancelled stopped.runtime id ≡ true))
    × (stopped.cleared ≡ true
        → (stopped.runtime.sessions ≡ [])
          × ((k : UdpSessionKey) (id : ℕ)
              → In (k, id) stopped.made
              → is_cancelled stopped.runtime id ≡ true)
          × ((k : UdpSessionKey) (fresh : ℕ) → (begin_session stopped.runtime k fresh).0 ≡ refused))
Reach-no_leak_example = Reach-no_leak 60 stopped stopped_run

waits : contains two_callers.runtime.waiting_on 5 ≡ true
unfolding begin_session map_get map_insert
waits = refl

Reach-woken_example :
    (k : UdpSessionKey) × (map_get two_callers.creators k ≡ some 5)
    × ((created : Created)
        → contains (finish_session two_callers.runtime k 5 created).1.waiting_on 5 ≡ false)
Reach-woken_example = Reach-woken 60 two_callers 5 two_callers_run waits

first_creates : (begin_session start.runtime key 5).0 ≡ create_as 5
unfolding begin_session map_get
first_creates = refl

Reach-one_creator_example :
    (start.runtime.closed ≡ false)
    × (get_ready_udp_session start.runtime key ≡ none)
    × (map_get start.creators key ≡ none)
Reach-one_creator_example = Reach-one_creator 60 start key 5 5 here first_creates

abbrev seen_at_20 : UdpRuntime
seen_at_20 = record (new_runtime 60) { sessions = (key, ready 9) ∷ []; last_seen = λ id. 20 }

seen_at_20_found : map_get seen_at_20.sessions key ≡ some (ready 9)
unfolding map_get
seen_at_20_found = refl

remove_expired-keeps_example :
    map_get (remove_expired 70 ((key, 9) ∷ []) seen_at_20).sessions key ≡ some (ready 9)
remove_expired-keeps_example =
    remove_expired-keeps 70 ((key, 9) ∷ []) seen_at_20 key (ready 9) seen_at_20_found (λ id h. refl)

cleanup_test : (cleanup_expired_sessions 80 seen_at_20).sessions ≡ []
unfolding cleanup_expired_sessions map_get map_remove
cleanup_test = refl

seen_at_20-UniqueKeys : UniqueKeys seen_at_20.sessions
unfolding map_get
seen_at_20-UniqueKeys = (refl, tt)

cleanup_expired_sessions-exact_example :
    map_get (cleanup_expired_sessions 80 seen_at_20).sessions key
    ≡ unexpired seen_at_20 80 (map_get seen_at_20.sessions key)
cleanup_expired_sessions-exact_example =
    cleanup_expired_sessions-exact seen_at_20 80 key seen_at_20-UniqueKeys
