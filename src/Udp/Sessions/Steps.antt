-- ===== src/Udp/Sessions/Steps.antt =====
-- src/udp/mod.rs: creators, waiters, receive loops, the cleaner and the shutdown, interleaved at their
-- locks.
use xtp_rs.Prelude.{
  Bool, List, [], false, list_eq, map_get, map_insert, map_remove, nat_eq, option_eq, pair_eq, some,
  true, ℕ, ◌∷◌, ◌≡◌,
}
use xtp_rs.Udp.{UdpSessionKey, addr_eq, key_eq, kind_eq}
use xtp_rs.Udp.Sessions.{
  Begun, Created, UdpRuntime, begin_session, cancel, clear, close, create_as, creation_failed,
  finish_session, is_cancelled, leave_table, new_runtime, refused, remove_expired, reuse,
  session_created, task_failed, touch, wait_on,
}

abbrev pub KeyedIds : Type 0
KeyedIds = List (UdpSessionKey × ℕ)

-- The runtime, the creators that have begun and not finished, each with its `Notify`, and every
-- session that a creator has come back with, under its key.
pub record World : Type 0 where
  pub runtime : UdpRuntime
  pub creators : List (UdpSessionKey × ℕ)
  pub made : List (UdpSessionKey × ℕ)
  pub cleared : Bool

abbrev pub empty_world : ℕ → World
empty_world timeout = record {
  runtime = new_runtime timeout;
  creators = [];
  made = [];
  cleared = false;
}

abbrev pub add_creator : UdpSessionKey → Begun → List (UdpSessionKey × ℕ) → List (UdpSessionKey × ℕ)
add_creator key (create_as n) creators = map_insert creators key n
add_creator key (wait_on n) creators = creators
add_creator key (reuse id) creators = creators
add_creator key refused creators = creators

abbrev pub add_made : UdpSessionKey → Created → List (UdpSessionKey × ℕ) → List (UdpSessionKey × ℕ)
add_made key (session_created id) made = (key, id) ∷ made
add_made key creation_failed made = made
add_made key task_failed made = made

pub data Step (w : World) : World → Type 0 where
  begin :
      (key : UdpSessionKey) (fresh : ℕ)
      → Step w (record w {
        runtime = (begin_session w.runtime key fresh).1;
        creators = add_creator key (begin_session w.runtime key fresh).0 w.creators;
      })
  finish :
      (key : UdpSessionKey) (n : ℕ) (created : Created)
      → map_get w.creators key ≡ some n
      → Step w (record w {
        runtime = (finish_session w.runtime key n created).1;
        creators = map_remove w.creators key;
        made = add_made key created w.made;
      })
  seen : (id now : ℕ) → Step w (record w { runtime = touch id now w.runtime })
  -- The second pass of the cleaner, with whatever its first pass has selected earlier.
  clean :
      (now : ℕ) (expired : List (UdpSessionKey × ℕ))
      → Step w (record w { runtime = remove_expired now expired w.runtime })
  receive_ends : (id : ℕ) → Step w (record w { runtime = cancel id w.runtime })
  receive_leaves :
      (key : UdpSessionKey) (id : ℕ)
      → is_cancelled w.runtime id ≡ true
      → Step w (record w { runtime = leave_table w.runtime key id })
  shutdown_closes : Step w (record w { runtime = close w.runtime })
  shutdown_clears :
      w.runtime.closed ≡ true → Step w (record w { runtime = clear w.runtime; cleared = true })

pub data Reach (w : World) : World → Type 0 where
  here : Reach w w
  next : {u v : World} → Reach w u → Step u v → Reach w v
