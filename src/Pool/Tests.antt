-- ===== src/Pool/Tests.antt =====
-- Runs of the pool, on connections that are numbers.
use plex_postgresql.Prelude.{
  ℕ, ◌+◌, ◌≤◌, true, false, [], ◌∷◌, ◌++◌, none, some, ◌≡◌, inl, refl, arith, get_elem?, length,
}
use plex_postgresql.Prelude.Map.{count_values}
use plex_postgresql.Prelude.Bytes.{Bytes, codes, ends_with, strip_suffix}
use plex_postgresql.Pool.Path.{
  library_name, blobs_name, is_library_db, is_blobs_db, select_library_pool_path,
  resolve_selected_pool_path,
}
use plex_postgresql.Pool.TlsCache
use plex_postgresql.Pool.Slot.{
  Slot, free, ready, release, try_claim_free, try_reclaim_zombie, mark_ready, new_slot,
}
use plex_postgresql.Pool.Manager.{PoolManager, new, pool_size, pool_max, reap_idle, reap_slot}
use plex_postgresql.Pool.Registry.{references}
use plex_postgresql.Pool.Host.{Host, IsHost}
use plex_postgresql.Pool.Acquire.{State, AcquireCtx}
use plex_postgresql.Pool.Acquire.Whole.{Waiting, Acquired, acquire_on, run_phases, remember}
use plex_postgresql.Pool.Acquire.Total.{Served, acquire_on-Served, new-Sound}
use plex_postgresql.Pool.Acquire.Sound.{Sound}
use plex_postgresql.Pool.Acquire.Spares.{reap_idle-spares}
use plex_postgresql.Pool.Contention.{
  Shared, holding, Reached, Reached-exclusive, ended, refused, claimed, begun, read_ready,
  stored_free, reclaimed, free_claim, made_ready,
}
use plex_postgresql.Pool.Child.{reset_for_child}
use plex_postgresql.Pool.Reach.{Reachable-Sound, forked, released, attempted, opened}
use plex_postgresql.Pool.Release.{pool_release_for_db}
use plex_postgresql.Pool.Release.Frees.{Closes, pool_release_for_db-frees}
use plex_postgresql.Pool.Path.Laws.{Selected, resolve_sound}

resolve_sound_example : Selected none (codes "/db/" ++ blobs_name) (codes "/db/" ++ library_name)
unfolding resolve_selected_pool_path select_library_pool_path is_library_db is_blobs_db ends_with
    strip_suffix
resolve_sound_example = resolve_sound none (codes "/db/" ++ blobs_name) refl

-- Connections are numbered as they are opened, and no number comes back.
abbrev host : Host
host = record {
  World = ℕ;
  Live = λ w c. c ≤ w;
  check_conn_ok = λ w c. true;
  is_streaming_active = λ w c. false;
  is_pg_active = λ w c. true;
  get_txn_status = λ w c. 0;
  stmt_cache_clear = λ w c. w;
  roll_back = λ w c. w;
  cancel_and_drain = λ w c. w;
  forget_transaction = λ w c. w;
  forget_handle = λ w db. w;
  reset_conn = λ w c. (w, true);
  reconnect_conn = λ w c. (w, true);
  create_pool_connection = λ w path. (w + 1, w + 1);
  destroy_pool_connection = λ w c. w;
}

abbrev host-IsHost : IsHost host
host-IsHost = record {
  keeps_clear = λ w c d l. l;
  keeps_roll_back = λ w c d l. l;
  keeps_drain = λ w c d l. l;
  keeps_forget = λ w c d l. l;
  keeps_handle = λ w db d l. l;
  keeps_reset = λ w c d l. l;
  keeps_reconnect = λ w c d l. l;
  keeps_create = λ w path d l. omega (arith, l);
  keeps_destroy = λ w c d ne l. l;
  created = λ w path n. omega arith;
  fresh = λ w path n l. absurd (omega (arith, l));
}

abbrev waiting : Waiting host
waiting = record { delays = 100 ∷ 250 ∷ []; clock = λ n. 1000 + n; sleep = λ n st. st }

abbrev start : State host
start = record { pm = new 2 4; tls = TlsCache.empty; world = 0 }

abbrev path : Bytes
path = codes "/db/" ++ library_name

acquire_on-Served_example :
    (r : Acquired host) × (acquire_on host waiting 7 3 start 0 path 0 ≡ some r)
    × Served host host-IsHost waiting 7 (λ n st s. s) r
acquire_on-Served_example =
    acquire_on-Served host host-IsHost waiting 7 (λ n st s. s) 3 start 0 path 0 (omega arith)
      (omega arith) (new-Sound host 2 4 TlsCache.empty 0)

abbrev attempt : AcquireCtx
attempt = record { current_thread = 7; now = 1000; pool_size = 2; db_path = path; exclude_conn = 0 }

-- An attempt of one thread, the close of a handle by another, and a fork.
abbrev history : State host
history =
    reset_for_child host
      (pool_release_for_db host 8 5 (run_phases host attempt (remember host start path)).0)

Reachable-Sound_example : Sound host 0 history
Reachable-Sound_example = Reachable-Sound host 2 4 0 host-IsHost history (
    forked (
      released
        (attempted (opened TlsCache.empty) attempt path (unfold new pool_size pool_max in refl)) 8
        5))

abbrev used : Slot
used = record { conn = 3; owner_thread = 7; last_used = 900; state = ready; generation = 2 }

abbrev idle : Slot
idle = record { conn = 4; owner_thread = 0; last_used = 100; state = free; generation = 1 }

-- A pool with a slot in use, on handle 5, and an idle one.
abbrev two_slots : PoolManager
two_slots = record {
  slots = used ∷ idle ∷ [];
  configured_size = 2;
  configured_max_size = 2;
  idle_timeout_secs = 300;
  library_db_path = none;
  last_reap_time = 0;
  registry = [];
  db_to_pool = (5, 0) ∷ [];
  live_pool_conns = [];
}

abbrev busy : State host
busy = record { pm = two_slots; tls = TlsCache.set 0 0 2; world = 4 }

reap_idle-spares_example : get_elem? (reap_idle two_slots 1000).0.slots 0 ≡ some used
reap_idle-spares_example = reap_idle-spares two_slots 1000 0 refl (inl refl)

-- The idle slot is reaped.
idle_reaped : (reap_idle two_slots 1000).1 ≡ 4 ∷ []
unfolding reap_idle pool_size reap_slot references count_values try_claim_free
idle_reaped = refl

pool_release_for_db-frees_example :
    Closes host host-IsHost 7 5 busy (pool_release_for_db host 7 5 busy)
pool_release_for_db-frees_example = pool_release_for_db-frees host host-IsHost 7 5 busy

-- Thread 7 claims the slot, thread 8 is refused, 7 makes it ready, and its handle closes in time.
abbrev contended : Shared
contended = record {
  slot = release (mark_ready (try_claim_free (try_claim_free new_slot).0).0);
  holders = [];
  closing = [];
  late = false;
}

contended-Reached : Reached contended
unfolding new_slot try_claim_free mark_ready
contended-Reached =
    stored_free
      (read_ready
        (ended
          (refused (claimed (begun new_slot refl) 7 try_claim_free free_claim refl) try_claim_free
            free_claim refl)
          7 [] [] refl mark_ready made_ready)
        7 refl)
      7 [] [] refl

Reached-exclusive_example : length contended.holders ≡ holding contended.slot.state
Reached-exclusive_example = Reached-exclusive contended contended-Reached refl

-- A close that reads ready and stores free late, after another thread has reclaimed and claimed the slot:
-- a third thread then claims it too.
abbrev claimed_once : Slot
claimed_once = (try_claim_free (try_reclaim_zombie (mark_ready (try_claim_free new_slot).0)).0).0

release_race : Reached (record {
  slot = (try_claim_free (release claimed_once)).0;
  holders = 9 ∷ 8 ∷ [];
  closing = [];
  late = true;
})
unfolding new_slot try_claim_free try_reclaim_zombie mark_ready release
release_race =
    claimed
      (stored_free
        (claimed
          (reclaimed (
            read_ready
              (ended (claimed (begun new_slot refl) 7 try_claim_free free_claim refl) 7 [] [] refl
                mark_ready made_ready)
              7 refl))
          8 try_claim_free free_claim refl)
        7 [] [] refl)
      9 try_claim_free free_claim refl

-- The attempt excludes the connection of the slot in use.
abbrev excluding : AcquireCtx
excluding = record attempt { exclude_conn = 3 }
