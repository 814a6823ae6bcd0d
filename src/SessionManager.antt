-- ===== src/SessionManager.antt =====
-- network/session/SessionManager: the sessions by id and their last heartbeats. Times are numbers of
-- milliseconds of the steady clock, given where it is read. `S` is the type of the session objects;
-- `closed` lists the sessions given to the close callback, in order. The gateway is set. Closing a
-- session's socket calls CloseSession once more, which finds nothing and returns.
pub mod Upkeep
pub mod Sweep
pub mod Arrivals
mod Tests
use own_game_server.Prelude.{
  ℕ, ◌+◌, ◌-◌, ◌%◌, ◌^◌, Bool, true, false, not, Option, none, some, List, [], ◌∷◌, ◌++◌, nat_beq,
  ltb, leb, if◌then◌else◌, length, u32_mod,
}
use own_game_server.Assoc.{Assoc, lookup, insert, emplace, erase, nat_eq}

pub record SessionManager {ℓ} (S : Type ℓ) : Type ℓ where
  pub sessions : Assoc ℕ S
  pub last_heartbeat_at : Assoc ℕ ℕ
  pub next_session_id : ℕ
  pub heartbeat_sweep_running : Bool
  pub sweep_armed : Bool
  pub closed : List S

abbrev pub max_connection_num : ℕ
max_connection_num = 1000

abbrev pub heartbeat_timeout : ℕ
heartbeat_timeout = 30000

module _ {ℓ} {S : Type ℓ} where
  -- AllocateSessionId, with the id that it returns.
  unfoldable pub allocate_session_id : SessionManager S → SessionManager S × ℕ
  allocate_session_id m =
      (record m { next_session_id = (m.next_session_id + 1) % u32_mod }, m.next_session_id)

  -- The block that inserts, with whether it has inserted.
  unfoldable pub insert_session : ℕ → S → ℕ → SessionManager S → SessionManager S × Bool
  insert_session session_id session now m =
      if leb max_connection_num (length m.sessions)
      then (m, false)
      else elim (lookup session_id m.sessions) [
        | some s ↦ (m, false)
        | none ↦ (
          record m {
            sessions = emplace session_id session m.sessions;
            last_heartbeat_at = insert session_id now m.last_heartbeat_at;
          },
          true,
        )
      ]

  abbrev pub forget : ℕ → SessionManager S → SessionManager S
  forget session_id m = record m {
    sessions = erase session_id m.sessions;
    last_heartbeat_at = erase session_id m.last_heartbeat_at;
  }

  -- CreateSession: `usable` says that there is a codec and that the socket is open, `starts` that
  -- the connection starts without an exception.
  unfoldable pub create_session :
      (ℕ → S) → Bool → Bool → ℕ → SessionManager S → SessionManager S × ℕ
  unfolding allocate_session_id insert_session
  create_session make usable starts now m =
      if not usable
      then (m, 0)
      else (let (m1, session_id) = allocate_session_id m in
          if nat_beq session_id 0
          then (m1, 0)
          else (let (m2, inserted) = insert_session session_id (make session_id) now m1 in
              if not inserted
              then (m2, 0)
              else if starts
              then (m2, session_id)
              else (forget session_id m2, 0)))

  unfoldable pub close_session : ℕ → SessionManager S → SessionManager S × Bool
  close_session session_id m = elim (lookup session_id m.sessions) [
    | none ↦ (m, false)
    | some s ↦ (record (forget session_id m) { closed = m.closed ++ s ∷ [] }, true)
  ]

  abbrev pub is_connection_full : SessionManager S → Bool
  is_connection_full m = leb max_connection_num (length m.sessions)

  abbrev pub get_session : ℕ → SessionManager S → Option S
  get_session session_id m = lookup session_id m.sessions

  unfoldable pub on_session_heartbeat : ℕ → ℕ → SessionManager S → SessionManager S
  on_session_heartbeat session_id now m = elim (lookup session_id m.sessions) [
    | none ↦ m
    | some s ↦ record m { last_heartbeat_at = insert session_id now m.last_heartbeat_at }
  ]

  -- forEachSession, over a state that the callable changes: the sessions are those of the snapshot.
  unfoldable pub for_each_session {κ} : {R : Type κ} → (S → R → R) → Assoc ℕ S → R → R
  for_each_session func [] r = r
  for_each_session func ((sid, session) ∷ rest) r = for_each_session func rest (func session r)

  -- EnsureHeartbeatSweepStarted and ScheduleHeartbeatSweep
  unfoldable pub ensure_heartbeat_sweep_started : SessionManager S → SessionManager S
  ensure_heartbeat_sweep_started m =
      if m.heartbeat_sweep_running
      then m
      else record m { heartbeat_sweep_running = true; sweep_armed = true }

  -- The sessions whose heartbeat is too old.
  unfoldable pub expired : ℕ → Assoc ℕ S → Assoc ℕ ℕ → List ℕ
  expired now sessions [] = []
  expired now sessions ((sid, at) ∷ rest) =
      let others : List ℕ = expired now sessions rest in
      elim (lookup sid sessions) [
        | none ↦ others
        | some s ↦ if ltb (at + heartbeat_timeout) now then sid ∷ others else others
      ]

  unfoldable pub close_sessions : List ℕ → SessionManager S → SessionManager S
  unfolding close_session
  close_sessions [] m = m
  close_sessions (sid ∷ sids) m = close_sessions sids (close_session sid m).0

  abbrev pub is_empty : Assoc ℕ S → Bool
  is_empty [] = true
  is_empty (s ∷ ss) = false

  -- The end of a sweep: the next one is scheduled while there are sessions.
  unfoldable pub finish_sweep : SessionManager S → SessionManager S
  finish_sweep m =
      if is_empty m.sessions
      then record m { heartbeat_sweep_running = false }
      else record m { sweep_armed = true }

  -- HandleHeartbeatSweep; `aborted` says that the wait was cancelled.
  unfoldable pub handle_heartbeat_sweep : Bool → ℕ → SessionManager S → SessionManager S
  handle_heartbeat_sweep aborted now m0 =
      let m : SessionManager S = record m0 { sweep_armed = false } in
      if aborted
      then m
      else finish_sweep (close_sessions (expired now m.sessions m.last_heartbeat_at) m)
