-- ===== src/SessionManager/Tests.antt =====
-- A manager of two sessions, which are numbers here.
use own_game_server.Prelude.{
  ℕ, ◌+◌, ◌≡◌, refl, true, false, none, List, [], ◌∷◌, arith, if◌then◌else◌, nat_beq,
}
use own_game_server.Assoc.{lookup, nat_eq}
use own_game_server.SessionManager.{SessionManager, get_session, handle_heartbeat_sweep}
use own_game_server.SessionManager.Upkeep.{
  IsInStep, Event, connected, disconnected, heartbeat, swept, history, history-IsInStep,
}
use own_game_server.SessionManager.Sweep.{handle_heartbeat_sweep_closed}

abbrev pair : SessionManager ℕ
pair = record {
  sessions = (1, 11) ∷ (2, 12) ∷ [];
  last_heartbeat_at = (1, 1000) ∷ (2, 9000) ∷ [];
  next_session_id = 3;
  heartbeat_sweep_running = true;
  sweep_armed = true;
  closed = [];
}

pair-IsInStep : IsInStep pair
unfolding lookup
pair-IsInStep = record {
  timed = λ id s e. (if nat_beq id 1 then 1000 else 9000, ground arith);
  live = λ id t e. (if nat_beq id 1 then 11 else 12, ground arith);
  bounded = omega arith;
  no_zero = refl;
}

abbrev day : List Event
day =
    connected true true 31500
    ∷ heartbeat 2 31600
    ∷ swept false 32000
    ∷ disconnected 2
    ∷ connected true false 40000
    ∷ []

history-IsInStep_example : IsInStep (history (λ id. id + 10) pair day)
history-IsInStep_example = history-IsInStep (λ id. id + 10) pair day pair-IsInStep

handle_heartbeat_sweep_closed_example :
    get_session 1 (handle_heartbeat_sweep false 32000 pair) ≡ none
unfolding lookup
handle_heartbeat_sweep_closed_example =
    handle_heartbeat_sweep_closed 32000 1 1000 pair 11 refl refl (omega arith)
