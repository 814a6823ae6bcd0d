-- ===== src/Battle/Handler.antt =====
-- business/GameLogic/GameCmdHandler: the match object of a room and its timer. `armed` says that a
-- wait on the timer is pending, so that only then the timer's handler runs.
use own_game_server.Prelude.{
  ℕ, zero, suc, ◌+◌, ◌*◌, ◌∙◌, ap, ◌%◌, ◌≡◌, refl, Bool, true, false, not, Option, none, some, List,
  [], ◌∷◌, arith, if◌then◌else◌, String, u64_mod, All, Option-cases, inl, inr,
}
use native.Mathlib.Nat.{suc-mul}
use own_game_server.Assoc.{Assoc, insert, nat_eq}
use own_game_server.Player.{GamePlayerInfo}
use own_game_server.RuntimeData.{
  PlayerRuntimeState, MapData, RuntimeData, blank_runtime, MatchInfo, BattleCmd,
}
use own_game_server.Battle.EndCheck.{NoneFailed, NoneFailed-insert}
use own_game_server.Battle.Reports.{run_commands, run_commands-IsQuiet}

pub record GameCmdHandler : Type 0 where
  pub room_id : ℕ
  pub ticking : Bool
  pub tick_interval : ℕ
  pub armed : Bool
  pub runtime : RuntimeData

unfoldable pub init_game_state : GameCmdHandler → GameCmdHandler
init_game_state h = record h { runtime = record h.runtime { players = [] } }

-- GameCmdHandler(room_id, executor, end_callback)
unfoldable pub new_handler : ℕ → GameCmdHandler
unfolding init_game_state
new_handler room_id = init_game_state (record {
  room_id = room_id;
  ticking = false;
  tick_interval = 50;
  armed = false;
  runtime = blank_runtime;
})

-- ScheduleNextTick
unfoldable pub schedule_next_tick : GameCmdHandler → GameCmdHandler
schedule_next_tick h = if not h.ticking then h else record h { armed = true }

unfoldable pub start_ticking : ℕ → GameCmdHandler → GameCmdHandler
unfolding schedule_next_tick
start_ticking interval h =
    if h.ticking
    then h
    else schedule_next_tick (record h { tick_interval = interval; ticking = true })

-- `cancel` completes the pending wait with an error.
unfoldable pub stop_ticking : GameCmdHandler → GameCmdHandler
stop_ticking h = record h { ticking = false; armed = false }

unfoldable pub tick : ℕ → GameCmdHandler → GameCmdHandler
tick delta h = record h { runtime = record h.runtime { tick = (h.runtime.tick + delta) % u64_mod } }

-- The handler of the timer, run without an error when the wait that is pending ends.
unfoldable pub on_timer : GameCmdHandler → GameCmdHandler
unfolding tick schedule_next_tick
on_timer h =
    if not h.armed
    then h
    else if not h.ticking
    then record h { armed = false }
    else schedule_next_tick (tick h.tick_interval (record h { armed = false }))

-- The loop of StartGame over the players, from the seat `i`.
unfoldable pub seat_players :
    ℕ → List GamePlayerInfo → Assoc ℕ PlayerRuntimeState → Assoc ℕ PlayerRuntimeState
unfolding insert
seat_players i [] m = m
seat_players i (p ∷ ps) m = seat_players (suc i) ps (
    insert p.b_info.user_id
      (record {
        player_id = p.b_info.user_id;
        seat_index = i;
        score = 0;
        resources = 0;
        base_count = 0;
        failure = false;
      })
      m)

-- What StartGame leaves, and whether it has thrown: the map is not there.
unfoldable pub start_game :
    (String → Option MapData) → MatchInfo → GameCmdHandler → GameCmdHandler × Bool
unfolding seat_players
start_game load info h = elim (load info.selected_map_path) [
  | none ↦ (record h { runtime = record h.runtime { map_name = info.selected_map_path } }, false)
  | some m ↦ (
    record h {
      runtime = record {
        map_name = info.selected_map_path;
        map = m;
        players = seat_players 0 info.players h.runtime.players;
        tick = 0;
        current_player_id = info.owner_id;
      };
    },
    true,
  )
]

-- `n` expiries of the timer.
unfoldable pub run_timer : ℕ → GameCmdHandler → GameCmdHandler
unfolding on_timer
run_timer zero h = h
run_timer (suc n) h = run_timer n (on_timer h)

on_timer_lem :
    (h : GameCmdHandler) → h.ticking ≡ true → h.armed ≡ true → on_timer h ≡ tick h.tick_interval h
unfolding on_timer schedule_next_tick tick
on_timer_lem h t a = ground arith

tick_add : (t d x : ℕ) → ((t + d) % u64_mod + x) % u64_mod ≡ (t + (d + x)) % u64_mod
tick_add t d x = omega arith

suc_times : (n d : ℕ) → d + n * d ≡ suc n * d
suc_times n d = omega (arith, suc-mul n d)

-- While the handler is ticking and its timer is armed, `n` expiries advance the match's clock by
-- `n` intervals, modulo 2^64.
pub run_timer-tick :
    (n : ℕ) (h : GameCmdHandler)
    → h.ticking ≡ true
    → h.armed ≡ true
    → (run_timer n h).runtime.tick % u64_mod ≡ (h.runtime.tick + n * h.tick_interval) % u64_mod
unfolding run_timer tick
run_timer-tick zero h t a = omega arith
run_timer-tick (suc n) h t a =
    rw (on_timer_lem h t a, run_timer)
      (run_timer-tick n (tick h.tick_interval h) t a
        ∙ tick_add h.runtime.tick h.tick_interval (n * h.tick_interval)
        ∙ ap (λ (x : ℕ). (h.runtime.tick + x) % u64_mod) (suc_times n h.tick_interval))

-- After StopTicking no expiry of the timer changes the match.
pub run_timer-stop_ticking :
    (n : ℕ) (h : GameCmdHandler) → run_timer n (stop_ticking h) ≡ stop_ticking h
unfolding run_timer on_timer stop_ticking
run_timer-stop_ticking zero h = refl
run_timer-stop_ticking (suc n) h = run_timer-stop_ticking n h

NoneFailed-seat_players :
    (i : ℕ) (ps : List GamePlayerInfo) (m : Assoc ℕ PlayerRuntimeState)
    → NoneFailed m
    → NoneFailed (seat_players i ps m)
unfolding seat_players
NoneFailed-seat_players i [] m h = h
NoneFailed-seat_players i (p ∷ ps) m h =
    NoneFailed-seat_players (suc i) ps _ (NoneFailed-insert m p.b_info.user_id _ refl h)

-- A match that StartGame begins after InitGameState, as a room begins it, has no failed player: as
-- long as nothing was reported before, every winner that its commands report is player 0.
pub start_game-reports :
    (load : String → Option MapData) (info : MatchInfo) (h : GameCmdHandler) (cmds : List BattleCmd)
    → All
        (λ w. w ≡ 0)
        (run_commands
          (record { runtime = (start_game load info (init_game_state h)).0.runtime; winners = [] })
          cmds).winners
unfolding init_game_state start_game
start_game-reports load info h cmds =
    (run_commands-IsQuiet _ cmds (record { none_failed = none_failed; reports = tt })).reports
  where
    none_failed : NoneFailed (start_game load info (init_game_state h)).0.runtime.players
    none_failed = elim (Option-cases (load info.selected_map_path)) [
      | inl e ↦ rw (e, start_game) tt
      | inr (m, e) ↦ rw (e, start_game) (NoneFailed-seat_players 0 info.players [] tt)
    ]
