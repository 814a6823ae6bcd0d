-- ===== src/Server/Takeover.antt =====
-- Logging in at the server of main.cpp: who is sent where afterwards.
use own_game_server.Prelude.{
  ℕ, ◌+◌, ◌%◌, ◌<◌, ◌≡◌, ◌≢◌, ◌∙◌, refl, ap, true, ◌||◌, Option, some, arith, String, length,
  nat_beq, nat_beq_iff, if◌then◌else◌, u32_mod,
}
use own_game_server.Assoc.{nat_eq}
use own_game_server.ClientSession.{MsgPack}
use own_game_server.UserSessionMap.{UserSessionMap, bind, get_session_id, get_user_id}
use own_game_server.UserSessionMap as U
use own_game_server.UserSessionMap.Consistency.{bind_sessions, bind_users}
use own_game_server.Messages.{DbLoginReq}
use own_game_server.MsgRouter.{MsgRouter}
use own_game_server.MsgRouter.Dispatch.{send_message_to_session-books}
use own_game_server.ReqHandler.{
  handle_login_request, log_in, read_login, validate_login, run_callbacks, login_info,
  send_back_login_response,
}
use own_game_server.Server.{req_handler_of, user_map_login, player_login}

-- A user that is bound to one session and then to another has left the first.
bind_again :
    (m : UserSessionMap) (user s t : ℕ)
    → s ≢ t
    → (get_user_id (bind (bind m user s) user t) s ≡ 0)
      × (get_session_id (bind (bind m user s) user t) user ≡ t)
unfolding get_user_id get_session_id
bind_again m user s t ne = (
  ground (arith, bind_sessions (bind m user s) user t s, bind_users m user s user),
  ground (arith, bind_users (bind m user s) user t user),
)

bind_unless_zero :
    (m : UserSessionMap) (user s : ℕ)
    → user ≢ 0
    → s ≢ 0
    → (if nat_beq user 0 || nat_beq s 0 then m else bind m user s) ≡ bind m user s
bind_unless_zero m user s u n = ground (arith, nat_beq_iff user 0, nat_beq_iff s 0)

module _ (name_of : ℕ → String) where
  -- The router when the login callbacks have run, and when the response has been sent too.
  abbrev pub called_back : MsgPack → DbLoginReq → MsgRouter → MsgRouter
  called_back pack req r =
      run_callbacks (req_handler_of name_of).login_callbacks (login_info pack (validate_login req))
        r

  abbrev pub logged_in : MsgPack → DbLoginReq → MsgRouter → MsgRouter
  logged_in pack req r = send_back_login_response pack (validate_login req) (called_back pack req r)

  pub handle_login_request-read :
      (pack : MsgPack) (req : DbLoginReq) (r : MsgRouter)
      → read_login pack.msg.payload ≡ some req
      → handle_login_request (req_handler_of name_of) pack r ≡ some (logged_in pack req r, true)
  unfolding handle_login_request
  handle_login_request-read pack req r e =
      ap (λ (o : Option DbLoginReq). log_in (req_handler_of name_of) pack o r) e
      ∙ (unfold log_in in refl)

  called_back-map :
      (pack : MsgPack) (req : DbLoginReq) (r : MsgRouter)
      → (called_back pack req r).user_session_map
        ≡ U.on_user_login r.user_session_map (login_info pack (validate_login req))
  unfolding run_callbacks req_handler_of user_map_login player_login
  called_back-map pack req r = refl

  on_user_login-bind :
      (m : UserSessionMap) (pack : MsgPack) (req : DbLoginReq)
      → length req.user_name < 256
      → pack.sender_session_id ≢ 0
      → U.on_user_login m (login_info pack (validate_login req))
        ≡ bind m (123 + length req.user_name) pack.sender_session_id
  unfolding U.on_user_login login_info validate_login
  on_user_login-bind m pack req short real =
      bind_unless_zero m ((123 + length req.user_name) % u32_mod) pack.sender_session_id
        (omega arith) real
      ∙ ap (λ (n : ℕ). bind m n pack.sender_session_id) (omega arith)

  -- After a login that has been read, the map is that of the user's id bound to the session.
  pub logged_in-map :
      (pack : MsgPack) (req : DbLoginReq) (r : MsgRouter)
      → length req.user_name < 256
      → pack.sender_session_id ≢ 0
      → (logged_in pack req r).user_session_map
        ≡ bind r.user_session_map (123 + length req.user_name) pack.sender_session_id
  unfolding send_back_login_response
  logged_in-map pack req r short real =
      (send_message_to_session-books pack.sender_session_id _ (called_back pack req r)).0
      ∙ called_back-map pack req r
      ∙ on_user_login-bind r.user_session_map pack req short real

  -- Two users with names of the same length get the same id. When the first has logged in from one
  -- session and the second logs in from another, the first one's session has no user any more, and
  -- what is sent to the first goes to the second.
  pub handle_login_request-takeover :
      (p1 p2 : MsgPack) (req1 req2 : DbLoginReq) (r : MsgRouter)
      → read_login p1.msg.payload ≡ some req1
      → read_login p2.msg.payload ≡ some req2
      → length req1.user_name < 256
      → length req2.user_name ≡ length req1.user_name
      → p1.sender_session_id ≢ 0
      → p2.sender_session_id ≢ 0
      → p1.sender_session_id ≢ p2.sender_session_id
      → (r1 : MsgRouter) × (r2 : MsgRouter) × (handle_login_request (req_handler_of name_of) p1 r
          ≡ some (r1, true))
        × (handle_login_request (req_handler_of name_of) p2 r1 ≡ some (r2, true))
        × (get_session_id r1.user_session_map (123 + length req1.user_name) ≡ p1.sender_session_id)
        × (get_session_id r2.user_session_map (123 + length req1.user_name) ≡ p2.sender_session_id)
        × (get_user_id r2.user_session_map p1.sender_session_id ≡ 0)
  handle_login_request-takeover p1 p2 req1 req2 r e1 e2 short same real1 real2 apart =
      let (gone, moved) =
        bind_again r.user_session_map user p1.sender_session_id p2.sender_session_id apart in
      (
        r1,
        r2,
        handle_login_request-read p1 req1 r e1,
        handle_login_request-read p2 req2 r1 e2,
        ap (λ (m : UserSessionMap). get_session_id m user) map1
            ∙ (unfold get_session_id in
                ground (arith, bind_users r.user_session_map user p1.sender_session_id user)),
        ap (λ (m : UserSessionMap). get_session_id m user) map2 ∙ moved,
        ap (λ (m : UserSessionMap). get_user_id m p1.sender_session_id) map2 ∙ gone,
      )
    where
      user : ℕ
      user = 123 + length req1.user_name

      r1 : MsgRouter
      r1 = logged_in p1 req1 r

      r2 : MsgRouter
      r2 = logged_in p2 req2 r1

      map1 : r1.user_session_map ≡ bind r.user_session_map user p1.sender_session_id
      map1 = logged_in-map p1 req1 r short real1

      map2 :
          r2.user_session_map
          ≡ bind (bind r.user_session_map user p1.sender_session_id) user p2.sender_session_id
      map2 =
          logged_in-map p2 req2 r1 (omega arith) real2
          ∙ ap (λ (n : ℕ). bind r1.user_session_map (123 + n) p2.sender_session_id) same
          ∙ ap (λ (m : UserSessionMap). bind m user p2.sender_session_id) map1
