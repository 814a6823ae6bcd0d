-- ===== src/ClientSession/Setup.antt =====
-- network/session/ClientSession.cpp: the constructor and the setters. A flag says that a pointer is not
-- null, and an exception is `none`.
use own_game_server.Prelude.{ℕ, Bool, true, false, not, Option, none, some, [], if◌then◌else◌}
use own_game_server.ClientSession.{ClientSession, fresh_buffer}
use own_game_server.TcpConnection.{TcpConnection, close}

-- ClientSession(session_id, codec, gateway)
unfoldable pub new_session : ℕ → Bool → Bool → Option ClientSession
new_session session_id codec gateway =
    if not codec
    then none
    else if not gateway
    then none
    else some (record {
      session_id = session_id;
      buffer = [];
      behind = fresh_buffer;
      has_connection = false;
    })

-- The codec has no state, and the gateway is the router: a session has neither in it.
unfoldable pub set_codec : Bool → ClientSession → Option ClientSession
set_codec codec s = if not codec then none else some s

unfoldable pub set_gateway : Bool → ClientSession → Option ClientSession
set_gateway gateway s = if not gateway then none else some s

unfoldable pub set_connection : Bool → ClientSession → Option ClientSession
set_connection connection s =
    if not connection then none else some (record s { has_connection = true })

abbrev pub get_session_id : ClientSession → ℕ
get_session_id s = s.session_id

-- Close, with the session's connection.
unfoldable pub close_session : ClientSession → TcpConnection → TcpConnection
unfolding close
close_session s c = if s.has_connection then close c else c
