-- ===== src/Engineio/Server/Forgetting.antt =====
-- What closing a session of server/pkg/engineio/server.go does to the server's sessions.
use hwarr.Base.{
  GoString, ℕ, Bool, true, false, not, ◌&&◌, Option, none, some, if◌then◌else◌, ◌==◌, str_eq, ◌≡◌,
  arith,
}
use hwarr.GoMap.Laws.{get-delete}
use hwarr.Engineio.Session.{Session, CloseHandler, removes_session, disconnects_all, close}
use hwarr.Engineio.Server.{
  Server, get_session, session_at, close_session, update, store, remove_session,
}

-- Whether the close handler is the one that the server itself sets.
abbrev pub removes : Option CloseHandler → Bool
removes (some removes_session) = true
removes (some disconnects_all) = false
removes none = false

-- Closing a session that is there takes it out of the server's sessions exactly if it was open
-- and still has the close handler of the handshake: with the handler that the application sets in
-- its place, the closed session stays registered.
pub get_session-close_session :
    (srv : Server) (p : ℕ) (s : Session) (reason sid : GoString)
    → session_at srv p ≡ some s
    → get_session (close_session srv p reason) sid
      ≡ (if not s.closed && (removes s.on_close && s.id == sid) then none else get_session srv sid)
unfolding close_session close update store remove_session get_session
get_session-close_session srv p s reason sid f = ground (arith, f, get-delete srv.sessions s.id sid)
