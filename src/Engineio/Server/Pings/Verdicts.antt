-- ===== src/Engineio/Server/Pings/Verdicts.antt =====
-- A tick of pingLoop of server/pkg/engineio/server.go, over all the sessions.
use hwarr.Base.{
  ℕ, ◌+◌, GoString, codes, [], ◌∷◌, ◌++◌, Bool, not, ◌&&◌, ◌||◌, ltb, List, Option, none, some,
  if◌then◌else◌, str_eq, nat_eq, ◌≡◌,
}
use hwarr.Engineio.Session.{Session, SessionCall, CloseHandler, close_call}
use hwarr.Engineio.Server.{Server, ServerConfig}
use hwarr.Engineio.Server.Pings.{ping}

-- The call of a close handler, if there is one.
abbrev pub told : Option CloseHandler → GoString → List SessionCall
told none id = []
told (some handler) id = close_call handler id (codes "ping timeout") ∷ []

module _ (s : Session) (config : ServerConfig) (now : ℕ) where
  -- More than the interval and the timeout have passed since the session was active.
  abbrev pub is_late : Bool
  is_late = ltb (s.last_active + (config.ping_interval + config.ping_timeout)) now

  -- What is left of the session, written out.
  abbrev HasTicked : Session → Type 0
  HasTicked t =
      (t.closed ≡ (s.closed || is_late))
      × (t.send_buffer
          ≡ (if s.closed || is_late then s.send_buffer else s.send_buffer ++ ping ∷ []))
      × (t.calls ≡ (if not s.closed && is_late then s.calls ++ told s.on_close s.id else s.calls))
