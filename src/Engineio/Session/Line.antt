-- ===== src/Engineio/Session/Line.antt =====
-- A session of server/pkg/engineio/session.go with the goroutines that work on it, interleaved in
-- any order: requests that poll, the write loop of websocket.go, and whoever sends, closes and
-- upgrades. A goroutine that has received a signal and not yet the lock is counted. What a callback
-- sends is steps of their own. `delivered` is what polls and the write loop have taken from the
-- buffer; the write loop drops what stands behind a write that fails.
use hwarr.Base.{
  ℕ, ◌+◌, ◌-◌, ◌<◌, GoString, List, [], ◌∷◌, ◌++◌, true, false, Option, none, some, if◌then◌else◌,
  ◌==◌, nat_eq, ◌≡◌,
}
use hwarr.Engineio.Packet.{Packet, packet_ping, packet_pong, packet_message}
use hwarr.Engineio.Session.{
  Session, CloseHandler, MessageHandler, new_session, set_on_message, set_on_close, send,
  send_packet, bind_web_socket, start_upgrade, upgrade_to_web_socket, cancel_upgrade, drain_start,
  receive_signal, drain_woken, handle_start, close,
}

-- wsWriteLoop behind its receive from `wsSendChan`: the buffer, taken under the lock.
unfoldable pub ws_drain : Session → Session × List Packet
ws_drain s = (record s { send_buffer = [] }, s.send_buffer)

pub record Line : Type 0 where
  pub session : Session
  pub waiting : ℕ
  pub woken : ℕ
  pub flushing : ℕ
  pub accepted : List Packet
  pub delivered : List Packet

-- What a session that is not closed takes over.
abbrev pub accept : Session → List Packet → List Packet
accept s packets = if s.closed then [] else packets

abbrev pub answer_to : Packet → List Packet
answer_to p =
    if p.type == packet_ping then record { type = packet_pong; payload = p.payload } ∷ [] else []

abbrev pub after_poll : Line → Session × Option (List Packet) → Line
after_poll l (s, none) = record l { session = s; waiting = l.waiting + 1 }
after_poll l (s, some packets) = record l { session = s; delivered = l.delivered ++ packets }

pub data Step (l : Line) : Line → Type 0 where
  sets_on_message :
      (handler : MessageHandler) → Step l (record l { session = set_on_message l.session handler })
  sets_on_close :
      (handler : CloseHandler) → Step l (record l { session = set_on_close l.session handler })
  sends :
      (payload : GoString)
      → Step l (record l {
        session = send l.session payload;
        accepted =
            l.accepted
            ++ accept l.session (record { type = packet_message; payload = payload } ∷ []);
      })
  sends_packet :
      (p : Packet)
      → Step l (record l {
        session = send_packet l.session p;
        accepted = l.accepted ++ accept l.session (p ∷ []);
      })
  handles :
      (p : Packet) (now : ℕ)
      → Step l (record l {
        session = handle_start l.session p now;
        accepted = l.accepted ++ accept l.session (answer_to p);
      })
  polls : (now : ℕ) → Step l (after_poll l (drain_start l.session now))
  wakes :
      l.session.recv_signal ≡ true
      → 0 < l.waiting
      → Step l (record l {
        session = receive_signal l.session;
        waiting = l.waiting - 1;
        woken = l.woken + 1;
      })
  gives_up : 0 < l.waiting → Step l (record l { waiting = l.waiting - 1 })
  answers :
      (now : ℕ)
      → 0 < l.woken
      → Step l (record l {
        session = (drain_woken l.session now).0;
        woken = l.woken - 1;
        delivered = l.delivered ++ (drain_woken l.session now).1;
      })
  flush_wakes :
      l.session.ws_signal ≡ true
      → Step l
          (record l { session = record l.session { ws_signal = false }; flushing = l.flushing + 1 })
  flushes :
      0 < l.flushing
      → Step l (record l {
        session = (ws_drain l.session).0;
        flushing = l.flushing - 1;
        delivered = l.delivered ++ (ws_drain l.session).1;
      })
  starts_upgrade : Step l (record l { session = start_upgrade l.session })
  cancels_upgrade : Step l (record l { session = cancel_upgrade l.session })
  upgrades : (wsc : ℕ) → Step l (record l { session = upgrade_to_web_socket l.session wsc })
  binds :
      (wsc : ℕ)
      → l.session.send_buffer ≡ []
      → Step l (record l { session = bind_web_socket l.session wsc })
  closes : (reason : GoString) → Step l (record l { session = close l.session reason })

-- The session as NewSession makes it, with nobody at work.
abbrev pub fresh : GoString → ℕ → ℕ → ℕ → Line
fresh id ping_interval ping_timeout now = record {
  session = new_session id ping_interval ping_timeout now;
  waiting = 0;
  woken = 0;
  flushing = 0;
  accepted = [];
  delivered = [];
}

pub data Reach (start : Line) : Line → Type 0 where
  here : Reach start start
  later : {l m : Line} → Reach start l → Step l m → Reach start m
