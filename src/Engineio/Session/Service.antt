-- ===== src/Engineio/Session/Service.antt =====
-- What the transports of a `Line` do by themselves: a waiting poll and the write loop receive signals
-- and take the packets, while nobody polls anew, sends, upgrades or closes.
use hwarr.Base.{ℕ, suc, ◌+◌, ◌≤◌, ◌<◌, [], true, if◌then◌else◌, ◌≡◌, is_some, ◌⊎◌}
use hwarr.Engineio.Packet.{Packet}
use hwarr.Engineio.Session.Line.{Line, Step, wakes, answers, flush_wakes, flushes}

-- A step of a poll that waits or has been woken, or of the write loop.
abbrev pub IsService : {l m : Line} → Step l m → Type 0
IsService (wakes _ _) = Unit {0}
IsService (answers _ _) = Unit {0}
IsService (flush_wakes _) = Unit {0}
IsService (flushes _) = Unit {0}
IsService _ = ⊥

-- A run of such steps, and their number.
pub data Service (start : Line) : Line → ℕ → Type 0 where
  idle : Service start start 0
  more :
      {l m : Line} {n : ℕ}
      → Service start l n
      → (st : Step l m) → IsService st
      → Service start m (suc n)

-- One more such step can be made.
abbrev pub CanServe : Line → Type 0
CanServe l = (m : Line) × (st : Step l m) × IsService st

-- Two for each signal that waits, and one for each that has been received.
abbrev pub due : Line → ℕ
due l =
    (if l.session.recv_signal then 2 else 0)
    + ((if l.session.ws_signal then 2 else 0) + (l.woken + l.flushing))

-- The packets that wait have somebody to take them, now or at the next signal.
abbrev IsServed : Line → Type 0
IsServed l =
    (l.session.send_buffer ≡ [])
    ⊎ ((0 < l.waiting + (l.woken + l.flushing)) ⊎ (is_some l.session.ws_conn ≡ true))

-- What a run of service steps keeps.
abbrev IsOnTheWay : Line → Line → ℕ → Type 0
IsOnTheWay l m n = (due m + n ≤ due l) × IsServed m × (m.accepted ≡ l.accepted)
