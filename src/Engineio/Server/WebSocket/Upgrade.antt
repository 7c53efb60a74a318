-- ===== src/Engineio/Server/WebSocket/Upgrade.antt =====
-- The upgrade of a session from polling in server/pkg/engineio/websocket.go.
use hwarr.Base.{
  ℕ, GoString, codes, [], ◌∷◌, Bool, true, false, Option, none, some, if◌then◌else◌, str_eq, nat_eq,
  ◌≡◌, ◌↔◌, arith, str_iff, not, ◌||◌, ◌⊎◌, inl, inr, ltb, length, Bool-cases,
}
use hwarr.Engineio.Packet.{decode_packet}
use hwarr.Engineio.Session.{
  Session, websocket, start_upgrade, cancel_upgrade, upgrade_to_web_socket,
}
use hwarr.Engineio.Server.WebSocket.{
  answer_probe, finish_upgrade, reads, is_probe, is_upgrade, probe, pong_probe,
}

reads-is_probe :
    (message : Option GoString)
    → (reads message is_probe ≡ true) ↔ (message ≡ some (codes "2probe"))
unfolding reads decode_packet
reads-is_probe none = ground arith
reads-is_probe (some []) = ground arith
reads-is_probe (some (t ∷ rest)) = ground (arith, str_iff rest probe)

reads-is_upgrade :
    (message : Option GoString)
    → (reads message is_upgrade ≡ true) ↔ ((rest : GoString) × (message ≡ some (b'5' ∷ rest)))
unfolding reads decode_packet
reads-is_upgrade none = (λ h. cc, λ h. cc)
reads-is_upgrade (some []) = (λ h. cc, λ h. absurd (ground (arith, h.1)))
reads-is_upgrade (some (t ∷ rest)) = (λ h. (rest, ground (arith, h)), λ h. ground (arith, h.1))

answer_probe-lost :
    (s : Session) (message : Option GoString) (written : Bool)
    → reads message is_probe ≡ false
    → (answer_probe s message written).0 ≡ s
unfolding answer_probe
answer_probe-lost s message written n = ground (arith, n)

-- The session while the second message is awaited.
abbrev pub IsProbed : Session → Bool → Session → Type 0
IsProbed s written t =
    (t.upgrading ≡ written)
    × (t.recv_signal ≡ (not s.upgrading || s.recv_signal))
    × (t.transport ≡ s.transport)
    × (t.ws_conn ≡ s.ws_conn)
    × (t.send_buffer ≡ s.send_buffer)

answer_probe-IsProbed :
    (s : Session) (message : Option GoString) (written : Bool)
    → reads message is_probe ≡ true
    → IsProbed s written (answer_probe s message written).0
unfolding answer_probe start_upgrade cancel_upgrade
answer_probe-IsProbed s message written e =
    (ground (arith, e), ground (arith, e), ground (arith, e), ground (arith, e), ground (arith, e))

answer_probe-answers :
    (s : Session) (message : Option GoString) (written : Bool)
    → ((answer_probe s message written).1 ≡ some pong_probe)
      ↔ ((message ≡ some (codes "2probe")) × (written ≡ true))
unfolding answer_probe
answer_probe-answers s message written = ground (arith, reads-is_probe message)

finish_upgrade-switches :
    (t : Session) (message : Option GoString) (wsc : ℕ)
    → ((finish_upgrade t message wsc).1 ≡ true)
      ↔ ((rest : GoString) × (message ≡ some (b'5' ∷ rest)))
unfolding finish_upgrade
finish_upgrade-switches t message wsc = (
  λ h. (reads-is_upgrade message).0 (ground (arith, h)),
  λ h. ground (arith, (reads-is_upgrade message).1 h),
)

-- The session when the upgrade has come to its end, one way or the other.
abbrev pub IsFinished : Session → ℕ → Bool → Session → Type 0
IsFinished t wsc switched after =
    (after.upgrading ≡ false)
    × (after.transport ≡ (if switched then websocket else t.transport))
    × (after.ws_conn ≡ (if switched then some wsc else t.ws_conn))
    × (after.ws_signal ≡ (if switched then ltb 0 (length t.send_buffer) else t.ws_signal))
    × (after.recv_signal ≡ (switched || t.recv_signal))
    × (after.send_buffer ≡ t.send_buffer)

finish_upgrade-IsFinished :
    (t : Session) (message : Option GoString) (wsc : ℕ)
    → let finished = finish_upgrade t message wsc in IsFinished t wsc finished.1 finished.0
unfolding finish_upgrade cancel_upgrade upgrade_to_web_socket
finish_upgrade-IsFinished t message wsc =
    (ground arith, ground arith, ground arith, ground arith, ground arith, ground arith)

-- handleWSUpgrade: the probe is answered exactly if the first message is "2probe" and the answer
-- is written; any other first message leaves the session as it was, and a probe leaves it
-- upgrading exactly if the answer was written, with a signal for a waiting poll unless it was
-- upgrading before, and its transport, socket and buffer as they were. The transport is switched
-- exactly if the second message then is of type UPGRADE: the session then has the transport
-- websocket and the new socket, a signal for a waiting poll, and one for the write loop exactly
-- if its buffer is not empty; otherwise transport, socket and signals stay as they were. Either
-- way the session is no longer upgrading and its buffer is what it was.
pub ws_upgrade_lem :
    (s t : Session) (first second : Option GoString) (written : Bool) (wsc : ℕ)
    → let probed = answer_probe s first written in
      let finished = finish_upgrade t second wsc in
      ((probed.1 ≡ some pong_probe) ↔ ((first ≡ some (codes "2probe")) × (written ≡ true)))
      × ((first ≡ some (codes "2probe")) ⊎ (probed.0 ≡ s))
      × ((¬ (first ≡ some (codes "2probe"))) ⊎ IsProbed s written probed.0)
      × ((finished.1 ≡ true) ↔ ((rest : GoString) × (second ≡ some (b'5' ∷ rest))))
      × IsFinished t wsc finished.1 finished.0
ws_upgrade_lem s t first second written wsc = (
  answer_probe-answers s first written,
  elim (Bool-cases (reads first is_probe)) [
    | inl e ↦ inl ((reads-is_probe first).0 e)
    | inr e ↦ inr (answer_probe-lost s first written e)
  ],
  elim (Bool-cases (reads first is_probe)) [
    | inl e ↦ inr (answer_probe-IsProbed s first written e)
    | inr e ↦ inl (λ h. absurd (ground (arith, e, (reads-is_probe first).1 h)))
  ],
  finish_upgrade-switches t second wsc,
  finish_upgrade-IsFinished t second wsc,
)
