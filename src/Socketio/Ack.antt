-- ===== src/Socketio/Ack.antt =====
-- server/pkg/socketio/ack.go. A callback is a value of a type `K`, and what has been called is a
-- list. A pointer to a pendingAck is a token. A timer is armed, then its function starts (`expire`)
-- and waits for the lock, then it runs (`run_timeout`): Stop reaches only an armed timer. An ack id
-- is at least 0.
pub mod Timeouts
mod Examples
use hwarr.Base.{
  ℕ, ◌+◌, GoString, List, [], ◌∷◌, ◌++◌, Bool, true, false, Option, none, some, get_or,
  if◌then◌else◌, ◌==◌, str_eq, nat_eq,
}
use hwarr.GoMap.{GoMap, get, assign, delete, len}

pub record PendingAck (K : Type 0) : Type 0 where
  pub token : ℕ
  pub callback : K

pub data AckAnswer : Type 0 where
  reply : List GoString → AckAnswer
  timed_out : AckAnswer

pub record AckTimer (K : Type 0) : Type 0 where
  pub sid : GoString
  pub ack_id : ℕ
  pub on_timeout : K

pub record AckRegistry (K : Type 0) : Type 0 where
  pub pending : GoMap GoString (GoMap ℕ (PendingAck K))
  pub last_id : ℕ
  pub next_token : ℕ
  pub armed : GoMap ℕ (AckTimer K)
  pub started : GoMap ℕ (AckTimer K)
  pub calls : List (K × AckAnswer)

-- The data as an array, or as the only argument where it is none.
abbrev pub ack_args : (GoString → Option (List GoString)) → Option GoString → List GoString
ack_args parse none = []
ack_args parse (some s) = get_or (parse s) (s ∷ [])

module _ {K : Type 0} where
  unfoldable pub new_ack_registry : AckRegistry K
  new_ack_registry = record {
    pending = [];
    last_id = 0;
    next_token = 0;
    armed = [];
    started = [];
    calls = [];
  }

  -- NextID
  unfoldable pub next_ack_id : AckRegistry K → AckRegistry K × ℕ
  next_ack_id r = (record r { last_id = r.last_id + 1 }, r.last_id + 1)

  -- r.pending[sid][ackID]
  abbrev pub lookup_in : Option (GoMap ℕ (PendingAck K)) → ℕ → Option (PendingAck K)
  lookup_in none ack_id = none
  lookup_in (some sid_map) ack_id = get sid_map ack_id

  unfoldable pub find_pending : AckRegistry K → GoString → ℕ → Option (PendingAck K)
  find_pending r sid ack_id = lookup_in (get r.pending sid) ack_id

  -- delete(sidMap, ackID), and the socket's map where it is left empty
  unfoldable pub drop_pending : AckRegistry K → GoString → ℕ → AckRegistry K
  drop_pending r sid ack_id =
      let sid_map = delete (get_or (get r.pending sid) []) ack_id in
      record r {
        pending = if len sid_map == 0 then delete r.pending sid else assign r.pending sid sid_map;
      }

  -- The registry, and the pointer that the cancel function and the timer hold.
  unfoldable pub register : AckRegistry K → GoString → ℕ → Bool → K → AckRegistry K × ℕ
  register r sid ack_id timed callback =
      let ack : PendingAck K = record { token = r.next_token; callback = callback } in
      let timer : AckTimer K = record { sid = sid; ack_id = ack_id; on_timeout = callback } in
      (
        record r {
          pending = assign r.pending sid (assign (get_or (get r.pending sid) []) ack_id ack);
          next_token = r.next_token + 1;
          armed = if timed then assign r.armed r.next_token timer else r.armed;
        },
        r.next_token,
      )

  abbrev pub is_ack : ℕ → Option (PendingAck K) → Bool
  is_ack token none = false
  is_ack token (some ack) = ack.token == token

  -- The function that Register returns.
  unfoldable pub cancel : AckRegistry K → GoString → ℕ → ℕ → AckRegistry K
  unfolding find_pending drop_pending
  cancel r sid ack_id token =
      if is_ack token (find_pending r sid ack_id)
      then record (drop_pending r sid ack_id) { armed = delete r.armed token }
      else r

  unfoldable pub resolve :
      (GoString → Option (List GoString))
      → AckRegistry K
      → GoString
      → ℕ
      → Option GoString
      → AckRegistry K × Bool
  unfolding find_pending drop_pending
  resolve parse r sid ack_id payload = elim (find_pending r sid ack_id) [
    | none ↦ (r, false)
    | some ack ↦ (
      record (drop_pending r sid ack_id) {
        armed = delete r.armed ack.token;
        calls = r.calls ++ (ack.callback, reply (ack_args parse payload)) ∷ [];
      },
      true,
    )
  ]

  -- The loop of RemoveAll over the socket's pending acks.
  unfoldable pub stop_each : GoMap ℕ (PendingAck K) → GoMap ℕ (AckTimer K) → GoMap ℕ (AckTimer K)
  stop_each [] armed = armed
  stop_each ((ack_id, ack) ∷ rest) armed = stop_each rest (delete armed ack.token)

  unfoldable pub remove_all : AckRegistry K → GoString → AckRegistry K
  unfolding stop_each
  remove_all r sid = record r {
    pending = delete r.pending sid;
    armed = stop_each (get_or (get r.pending sid) []) r.armed;
  }

  unfoldable pub pending_count : AckRegistry K → GoString → ℕ
  pending_count r sid = len (get_or (get r.pending sid) [])

  -- The time of an armed timer is over: its function starts.
  unfoldable pub expire : AckRegistry K → ℕ → AckRegistry K
  expire r token = elim (get r.armed token) [
    | none ↦ r
    | some timer ↦ record r { armed = delete r.armed token; started = assign r.started token timer }
  ]

  -- The function of a timer has the lock: it removes its own entry, if that is there, and calls back.
  unfoldable pub run_timeout : AckRegistry K → ℕ → AckRegistry K
  unfolding find_pending drop_pending
  run_timeout r token = elim (get r.started token) [
    | none ↦ r
    | some timer ↦
        let kept =
          if is_ack token (find_pending r timer.sid timer.ack_id)
          then drop_pending r timer.sid timer.ack_id
          else r in
        record kept {
          started = delete r.started token;
          calls = r.calls ++ (timer.on_timeout, timed_out) ∷ [];
        }
  ]
