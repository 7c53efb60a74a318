-- ===== src/Socketio/Ack/Timeouts.antt =====
-- Answers and timeouts of the acks of an AckRegistry, in either order.
use hwarr.Base.{
  ℕ, GoString, List, [], ◌∷◌, ◌++◌, append_assoc, true, ◌&&◌, Option, none, some, get_or,
  if◌then◌else◌, ◌==◌, str_eq, nat_eq, str_iff, nat_beq_iff, ◌≡◌, refl, arith, ◌∙◌,
}
use hwarr.GoMap.{GoMap, get, delete, len}
use hwarr.GoMap.Laws.{get-assign, get-delete}
use hwarr.Socketio.Ack.{
  AckRegistry, AckTimer, PendingAck, reply, timed_out, find_pending, drop_pending, lookup_in,
  resolve, run_timeout, expire, ack_args,
}

module _ {K : Type 0} where
  get-empty : (m : GoMap ℕ (PendingAck K)) (i : ℕ) → len m ≡ 0 → get m i ≡ none
  unfolding get
  get-empty [] i h = refl
  get-empty (x ∷ m) i h = absurd (ground (arith, h))

  lookup_in-get_or :
      (o : Option (GoMap ℕ (PendingAck K))) (i : ℕ) → lookup_in o i ≡ get (get_or o []) i
  unfolding get
  lookup_in-get_or none i = refl
  lookup_in-get_or (some m) i = refl

  find_pending-drop_pending :
      (r : AckRegistry K) (sid : GoString) (ack_id : ℕ) (s : GoString) (i : ℕ)
      → find_pending (drop_pending r sid ack_id) s i
        ≡ (if (sid == s) && (ack_id == i) then none else find_pending r s i)
  unfolding find_pending drop_pending
  find_pending-drop_pending r sid ack_id s i =
      let old = get_or (get r.pending sid) [] in
      ground (
        arith,
        str_iff sid s,
        lookup_in-get_or (get r.pending sid) i,
        get-delete r.pending sid s,
        get-delete old ack_id i,
        get-empty (delete old ack_id) i,
        get-assign r.pending sid s (delete old ack_id),
      )

  expire-missing : (r : AckRegistry K) (token : ℕ) → get r.armed token ≡ none → expire r token ≡ r
  unfolding expire
  expire-missing r token e = rw (e, expire) refl

  resolve-found :
      (parse : GoString → Option (List GoString)) (r : AckRegistry K) (sid : GoString) (ack_id : ℕ)
      (payload : Option GoString) (ack : PendingAck K)
      → find_pending r sid ack_id ≡ some ack
      → resolve parse r sid ack_id payload ≡ (
        record (drop_pending r sid ack_id) {
          armed = delete r.armed ack.token;
          calls = r.calls ++ (ack.callback, reply (ack_args parse payload)) ∷ [];
        },
        true,
      )
  unfolding resolve
  resolve-found parse r sid ack_id payload ack f = rw (f, resolve) refl

  run_timeout-calls :
      (r : AckRegistry K) (token : ℕ) (timer : AckTimer K)
      → get r.started token ≡ some timer
      → (run_timeout r token).calls ≡ r.calls ++ (timer.on_timeout, timed_out) ∷ []
  unfolding run_timeout
  run_timeout-calls r token timer t = rw (t, run_timeout) refl

  -- Resolving a pending ack answers true, takes exactly that ack out of the pending ones, calls
  -- its callback once with the reply, and stops its timer: the expiry of that timer then changes
  -- nothing.
  pub resolve_lem :
      (parse : GoString → Option (List GoString)) (r : AckRegistry K) (sid : GoString) (ack_id : ℕ)
      (payload : Option GoString) (ack : PendingAck K) (s : GoString) (i : ℕ)
      → find_pending r sid ack_id ≡ some ack
      → let after = resolve parse r sid ack_id payload in
        (after.1 ≡ true)
        × (find_pending after.0 s i
            ≡ (if (sid == s) && (ack_id == i) then none else find_pending r s i))
        × (after.0.calls ≡ r.calls ++ (ack.callback, reply (ack_args parse payload)) ∷ [])
        × (expire after.0 ack.token ≡ after.0)
  unfolding drop_pending delete find_pending
  resolve_lem parse r sid ack_id payload ack s i f =
      rw (resolve-found parse r sid ack_id payload ack f) (
        refl,
        find_pending-drop_pending r sid ack_id s i,
        refl,
        expire-missing _ ack.token (
            get-delete r.armed ack.token ack.token
            ∙ ground (arith, nat_beq_iff ack.token ack.token)),
      )

  -- Where the timer of a pending ack has started before the reply is resolved, the callback is
  -- called with the reply and the timer's callback is still called with the timeout, behind it.
  pub resolve_races_timeout :
      (parse : GoString → Option (List GoString)) (r : AckRegistry K) (sid : GoString) (ack_id : ℕ)
      (payload : Option GoString) (ack : PendingAck K) (timer : AckTimer K)
      → find_pending r sid ack_id ≡ some ack
      → get r.started ack.token ≡ some timer
      → (run_timeout (resolve parse r sid ack_id payload).0 ack.token).calls
        ≡ r.calls
          ++ (ack.callback, reply (ack_args parse payload)) ∷ (timer.on_timeout, timed_out) ∷ []
  unfolding drop_pending
  resolve_races_timeout parse r sid ack_id payload ack timer f t =
      rw (resolve-found parse r sid ack_id payload ack f) (
        run_timeout-calls _ ack.token timer t
        ∙ append_assoc r.calls ((ack.callback, reply (ack_args parse payload)) ∷ [])
            ((timer.on_timeout, timed_out) ∷ []))
