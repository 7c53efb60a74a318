-- ===== src/Sio/FireBatcher/Coalescing.antt =====
-- What a batch holds, and what a flush sends, after any sequence of updates.
use hwarr.Base.{
  GoString, List, [], ◌∷◌, ◌++◌, Bool, append_assoc, append-nil, codes, Option, none, some, Result,
  ok, err, if◌then◌else◌, ◌==◌, str_eq, ◌≡◌, refl, Result-cases, inl, inr, ap, sym, ◌∙◌,
}
use hwarr.GoMap.{GoMap, get, Distinct}
use hwarr.GoMap.Laws.{get-assign}
use hwarr.GoMap.Size.{assign-Distinct}
use hwarr.Socketio.Namespace.{World, Handlers, sockets}
use hwarr.Socketio.Packet.Binary.{Node}
use hwarr.Socketio.Server.{Config, Failure}
use hwarr.Socketio.Server.Broadcast.{
  broadcast_to_namespace, broadcast_to_namespace_lem, prepare, deliveries, recipients,
}
use hwarr.Sio.FireBatcher.{
  FireUpdate, FireBatcher, new_fire_batcher, enqueue, update_payload, send_batch, flush,
}

module _ {F : Type 0} where
  unfoldable pub enqueue_each : FireBatcher F → List (FireUpdate F) → FireBatcher F
  unfolding enqueue
  enqueue_each b [] = b
  enqueue_each b (u ∷ us) = enqueue_each (enqueue b u) us

  -- The last update of a grid in a list, or what was there before.
  abbrev pub last_update :
      Option (FireUpdate F) → GoString → List (FireUpdate F) → Option (FireUpdate F)
  last_update before grid [] = before
  last_update before grid (u ∷ us) =
      last_update (if u.grid_id == grid then some u else before) grid us

  get-enqueue_each :
      (us : List (FireUpdate F)) (b : FireBatcher F) (grid : GoString)
      → get (enqueue_each b us).pending grid ≡ last_update (get b.pending grid) grid us
  unfolding enqueue_each enqueue
  get-enqueue_each [] b grid = refl
  get-enqueue_each (u ∷ us) b grid =
      get-enqueue_each us (enqueue b u) grid
      ∙ ap (λ o. last_update o grid us) (get-assign b.pending u.grid_id grid u)

  enqueue_each-Distinct :
      (us : List (FireUpdate F)) (b : FireBatcher F)
      → Distinct b.pending
      → Distinct (enqueue_each b us).pending
  unfolding enqueue_each enqueue
  enqueue_each-Distinct [] b d = d
  enqueue_each-Distinct (u ∷ us) b d =
      enqueue_each-Distinct us (enqueue b u) (assign-Distinct b.pending u.grid_id u d)

  -- After any sequence of updates a new batcher holds, for each grid, the last of its updates,
  -- and each grid once.
  pub enqueue_each-coalesces :
      (us : List (FireUpdate F)) (grid : GoString)
      → (get (enqueue_each new_fire_batcher us).pending grid ≡ last_update none grid us)
        × Distinct (enqueue_each new_fire_batcher us).pending
  unfolding new_fire_batcher get
  enqueue_each-coalesces us grid =
      (get-enqueue_each us new_fire_batcher grid, enqueue_each-Distinct us new_fire_batcher tt)

module _ {A F : Type 0} (c : Config A F) where
  -- The frames of a prepared broadcast: none where one of its checks fails.
  abbrev pub frames_in :
      World A
      → Result Failure ((GoString → Bool) × Handlers (World A) (Node F) × GoString)
      → List (GoString × GoString)
  frames_in w (err f) = []
  frames_in w (ok (reach, ns, frame)) = deliveries frame (recipients reach none (sockets w ns.path))

  abbrev pub frames_of : World A → FireUpdate F → List (GoString × GoString)
  frames_of w u = frames_in w (prepare c (codes "/") (codes "fire:update") (update_payload u ∷ []))

  abbrev pub frames_of_batch : World A → GoMap GoString (FireUpdate F) → List (GoString × GoString)
  frames_of_batch w [] = []
  frames_of_batch w ((grid, u) ∷ batch) = frames_of w u ++ frames_of_batch w batch

  send_one :
      (u : FireUpdate F) (w : World A)
      → (broadcast_to_namespace c (codes "/") (codes "fire:update") (update_payload u ∷ []) w).0
        ≡ record w { sent = w.sent ++ frames_of w u }
  send_one u w =
      ap (λ x. x.0)
        (broadcast_to_namespace_lem c (codes "/") (codes "fire:update") (update_payload u ∷ []) w)
      ∙ elim (Result-cases (prepare c (codes "/") (codes "fire:update") (update_payload u ∷ []))) [
        | inr (f, e) ↦ rw e (ap (λ l. record w { sent = l }) (sym (append-nil w.sent)))
        | inl ((reach, ns, frame), e) ↦ rw e refl
      ]

  frames_of_batch-sent :
      (batch : GoMap GoString (FireUpdate F)) (w : World A) (l : List (GoString × GoString))
      → frames_of_batch (record w { sent = l }) batch ≡ frames_of_batch w batch
  unfolding sockets
  frames_of_batch-sent [] w l = refl
  frames_of_batch-sent ((grid, u) ∷ batch) w l =
      ap (λ x. frames_of w u ++ x) (frames_of_batch-sent batch w l)

  send_batch_lem :
      (batch : GoMap GoString (FireUpdate F)) (w : World A)
      → send_batch c batch w ≡ record w { sent = w.sent ++ frames_of_batch w batch }
  unfolding send_batch
  send_batch_lem [] w = ap (λ l. record w { sent = l }) (sym (append-nil w.sent))
  send_batch_lem ((grid, u) ∷ batch) w =
      ap (send_batch c batch) (send_one u w)
      ∙ send_batch_lem batch (record w { sent = w.sent ++ frames_of w u })
      ∙ ap (λ l. record w { sent = (w.sent ++ frames_of w u) ++ l })
          (frames_of_batch-sent batch w (w.sent ++ frames_of w u))
      ∙ ap (λ l. record w { sent = l })
          (append_assoc w.sent (frames_of w u) (frames_of_batch w batch))

  -- A flush empties the batch, and changes of the world only the frames sent: behind the earlier
  -- ones, for each update of the batch in order, a frame to each reachable socket of the
  -- namespace "/".
  pub flush_lem :
      (b : FireBatcher F) (w : World A)
      → ((flush c b w).0.pending ≡ [])
        × ((flush c b w).1 ≡ record w { sent = w.sent ++ frames_of_batch w b.pending })
  unfolding flush
  flush_lem b w = (refl, send_batch_lem b.pending w)
