-- ===== src/Socketio/Middleware.antt =====
-- server/pkg/socketio/middleware.go. A handler or a middleware acts on a state `W` and returns the
-- values of an acknowledgement (`none` for a nil slice) or an error's text. `next` is such an
-- action. The chain's own list is fixed while events are served.
use hwarr.Base.{GoString, List, [], ◌∷◌, ◌++◌, Option, none, some, Result, ok, ◌≡◌, refl, ap, ◌∙◌}
use mathlib.Core.List.{reverse, reverse-append}

module _ (W V : Type 0) where
  abbrev pub Action : Type 0
  Action = W → W × Result GoString (Option (List V))

  abbrev pub MiddlewareFunc : Type 0
  MiddlewareFunc = GoString → GoString → List GoString → Action → Action

module _ {W V : Type 0} where
  -- Use and MiddlewareChain.Add
  unfoldable pub add : List (MiddlewareFunc W V) → MiddlewareFunc W V → List (MiddlewareFunc W V)
  add middlewares mw = middlewares ++ mw ∷ []

  -- The loop of Execute: `next` is wrapped by one middleware after another.
  unfoldable pub wrap_each :
      GoString → GoString → List GoString → List (MiddlewareFunc W V) → Action W V → Action W V
  wrap_each sid event args [] next = next
  wrap_each sid event args (mw ∷ rest) next = wrap_each sid event args rest (mw sid event args next)

  -- A nil handler is the action that does nothing.
  abbrev pub or_noop : Option (Action W V) → Action W V
  or_noop none = λ w. (w, ok none)
  or_noop (some handler) = handler

  -- From the last middleware to the first, around the handler.
  unfoldable pub execute :
      List (MiddlewareFunc W V)
      → GoString
      → GoString
      → List GoString
      → Option (Action W V)
      → Action W V
  unfolding wrap_each
  execute middlewares sid event args handler =
      wrap_each sid event args (reverse middlewares) (or_noop handler)

  wrap_each-append :
      (sid event : GoString) (args : List GoString) (ms ns : List (MiddlewareFunc W V))
      (next : Action W V)
      → wrap_each sid event args (ms ++ ns) next
        ≡ wrap_each sid event args ns (wrap_each sid event args ms next)
  unfolding wrap_each
  wrap_each-append sid event args [] ns next = refl
  wrap_each-append sid event args (m ∷ ms) ns next =
      wrap_each-append sid event args ms ns (m sid event args next)

  -- Execute runs the first middleware outermost: a chain is its first middleware around the
  -- execution of the others, an empty chain is the handler, and a nil handler does nothing.
  pub execute-cons :
      (mw : MiddlewareFunc W V) (mws : List (MiddlewareFunc W V)) (sid event : GoString)
      (args : List GoString) (handler : Option (Action W V))
      → (execute (mw ∷ mws) sid event args handler
          ≡ mw sid event args (execute mws sid event args handler))
        × (execute [] sid event args handler ≡ or_noop handler)
  unfolding execute wrap_each
  execute-cons mw mws sid event args handler = (
    ap (λ ms. wrap_each sid event args ms (or_noop handler)) (reverse-append (mw ∷ []) mws)
        ∙ wrap_each-append sid event args (reverse mws) (mw ∷ []) (or_noop handler),
    refl,
  )

  -- A middleware that is added runs innermost: it gets the handler as its next, and what the
  -- chain did before is done around it.
  pub execute-add :
      (mws : List (MiddlewareFunc W V)) (mw : MiddlewareFunc W V) (sid event : GoString)
      (args : List GoString) (handler : Option (Action W V))
      → execute (add mws mw) sid event args handler
        ≡ execute mws sid event args (some (mw sid event args (or_noop handler)))
  unfolding execute add wrap_each
  execute-add mws mw sid event args handler =
      ap (λ ms. wrap_each sid event args ms (or_noop handler)) (reverse-append mws (mw ∷ []))
