-- ===== src/Handler/Feedback/Quotes.antt =====
-- The block quote of server/internal/handler/feedback.go.
use hwarr.Base.{GoString, List, [], ◌∷◌, map, ◌≡◌, ◌≢◌, refl, arith, All}
use hwarr.Base.Split.{split, Lacks, split-join_parts, split-ne-nil, split-All-Lacks}
use hwarr.Handler.Feedback.{quote_line, quote_lines}

map-quote_line-Lacks :
    (lines : List GoString) → All (Lacks b'\n') lines → All (Lacks b'\n') (map quote_line lines)
map-quote_line-Lacks [] h = tt
map-quote_line-Lacks ([] ∷ lines) h = (ground arith, map-quote_line-Lacks lines h.1)
map-quote_line-Lacks ((c ∷ line) ∷ lines) h =
    ((λ e. ground (arith, e), (λ e. ground (arith, e), h.0)), map-quote_line-Lacks lines h.1)

map-ne-nil : (lines : List GoString) → lines ≢ [] → map quote_line lines ≢ []
map-ne-nil [] h = λ e. h refl
map-ne-nil (l ∷ lines) h = λ e. cc

-- The lines of a quoted message are the lines of the message, each behind its mark: no line of the
-- message is left out of the quote, and none is added.
pub split-quote_lines :
    (message : GoString) → split (quote_lines message) b'\n' ≡ map quote_line (split message b'\n')
unfolding quote_lines
split-quote_lines message =
    split-join_parts (map quote_line (split message b'\n')) b'\n'
      (map-ne-nil (split message b'\n') (split-ne-nil message b'\n'))
      (map-quote_line-Lacks (split message b'\n') (split-All-Lacks message b'\n'))
