-- ===== src/Engineio/Packet/Examples.antt =====
-- Packets on which the theorems about server/pkg/engineio/packet.go are applied.
use hwarr.Base.{List, [], ◌∷◌, codes, ok, ◌≡◌, refl, ◌++◌}
use hwarr.Engineio.Packet.{Packet, decode_payload, decode_packet}
use hwarr.Base.Split.{split}

-- A message and a noop.
abbrev batch : List Packet
batch = record { type = b'4'; payload = codes "hi" } ∷ record { type = b'6'; payload = [] } ∷ []

batch_text : decode_payload (codes "4hi" ++ (30 ∷ codes "6")) ≡ ok batch
unfolding decode_payload split decode_packet
batch_text = refl
