-- ===== src/Socketio/Packet/Build/Receive.antt =====
-- A packet with binary data on the wire: its text frame, then one frame for each buffer, and the
-- receiver that collects them.
use hwarr.Base.{
  ◌≤◌, ◌^◌, ◌≡◌, refl, GoString, List, [], ◌∷◌, ◌++◌, append_assoc, append-nil, true, false, some,
  Result, ok, ◌>>=◌, length, arith, ap, sym, ◌∙◌, leb, inl, inr, Option-cases,
}
use hwarr.Base.Decimal.{ℤ}
use hwarr.Socketio.Json.{JsonReader}
use hwarr.Socketio.Packet.{Packet, PacketError, is_binary, encode, decode, packet_binary_event}
use hwarr.Socketio.Packet.RoundTrip.{IsSendable, decode-encode}
use hwarr.Socketio.Packet.Binary
use hwarr.Socketio.Packet.Binary.{
  Node, arr, text, Items, cons, Floats, deconstruct_node, deconstruct_items, contains_binary,
  has_binary_value,
}
use hwarr.Socketio.Packet.Binary.Widen.{widen, has_placeholder}
use hwarr.Socketio.Packet.Binary.RoundTrip.{IsExact, reconstruct_node-deconstruct_node}
use hwarr.Socketio.Packet.Binary.Detection.{deconstruct_node-plain}
use hwarr.Socketio.Packet.Build.{
  JsonTree, items_of, add_attachment, is_complete, encode_binary, new_binary_event_packet,
  deconstruct_binary, reconstructed_data,
}

-- The frames are added one by one.
pub collect : Packet → List GoString → Packet
collect p [] = p
collect p (b ∷ bs) = collect (add_attachment p b).0 bs

pub receive : JsonReader → GoString → List GoString → Result PacketError Packet
unfolding collect
receive reader frame buffers = do p ← decode reader frame; ok (collect p buffers)

collect_lem :
    (bs : List GoString) (p : Packet)
    → is_binary p.type ≡ true
    → collect p bs ≡ record p { binary_payloads = p.binary_payloads ++ bs }
unfolding collect
collect_lem [] p h = ap (λ l. record p { binary_payloads = l }) (sym (append-nil p.binary_payloads))
collect_lem (b ∷ bs) p h =
    let next : (add_attachment p b).0 ≡ record p { binary_payloads = p.binary_payloads ++ b ∷ [] } =
      unfold add_attachment in rw h in
    ap (λ q. collect q bs) next
    ∙ collect_lem bs (record p { binary_payloads = p.binary_payloads ++ b ∷ [] }) h
    ∙ ap (λ l. record p { binary_payloads = l }) (append_assoc p.binary_payloads (b ∷ []) bs)

-- AddAttachment on a binary packet that has no buffer yet says that it is complete exactly when
-- IsComplete does, and that is when as many buffers as announced have been added.
pub collect-is_complete :
    (p : Packet) (bs : List GoString) (b : GoString)
    → is_binary p.type ≡ true
    → p.binary_payloads ≡ []
    → ((add_attachment (collect p bs) b).1 ≡ is_complete (collect p (bs ++ b ∷ [])))
      × (is_complete (collect p bs) ≡ leb p.attachments (length bs))
      × ((collect p bs).binary_payloads ≡ bs)
unfolding add_attachment is_complete
collect-is_complete p bs b h e =
    rw (collect_lem bs p h, collect_lem (bs ++ b ∷ []) p h, e, h) (refl, refl, refl)

-- The receiver of a binary packet's frames, which decodes the text frame and adds the binary
-- frames, holds the packet that was sent, buffers included, where the packet without its buffers
-- is sendable.
pub receive-encode_binary :
    (reader : JsonReader) (p : Packet)
    → IsSendable reader (record p { binary_payloads = [] })
    → is_binary p.type ≡ true
    → receive reader (encode_binary p).text_frame (encode_binary p).binary_frames ≡ ok p
unfolding receive encode_binary
receive-encode_binary reader p h binary =
    let empty = record p { binary_payloads = [] } in
    let same : encode p ≡ encode empty = unfold encode in refl in
    rw (same, decode-encode reader empty h, binary)
      (ap ok (collect_lem p.binary_payloads empty binary))

module _ {F : Type 0} (floats : Floats F) (json : JsonTree F) where
  -- What encoding/json writes for a tree it reads back as that tree, its ints as float64s.
  abbrev pub ReadsBack : Node F → Type 0
  ReadsBack t = (s : GoString) → json.marshal t ≡ some s → json.unmarshal s ≡ some (widen floats t)

  abbrev pub event_items : GoString → List (Node F) → Items F
  event_items event args = cons (text event) (items_of args)

  new_binary_event_packet_fields :
      (namespace event : GoString) (id : ℤ) (args : List (Node F)) {p : Packet}
      → contains_binary args ≡ true
      → new_binary_event_packet json namespace event id args ≡ ok p
      → (s : GoString) × (json.marshal (arr (deconstruct_items (event_items event args) []).0)
          ≡ some s)
        × (p.payload ≡ some s)
        × (p.type ≡ packet_binary_event)
        × (p.binary_payloads ≡ (deconstruct_items (event_items event args) []).1)
        × (p.attachments ≡ length p.binary_payloads)
  unfolding new_binary_event_packet
  new_binary_event_packet_fields namespace event id args {p} has built =
      elim (Option-cases (json.marshal (arr (deconstruct_items (event_items event args) []).0))) [
        | inl failed ↦ absurd (ground arith)
        | inr (s, wrote) ↦ (s, wrote, ground arith, ground arith, ground arith, ground arith)
      ]

  reconstructed_data_binary :
      (p : Packet) (s : GoString) (tree : Node F)
      → is_binary p.type ≡ true
      → leb p.attachments (length p.binary_payloads) ≡ true
      → p.payload ≡ some s
      → json.unmarshal s ≡ some tree
      → reconstructed_data floats json p
        ≡ ok (some (Binary.reconstruct_node floats tree p.binary_payloads))
  unfolding reconstructed_data
  reconstructed_data_binary p s tree b c e u = rw (e, u, b, c)

  -- The data of a packet built with binary arguments is the event's name and its arguments again,
  -- binary values in place, each int read back as a float64, where encoding/json reads back the
  -- tree that it wrote, no argument looks like a placeholder, and at most 2^53 binary values are
  -- sent.
  pub reconstructed_data-new_binary_event_packet :
      (namespace event : GoString) (id : ℤ) (args : List (Node F)) {p : Packet}
      → contains_binary args ≡ true
      → new_binary_event_packet json namespace event id args ≡ ok p
      → ReadsBack (deconstruct_node (arr (event_items event args)) []).0
      → IsExact floats
      → length p.binary_payloads ≤ 2 ^ 53
      → has_placeholder floats (widen floats (arr (event_items event args))) ≡ false
      → reconstructed_data floats json p ≡ ok (some (widen floats (arr (event_items event args))))
  unfolding deconstruct_node
  reconstructed_data-new_binary_event_packet namespace event id args {p} has built reads exact few
        plain =
      let (s, wrote, payload, type, buffers, count) =
        new_binary_event_packet_fields namespace event id args {p = p} has built in
      let binary : is_binary p.type ≡ true = rw type in
      let complete : leb p.attachments (length p.binary_payloads) ≡ true =
        rw count (ground arith) in
      let tree = (deconstruct_node (arr (event_items event args)) []).0 in
      reconstructed_data_binary p s (widen floats tree) binary complete payload (reads s wrote)
      ∙ ap (λ bs. ok (some (Binary.reconstruct_node floats (widen floats tree) bs))) buffers
      ∙ ap (λ t. ok (some t))
          (reconstruct_node-deconstruct_node floats (arr (event_items event args)) exact
            (omega (arith, ap length buffers, few)) plain)

  -- DeconstructBinary returns the packet as it was, whatever its type, if the data parses to a
  -- tree without a byte slice; encoding/json puts no byte slice into the trees it reads.
  pub deconstruct_binary_unchanged :
      (p : Packet) (s : GoString) (tree : Node F)
      → p.payload ≡ some s
      → json.unmarshal s ≡ some tree
      → has_binary_value tree ≡ false
      → deconstruct_binary json p ≡ ok p
  unfolding deconstruct_binary
  deconstruct_binary_unchanged p s tree e u plain = rw (e, u, deconstruct_node-plain tree [] plain)
