-- ===== src/Sio/ChatSend.antt =====
-- "chat:send" of server/internal/sio/chat_send.go. A payload is parsed by a parameter, none where it
-- is missing or does not parse. Redis is a parameter: a state `R` and an operation for each method
-- of RedisChatWriter, which answers whether it succeeded. The id of a message is drawn at random,
-- and the text of a message for Redis is given by a parameter.
pub mod Sent
mod Examples
use hwarr.Base.{
  ℕ, ◌-◌, GoString, codes, utf8, [], ◌∷◌, Bool, true, false, Option, none, some, Result, ok, err,
  length, ltb, get_or, if◌then◌else◌,
}
use hwarr.Base.Trim.{trim_space}
use hwarr.Socketio.Namespace.{World}
use hwarr.Socketio.Packet.Binary.{Node, float, text, obj, field, end}
use hwarr.Socketio.Server.{Config}
use hwarr.Socketio.Server.Broadcast.{broadcast_to_room}
use hwarr.Sio.Viewport.{chat_room, main_namespace}

abbrev pub chat_text_min : ℕ
chat_text_min = 1

abbrev pub chat_text_max : ℕ
chat_text_max = 300

abbrev pub chat_max_messages : ℕ
chat_max_messages = 100

abbrev pub chat_ttl_sec : ℕ
chat_ttl_sec = 3600

abbrev pub chat_redis_key : GoString
chat_redis_key = codes "chat:global:messages"

pub record ChatWriter (R : Type 0) : Type 0 where
  pub l_push : R → GoString → GoString → R × Bool
  pub l_trim : R → GoString → ℕ → ℕ → R × Bool
  pub expire : R → GoString → ℕ → R × Bool

pub record ChatSendData : Type 0 where
  pub content : Option GoString
  pub user_id : Option GoString
  pub nickname : Option GoString
  pub avatar : Option GoString
  pub avatar_bg : Option GoString
  pub name_color : Option GoString

pub data ChatError : Type 0 where
  invalid_payload : ChatError
  text_too_short : ChatError
  text_too_long : ChatError
  user_id_required : ChatError

-- An optional field that is missing or empty has its default.
abbrev pub non_empty : Option GoString → GoString → GoString
non_empty none default_value = default_value
non_empty (some []) default_value = default_value
non_empty (some (c ∷ s)) default_value = c ∷ s

-- The text and the user id of a message, checked in this order.
unfoldable pub check_message : ChatSendData → Result ChatError (GoString × GoString)
unfolding trim_space
check_message d =
    let content = trim_space (get_or d.content []) in
    let user = non_empty d.user_id [] in
    if ltb (length content) chat_text_min
    then err text_too_short
    else if ltb chat_text_max (length content)
    then err text_too_long
    else if ltb 0 (length user)
    then ok (content, user)
    else err user_id_required

module _ {F : Type 0} where
  unfoldable pub build_message : ChatSendData → GoString → F → GoString × GoString → Node F
  unfolding utf8
  build_message d id timestamp (content, user) = obj (
      field (codes "id") (text id) (
        field (codes "user_id") (text user) (
          field (codes "nickname") (text (non_empty d.nickname (utf8 "익명"))) (
            field (codes "avatar") (text (non_empty d.avatar (utf8 "👤"))) (
              field (codes "avatar_bg") (text (non_empty d.avatar_bg (codes "#333"))) (
                field (codes "name_color") (text (non_empty d.name_color (codes "#fff"))) (
                  field (codes "text") (text content)
                    (field (codes "timestamp") (float timestamp) end))))))))

module _ {R : Type 0} (ops : ChatWriter R) where
  -- Behind LPUSH; the errors of LTRIM and EXPIRE are only logged.
  abbrev pub pushed : R × Bool → R
  pushed (r, false) = r
  pushed (r, true) =
      (ops.expire (ops.l_trim r chat_redis_key 0 (chat_max_messages - 1)).0 chat_redis_key
        chat_ttl_sec).0

  unfoldable pub persist_chat_message : R → Option GoString → R
  persist_chat_message r none = r
  persist_chat_message r (some serialized) = pushed (ops.l_push r chat_redis_key serialized)

module _ {R A F : Type 0} (c : Config A F) (ops : ChatWriter R)
    (marshal : Node F → Option GoString) where
  abbrev pub sent_message :
      ChatSendData
      → GoString
      → F
      → R × World A
      → Result ChatError (GoString × GoString)
      → (R × World A) × Result ChatError GoString
  sent_message d id timestamp state (err e) = (state, err e)
  sent_message d id timestamp (r, w) (ok checked) =
      let message = build_message d id timestamp checked in
      (
        (
          persist_chat_message ops r (marshal message),
          (broadcast_to_room c main_namespace chat_room (codes "chat:message") (message ∷ []) w).0,
        ),
        ok id,
      )

  -- The answer is the id of the message, or an error.
  unfoldable pub chat_send :
      Option ChatSendData → GoString → F → R × World A → (R × World A) × Result ChatError GoString
  unfolding check_message build_message persist_chat_message broadcast_to_room
  chat_send none id timestamp state = (state, err invalid_payload)
  chat_send (some d) id timestamp state = sent_message d id timestamp state (check_message d)
