-- ===== src/Sio/ChatSend/Sent.antt =====
-- What "chat:send" of server/internal/sio/chat_send.go answers, keeps and sends.
use hwarr.Base.{
  ℕ, suc, ◌≤◌, GoString, codes, List, [], ◌∷◌, Bool, true, false, Option, some, ok, length, take,
  get_or, if◌then◌else◌, ◌≡◌, ◌↔◌, ◌⊎◌, refl, ap, ◌∙◌, arith, Result-cases, inl, inr,
}
use hwarr.Base.Trim.{trim_space}
use hwarr.Socketio.Namespace.{World}
use hwarr.Socketio.Packet.Binary.{Node}
use hwarr.Socketio.Server.{Config}
use hwarr.Socketio.Server.Broadcast.{broadcast_to_room}
use hwarr.Sio.Viewport.{chat_room, main_namespace}
use hwarr.Sio.Chat.Membership.{spaces-broadcast_to_room_except}
use hwarr.Sio.ChatSend.{
  ChatWriter, ChatSendData, check_message, chat_send, persist_chat_message, pushed, non_empty,
  chat_redis_key,
}

-- A message may be sent.
abbrev pub IsSendable : ChatSendData → Type 0
IsSendable d =
    (1 ≤ length (trim_space (get_or d.content [])))
    × (length (trim_space (get_or d.content [])) ≤ 300)
    × (1 ≤ length (non_empty d.user_id []))

check_message-IsSendable :
    (d : ChatSendData) {checked : GoString × GoString} → check_message d ≡ ok checked → IsSendable d
unfolding check_message
check_message-IsSendable d h = ground (arith, h)

IsSendable-check_message :
    (d : ChatSendData)
    → IsSendable d
    → check_message d ≡ ok (trim_space (get_or d.content []), non_empty d.user_id [])
unfolding check_message
IsSendable-check_message d h = ground (arith, h)

-- LPUSH, LTRIM and EXPIRE of a list, as they are documented: `entries` are the values under the
-- chat's key, and a call that fails changes nothing.
pub record ChatLaws {R : Type 0} (ops : ChatWriter R) (entries : R → List GoString) : Type 0 where
  pub pushes :
      (r : R) (value : GoString)
      → entries (ops.l_push r chat_redis_key value).0
        ≡ (if (ops.l_push r chat_redis_key value).1 then value ∷ entries r else entries r)
  pub trims :
      (r : R) (stop : ℕ)
      → entries (ops.l_trim r chat_redis_key 0 stop).0 ≡ (
          if (ops.l_trim r chat_redis_key 0 stop).1 then take (suc stop) (entries r) else entries r)
  pub keeps : (r : R) (seconds : ℕ) → entries (ops.expire r chat_redis_key seconds).0 ≡ entries r

module _ {R A F : Type 0} (c : Config A F) (ops : ChatWriter R)
    (marshal : Node F → Option GoString) where
  -- "chat:send" answers with the message's id exactly if the text has 1 to 300 bytes without the
  -- white space around it and a user id is given; where it does not, neither Redis nor the sockets
  -- are touched, and in no case do sockets or rooms change.
  pub chat_send_lem :
      (d : ChatSendData) (id : GoString) (timestamp : F) (r : R) (w : World A)
      → let after = chat_send c ops marshal (some d) id timestamp (r, w) in
        ((after.1 ≡ ok id) ↔ IsSendable d)
        × ((after.1 ≡ ok id) ⊎ (after.0 ≡ (r, w)))
        × (after.0.1.spaces ≡ w.spaces)
  unfolding chat_send broadcast_to_room
  chat_send_lem d id timestamp r w = elim (Result-cases (check_message d)) [
    | inl (checked, e) ↦ rw e (
      (λ h. check_message-IsSendable d {checked = checked} e, λ h. refl),
      inl refl,
      spaces-broadcast_to_room_except c main_namespace chat_room [] (codes "chat:message") _ w,
    )
    | inr (x, e) ↦ rw e (
      (
        λ h. absurd (ground (arith, h)),
        λ h. absurd (ground (arith, e, IsSendable-check_message d h)),
      ),
      inr refl,
      refl,
    )
  ]

module _ {R : Type 0} (ops : ChatWriter R) (entries : R → List GoString)
    (laws : ChatLaws ops entries) where
  pushed-entries :
      (p : R × Bool) (first old : List GoString)
      → entries p.0 ≡ (if p.1 then first else old)
      → entries (pushed ops p) ≡ (
          if p.1
          then (if (ops.l_trim p.0 chat_redis_key 0 99).1 then take 100 first else first)
          else old)
  pushed-entries (r, false) first old e = e
  pushed-entries (r, true) first old e =
      laws.keeps (ops.l_trim r chat_redis_key 0 99).0 3600
      ∙ laws.trims r 99
      ∙ ap (λ l. if (ops.l_trim r chat_redis_key 0 99).1 then take 100 l else l) e

  -- A message that is kept is put in front of those that are there; they are cut to 100 where the
  -- cut succeeds, and where the message cannot be put there nothing changes.
  pub persist_chat_message-entries :
      (r : R) (message : GoString)
      → let first = ops.l_push r chat_redis_key message in
        entries (persist_chat_message ops r (some message)) ≡ (
          if first.1
          then (if (ops.l_trim first.0 chat_redis_key 0 99).1
              then take 100 (message ∷ entries r)
              else message ∷ entries r)
          else entries r)
  unfolding persist_chat_message
  persist_chat_message-entries r message =
      pushed-entries (ops.l_push r chat_redis_key message) (message ∷ entries r) (entries r)
        (laws.pushes r message)
