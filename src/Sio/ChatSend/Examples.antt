-- ===== src/Sio/ChatSend/Examples.antt =====
-- A message, on which the theorems about server/internal/sio/chat_send.go are applied.
use hwarr.Base.{suc, GoString, codes, List, ◌∷◌, true, none, some, take, refl}
use hwarr.Sio.ChatSend.{ChatWriter, ChatSendData}
use hwarr.Sio.ChatSend.Sent.{ChatLaws}

-- The state is the list itself.
abbrev list_ops : ChatWriter (List GoString)
list_ops = record {
  l_push = λ r key value. (value ∷ r, true);
  l_trim = λ r key start stop. (take (suc stop) r, true);
  expire = λ r key seconds. (r, true);
}

list_laws : ChatLaws list_ops (λ r. r)
list_laws = record { pushes = λ r value. refl; trims = λ r stop. refl; keeps = λ r seconds. refl }

abbrev hello : ChatSendData
hello = record {
  content = some (codes " hello ");
  user_id = some (codes "u1");
  nickname = none;
  avatar = none;
  avatar_bg = none;
  name_color = none;
}
