-- ===== src/Bridge/Examples.antt =====
-- A message over the bridge, on which the theorem about server/internal/server/server.go is applied.
use hwarr.Base.{ℕ, [], ◌∷◌, codes, true, none, some, ok, refl, ◌≡◌, str_beq}
use hwarr.Base.Decimal.{atoi, itoa}
use hwarr.GoMap.{get}
use hwarr.Socketio.Packet.Build.{event_name, event_args, new_ack_packet}
use hwarr.Socketio.Json.{JsonReader, check_json_depth, token, open_delim, close_delim, scalar, eof}
use hwarr.Socketio.Packet.{decode}
use hwarr.Engineio.Session.{Session, new_session}
use hwarr.Socketio.Namespace.{World, Handlers, handle_event}
use hwarr.Socketio.Packet.Binary.{Node}
use hwarr.Socketio.Server.{Config}
use hwarr.Engineio.Packet.{packet_message}
use hwarr.Bridge.{bridged, on_message}
use hwarr.Bridge.Answers.{IsAnswered, on_message-IsAnswered}

abbrev reader : JsonReader
reader = record {
  valid = λ s. true;
  tokens = λ s. token open_delim (token scalar (token close_delim eof));
}

abbrev App : Type 0
App = Unit {0}

-- A namespace whose event "m" is acknowledged with no values.
abbrev main_space : Handlers (World App) (Node ℕ)
main_space = record {
  path = codes "/";
  event_handlers = (codes "m", λ sid args w. (w, ok (some []))) ∷ [];
  connect_handler = none;
  disconnect_handler = none;
  middleware = [];
}

abbrev server : Config App ℕ
server = record {
  namespaces = (codes "/", main_space) ∷ [];
  json = record {
    marshal = λ t. some (codes "{}");
    unmarshal = λ s. none;
    unmarshal_array = λ s. some (codes "name" ∷ []);
    unmarshal_string = λ s. some (codes "m");
  };
  send_to = some (λ sid. true);
}

abbrev quiet : World App
quiet = record { spaces = []; sent = []; app = tt }

abbrev session : Session
session = bridged (λ n message. []) (new_session (codes "a") 10 5 0)

-- An event "m" with the id 7
event_is_acknowledged :
    (on_message server reader (codes "27[\"m\"]") (quiet, session)).1.send_buffer
    ≡ record { type = packet_message; payload = codes "37" } ∷ []
unfolding on_message decode atoi check_json_depth get str_beq event_name event_args handle_event
    new_ack_packet bridged new_session itoa
event_is_acknowledged = refl

on_message-IsAnswered_example :
    IsAnswered server session
      (on_message server reader (codes "27[\"m\"]") (quiet, session)).1
      (decode reader (codes "27[\"m\"]"))
unfolding bridged new_session
on_message-IsAnswered_example =
    on_message-IsAnswered server reader (codes "27[\"m\"]") quiet session refl
