-- ===== src/Client/Pump/Tests.antt =====
-- A client whose limiter lets two messages pass.
use chatter_stack.Base.{
  ℕ, ◌-◌, String, ◌≡◌, refl, true, none, some, List, [], ◌∷◌, eqb, ltb, arith, All, trim_space,
  is_space, if◌then◌else◌,
}
use chatter_stack.Exec.{ok, Exec}
use chatter_stack.Models.{Message}
use chatter_stack.Messages.{SendMessageInput, new_message}
use chatter_stack.Client.{Client, is_member, handle_send_message, handle_typing_event}
use chatter_stack.Client.Pump.{Decoder, Limiter, read_pump}
use chatter_stack.Client.Pump.Inside.{broadcasts_stay_inside}

abbrev send : SendMessageInput → Exec ℕ Message
send input w = (ok (new_message input), w)

abbrev ann : Client ℕ
ann = record {
  c = 1;
  user_id = "u1";
  username = "ann";
  rooms = "r1" ∷ [];
  sender = some send;
  encode_message = λ m. ok m.content;
  encode_typing = λ event notice. ok event;
}

-- A text is the content of a message to the room "r1", and "typing" is an event without data.
abbrev decoder : Decoder
decoder = record {
  envelope = λ s. if eqb s "typing" then some ("typing_start", "") else some ("send_message", s);
  send_message = λ s. some (record { room_id = "r1"; content = s; attachments = [] });
  typing = λ s. none;
}

abbrev two : Limiter ℕ ℕ
two left w = (ltb 0 left, left - 1)

abbrev said : List String
said = "hi" ∷ "typing" ∷ "again" ∷ []

pump_code : Unit {0}
unfolding read_pump is_member handle_send_message handle_typing_event trim_space is_space
pump_code = tt

third_dropped :
    read_pump decoder two ann said 2 0
    ≡ record { room_id = "r1"; payload = "hi"; exclude = none }
      ∷ record { room_id = "r1"; payload = "typing_start"; exclude = some 1 }
      ∷ []
unfolding pump_code
third_dropped = refl

broadcasts_stay_inside_example :
    All (λ b. is_member ("r1" ∷ []) b.room_id ≡ true) (read_pump decoder two ann said 2 0)
broadcasts_stay_inside_example =
    broadcasts_stay_inside decoder two ann send refl (λ input m w w' h. ground arith) said 2 0
