-- ===== src/MessageHandler/Faults.antt =====
-- What a message can do to the program, with the handler of src/main.cpp as the listener.
use camera_controller.Base.{
  ◌≡◌, ◌≢◌, false, some, ◌⊎◌, inl, inr, none, ◌==◌, Bool-cases, Option-cases, ==_iff,
}
use camera_controller.Outcome.{Outcome, ok, fault, uncaught_exception}
use camera_controller.Message.{Message, msgtype_telecommand}
use camera_controller.Commands.{Command, JsonLib, decode}
use camera_controller.Commands.Typing.{decode_iff}
use camera_controller.CameraFunction.{Camera}
use camera_controller.Intervalometer.{IntervalometerStats}
use camera_controller.CommandHandler.{App, on_command_received}
use camera_controller.CommandHandler.Safety.{on_command_received-ok}
use camera_controller.MessageHandler.{handle_json, handle_message}

module _ (lib : JsonLib) {W : Type 0} (camera : Camera W) (junk : IntervalometerStats) where
  open lib use {Json, parse}

  abbrev pub listener : Command → App W → Outcome (App W)
  listener = on_command_received camera junk

  handle_json-ok : (j : Json) (a : App W) → (a' : App W) × (handle_json lib listener j a ≡ ok a')
  unfolding handle_json
  handle_json-ok j a = elim (Option-cases (decode lib j)) [
    | inl e ↦ (a, rw (e, handle_json))
    | inr (c, e) ↦
        let (a', r) = on_command_received-ok camera junk c a ((decode_iff lib j c).0 e).1 in
        (a', rw (e, handle_json) r)
  ]

  -- A message is a telecommand whose text is not JSON, and ends the program, by an exception that
  -- nothing catches; or it is no telecommand or its text is JSON, and whatever object the text holds
  -- it leaves the program running.
  pub handle_message-fault :
      (m : Message) (a : App W)
      → ((m.type ≡ msgtype_telecommand)
          × (parse m.bytes ≡ none)
          × (handle_message lib listener m a ≡ fault uncaught_exception))
        ⊎ (((m.type ≢ msgtype_telecommand) ⊎ ((j : Json) × (parse m.bytes ≡ some j)))
            × (a' : App W) × (handle_message lib listener m a ≡ ok a'))
  unfolding handle_message
  handle_message-fault m a = elim (Bool-cases (m.type == msgtype_telecommand)) [
    | inr t ↦ inr (inl (other t), a, rw t)
    | inl t ↦ elim (Option-cases (parse m.bytes)) [
      | inl e ↦ inl ((==_iff m.type msgtype_telecommand).0 t, e, rw (t, e, handle_message))
      | inr (j, e) ↦
          let (a', r) = handle_json-ok j a in inr (inr (j, e), a', rw (t, e, handle_message) r)
    ]
  ]
    where
      other : (m.type == msgtype_telecommand) ≡ false → m.type ≢ msgtype_telecommand
      other t e = let same = (==_iff m.type msgtype_telecommand).1 e in cc
