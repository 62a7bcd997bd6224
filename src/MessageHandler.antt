-- ===== src/MessageHandler.antt =====
-- src/communication/MessageHandler.h: a telecommand is parsed, decoded and given to the listener.
-- Nothing around `json::parse` catches its exception.
pub mod Faults
use camera_controller.Base.{ℕ, Option, none, some, ◌==◌, if◌then◌else◌}
use camera_controller.Outcome.{Outcome, ok, fault, uncaught_exception}
use camera_controller.Message.{Message, msgtype_telecommand}
use camera_controller.Commands.{Command, JsonLib, decode}

-- `listener.onCommandReceived`, on a state `A`.
module _ (lib : JsonLib) {A : Type 0} (listener : Command → A → Outcome A) where
  open lib use {Json, parse}

  unfoldable pub handle_json : Json → A → Outcome A
  handle_json j a = elim (decode lib j) [ some c ↦ listener c a | none ↦ ok a ]

  -- `handleMessage`; any other type is only logged.
  unfoldable pub handle_message : Message → A → Outcome A
  handle_message m a =
      if m.type == msgtype_telecommand
      then elim (parse m.bytes) [ some j ↦ handle_json j a | none ↦ fault uncaught_exception ]
      else ok a
