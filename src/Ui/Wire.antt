-- ===== src/Ui/Wire.antt =====
-- ui/socket.go: the JSON lines on a connection: marshalStateLine with the lines of
-- sendHelloAndState, and what handleClient decodes of the lines that its scanner gives it.
use avella.Common.{ℕ, suc, Bool, List, [], ◌∷◌, ◌++◌, Option, none, some}
use avella.Common.Text.{Text, str}
use avella.Ui.{State, Message, hello, state, Scanned}

-- `socketMessage`
pub record Envelope : Type 0 where
  pub kind : Text
  pub raw_data : Text
  pub command : Text

-- Package encoding/json on the types of the protocol; `none` is an error.
pub record Json : Type 0 where
  pub marshal_state : State → Option Text
  pub marshal : Envelope → Option Text
  pub unmarshal : Text → Option Envelope

-- `{"protocol_version":1}`
abbrev hello_data : Text
hello_data = b'{' ∷ (b'"' ∷ str "protocol_version") ++ b'"' ∷ str ":1}"

-- `append(line, '\n')`
abbrev pub ended : Option Text → Option Text
ended none = none
ended (some line) = some (line ++ 0x0A ∷ [])

abbrev pub state_envelope : Text → Envelope
state_envelope line = record { kind = str "state"; raw_data = line; command = [] }

abbrev pub hello_envelope : Envelope
hello_envelope = record { kind = str "hello"; raw_data = hello_data; command = [] }

module _ (j : Json) where
  unfoldable pub marshal_state_line : State → Option Text
  marshal_state_line st = elim (j.marshal_state st) [
    | none ↦ none
    | some line ↦ ended (j.marshal (state_envelope line))
  ]

  -- The line of a message.
  unfoldable pub message_line : Message → Option Text
  unfolding marshal_state_line
  message_line hello = ended (j.marshal hello_envelope)
  message_line (state st) = marshal_state_line st

  -- `json.Unmarshal` of a line into a message, of which only the command is read.
  abbrev pub read_command : Text → Option Text
  read_command line = elim (j.unmarshal line) [ none ↦ none | some e ↦ some e.command ]

  -- What the loop of handleClient takes from the lines. `done` and `writes` belong to its rounds.
  unfoldable pub scanned : (ℕ → Bool) → (ℕ → ℕ → Bool) → ℕ → List Text → List Scanned
  scanned done writes i [] = []
  scanned done writes i (line ∷ lines) =
      record { decoded = read_command line; done = done i; writes = writes i }
      ∷ scanned done writes (suc i) lines
