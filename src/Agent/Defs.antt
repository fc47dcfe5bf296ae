-- ===== src/Agent/Defs.antt =====
-- The errors of the agent process: the source's messages.
use keyvisor.Prelude.{ℕ, ◌*◌}
use keyvisor.Protocol.Defs.{ProtocolError}

pub data AgentError : Type 0 where
  -- of `RequestCancellation`
  client_disconnected : AgentError
  -- of `serve_connection` and `read_packet_length`
  invalid_packet_length truncated_packet_length truncated_packet : AgentError
  -- of the control service
  invalid_control_command not_utf8 unknown_control_command missing_identifier missing_length :
      AgentError
  invalid_length invalid_authorization_command truncated_authorization not_pending no_longer_active
        not_owner :
      AgentError
  -- of a signing request
  disconnected authorization_cancelled entry_timed_out entry_cancelled : AgentError
  unsupported_flags unknown_identity tpm_unavailable signing_failed store_failed : AgentError
  protocol : ProtocolError → AgentError

abbrev pub max_pin_bytes : ℕ
max_pin_bytes = 64

abbrev pub max_control_line_bytes : ℕ
max_control_line_bytes = 16 * 1024
