-- ===== src/Cli/Defs.antt =====
-- The errors and the constants of the command line. A constructor stands for a message.
use keyvisor.History.Defs.{HistoryError}
use keyvisor.Config.Defs.{ConfigError}
use keyvisor.Store.Defs.{StoreError}
use keyvisor.Tpm.Defs.{TpmError}
use keyvisor.Wire.Endian.{Bytes}
use keyvisor.Prelude.{ℕ, ◌*◌}

abbrev pub max_pin_bytes : ℕ
max_pin_bytes = 64

abbrev pub max_control_line_bytes : ℕ
max_control_line_bytes = 16 * 1024

abbrev pub max_pinentry_line_bytes : ℕ
max_pinentry_line_bytes = 16 * 1024

abbrev pub max_pending_authorizations : ℕ
max_pending_authorizations = 16

pub data CliError : Type 0 where
  invalid_hexadecimal odd_key_name key_name_not_utf8 : CliError
  invalid_escaped_data oversized_value : CliError
  response_too_large invalid_response entry_cancelled unexpected_data invalid_greeting : CliError
  pin_length pin_mismatch : CliError
  exclusive_options invalid_format invalid_arguments invalid_algorithm invalid_authorization :
      CliError
  name_required name_length authorization_required pin_options_without_pin not_utf8 : CliError
  control_failed response_not_utf8 invalid_control_response invalid_agent_response : CliError
  invalid_count too_many_requests invalid_request not_pending : CliError
  -- the text behind `ERR `
  agent_refused : Bytes → CliError
  unknown_command invalid_key_command invalid_config_command usage : CliError
  tty_failed cancelled dialog_failed : CliError
  home_not_set runtime_not_set : CliError
  key_not_found unknown_setting : CliError
  not_running not_a_socket socket_not_private cannot_connect : CliError
  other_request_pending multiple_requests cannot_start cannot_wait : CliError
  tpm_failed : TpmError → CliError
  store_failed : StoreError → CliError
  config_failed : ConfigError → CliError
  history_failed : HistoryError → CliError
