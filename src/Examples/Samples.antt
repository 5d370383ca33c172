-- ===== src/Examples/Samples.antt =====
-- A small network, codecs and records for the examples.
use castle_ops_client.Prelude.{ℕ, zero, suc, String, true, false, none, [], plain, Result, ok, err}
use castle_ops_client.Prelude.Int.{pos}
use castle_ops_client.Cache.Types
use castle_ops_client.Cache.Types.{Time, Metrics}
use castle_ops_client.Api.Models.{null, Command}
use castle_ops_client.Api.Client.{Client}
use castle_ops_client.Api.Http.{Net, Decoder, Response}
use castle_ops_client.Api.Methods.{Codecs}
use castle_ops_client.Api.Commands.{Texts}

abbrev pub sample_command : String → Time → String → Types.Command
sample_command id created status = record {
  id = 0;
  command_id = id;
  type = "install_package";
  payload = "null";
  status = status;
  result = "";
  created_at = created;
  completed_at = 0;
}

abbrev pub sample_metrics : Time → Metrics
sample_metrics at = record {
  id = 0;
  timestamp = at;
  client_id = "c";
  cpu_usage_percent = 0;
  memory_total = 8;
  memory_used = 2;
  memory_available = 6;
  memory_usage_percent = 0;
  disk_total_bytes = 9;
  disk_used_bytes = 4;
  disk_free_bytes = 5;
  disk_usage_percent = 0;
  network_bytes_received = 1;
  network_bytes_sent = 1;
  synced = false;
}

-- The server cannot be reached for the first `n` requests, and then answers "ok".
abbrev flaky : ℕ → Result Response × ℕ
flaky zero = (ok (record { status_code = 200; body = ok "ok" }), zero)
flaky (suc n) = (err (plain "connection refused"), n)

abbrev pub flaky_net : Net
flaky_net = record {
  World = ℕ;
  new_request = λ method url. none;
  send = λ request n. flaky n;
  wait = λ attempt n. (none, n);
  decode_error = λ body. err (plain "no error object");
}

-- No server can be reached.
abbrev pub dead_net : Net
dead_net = record {
  World = Unit {0};
  new_request = λ method url. none;
  send = λ request w. (err (plain "connection refused"), w);
  wait = λ attempt w. (none, w);
  decode_error = λ body. err (plain "no error object");
}

abbrev constant : {A : Type 0} → A → Decoder A
constant a = record { zero = a; decode = λ body. ok a }

abbrev pub text_decoder : Decoder String
text_decoder = record { zero = ""; decode = λ body. ok body }

abbrev pub codecs : Codecs
codecs = record {
  encode_register = λ r. ok "{}";
  encode_heartbeat = λ r. ok "{}";
  encode_upload = λ r. ok "{}";
  encode_result = λ r. ok "{}";
  register_response = constant (record {
    client_id = "c1";
    token = "t1";
    heartbeat_interval = pos 0;
    metrics_interval = pos 0;
  });
  heartbeat_response =
      constant (record { acknowledged = true; config_update = none; commands = [] });
  upload_response = constant (record { received = pos 0; acknowledged = true });
  commands_response = constant (record { commands = []; count = pos 0 });
  result_response = constant (record { acknowledged = true });
}

abbrev pub sample_client : Client
sample_client = record {
  base_url = "https://api.castleops.com";
  token = "t";
  client_id = "c";
  retry_config = record {
    max_retries = pos 3;
    initial_backoff = pos 100_000_000;
    max_backoff = pos 30_000_000_000;
    backoff_multiplier = 0x4000_0000_0000_0000;
    retryable_status_codes = λ code. false;
  };
}

abbrev pub texts : Texts
texts = record { marshal = λ v. ok "null"; unmarshal = λ s. ok null; message = λ e. "failed" }

abbrev pub sample_api_command : Command
sample_api_command = record {
  command_id = "a";
  type = "install_package";
  payload = null;
  priority = pos 1;
  timeout = pos 30;
}
