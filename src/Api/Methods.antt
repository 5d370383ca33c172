-- ===== src/Api/Methods.antt =====
-- internal/api/client.go: Register, Heartbeat, UploadMetrics, GetCommands and SubmitCommandResult.
-- How the records become JSON and back is the parameter `Codecs`.
pub mod Credentials
use castle_ops_client.Prelude.{
  String, Bool, Option, none, some, str_eq, if◌then◌else◌, Error, plain, Result, ok, err,
}
use castle_ops_client.Api.Models.{
  RegisterRequest, RegisterResponse, HeartbeatRequest, HeartbeatResponse, MetricsUploadRequest,
  MetricsUploadResponse, CommandsResponse, CommandResultRequest, CommandResultResponse,
}
use castle_ops_client.Api.Client.{Client, set_credentials}
use castle_ops_client.Api.Http.{Net, Decoder, do_request}
use Prim.Native.String.{◌++◌ as str_append}

pub record Codecs : Type 0 where
  pub encode_register : RegisterRequest → Result String
  pub encode_heartbeat : HeartbeatRequest → Result String
  pub encode_upload : MetricsUploadRequest → Result String
  pub encode_result : CommandResultRequest → Result String
  pub register_response : Decoder RegisterResponse
  pub heartbeat_response : Decoder HeartbeatResponse
  pub upload_response : Decoder MetricsUploadResponse
  pub commands_response : Decoder CommandsResponse
  pub result_response : Decoder CommandResultResponse

abbrev pub client_path : String → String → String
client_path id rest = str_append "/api/v1/clients/" (str_append id rest)

abbrev pub not_registered : Error
not_registered = plain "client not registered"

module _ (net : Net) (codecs : Codecs) where
  -- The requests below need a client id.
  unfoldable pub registered_request :
      {A : Type 0}
      → Client
      → String
      → String
      → Option (Result String)
      → Decoder A
      → net.World
      → Result A × net.World
  unfolding do_request
  registered_request c method rest body d w =
      if str_eq c.client_id ""
      then (err not_registered, w)
      else do_request net c method (client_path c.client_id rest) body d w

  abbrev pub after_register :
      Client → Result RegisterResponse × net.World → Result RegisterResponse × Client × net.World
  after_register c (ok resp, w) = (ok resp, set_credentials resp.client_id resp.token c, w)
  after_register c (err e, w) = (err e, c, w)

  unfoldable pub register :
      RegisterRequest → Client → net.World → Result RegisterResponse × Client × net.World
  unfolding do_request set_credentials
  register req c w = after_register c (
      do_request net c "POST" "/api/v1/clients/register" (some (codecs.encode_register req))
        codecs.register_response w)

  unfoldable pub heartbeat :
      HeartbeatRequest → Client → net.World → Result HeartbeatResponse × net.World
  unfolding registered_request
  heartbeat req c w =
      registered_request c "POST" "/heartbeat" (some (codecs.encode_heartbeat req))
        codecs.heartbeat_response w

  unfoldable pub upload_metrics :
      MetricsUploadRequest → Client → net.World → Result MetricsUploadResponse × net.World
  unfolding registered_request
  upload_metrics req c w =
      registered_request c "POST" "/metrics" (some (codecs.encode_upload req))
        codecs.upload_response w

  unfoldable pub get_commands : Client → net.World → Result CommandsResponse × net.World
  unfolding registered_request
  get_commands c w = registered_request c "GET" "/commands" none codecs.commands_response w

  unfoldable pub submit_command_result :
      String → CommandResultRequest → Client → net.World → Result CommandResultResponse × net.World
  unfolding registered_request
  submit_command_result cmd_id req c w =
      registered_request c "POST" (str_append "/commands/" (str_append cmd_id "/result"))
        (some (codecs.encode_result req)) codecs.result_response w
