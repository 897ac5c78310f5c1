-- ===== src/Tests/Clients.antt =====
-- Clients of the SDK.
use long_gw.Tests.Data.{tiny}
use long_gw.Base.{
  ◌≡◌, inl, inr, refl, [], ◌∷◌, true, none, some, Str, arith, if◌then◌else◌, ◌++◌, str_eq, lit,
}
use long_gw.Sdk.Signals.{
  ClientSignal, AuthResponse, BusinessMessage, ps_auth_response, auth_answer, AuthRequest,
  encode_auth_request, im,
}
use long_gw.Sdk.Client.{
  Client, ConnState, connected, disconnected, returned, blocked, client_of, close_client,
  tcp_connect, ws_connect, new_client, is_connected,
}
use long_gw.Sdk.Client.Sessions.{refusal, connects-total, Coherent}
use long_gw.Sdk.Client.Calls.{
  auth_asks, auth_finishes, connects_ws, closes, client_run, read_all, timed_out,
}
use long_gw.Sdk.Client.Runs.{client_run-new-Coherent}
use long_gw.Base.Dict.{lookup}
use long_gw.Sdk.Client.Reading.{any_ends}
use long_gw.Sdk.Client.Answers.{in_time, auth-answered}

abbrev in_state : ConnState → Client
in_state s = record (new_client) { state = s }

abbrev news : BusinessMessage
news = record { msg_id = lit "m1"; biz_type = im; body = tiny }

abbrev login : AuthRequest
login = record {
  token = lit "token";
  user_id = lit "u1";
  device_id = lit "d1";
  platform = lit "web";
  heartbeat_interval = 30;
}

abbrev granting : AuthResponse
granting = record { code = 0; text = lit "ok"; granted = true; interval = 30 }

-- An answer that grants the request under an id.
abbrev answer : Str → ClientSignal
answer id = record {
  request_id = id;
  sequence_id = 0;
  signal_type = ps_auth_response;
  payload = auth_answer granting;
}

connects-total_example :
    (tcp_connect true new_client ≡ blocked (record new_client { locked = true }))
    × (close_client (client_of (tcp_connect true new_client))
        ≡ blocked (record new_client { locked = true }))
    × (ws_connect true new_client
        ≡ returned (refusal true new_client) (client_of (ws_connect true new_client)))
    × ((client_of (ws_connect true new_client)).state ≡ (
        if new_client.is_closed_flag
        then new_client.state
        else if true
        then connected
        else disconnected))
unfolding new_client
connects-total_example = connects-total true new_client refl

client_run-new-Coherent_example :
    Coherent (client_run (connects_ws true ∷ (closes ∷ [])) new_client)
client_run-new-Coherent_example = client_run-new-Coherent (connects_ws true ∷ (closes ∷ []))

auth-answered_example :
    let (asked, request) = auth_asks (lit "r1") login (in_state connected) in
    let answered =
      client_of (read_all ((answer (lit "r0") ∷ []) ++ ((answer (lit "r1")) ∷ [])) asked) in
    let (after, result) = auth_finishes (in_time true) (lit "r1") answered in
    (request ≡ inr (encode_auth_request (lit "r1") login))
    × (result ≡ (if any_ends (answer (lit "r0") ∷ []) then inl timed_out else inr (some granting)))
    × (lookup (lit "r1") after.pending_resp ≡ none)
unfolding new_client is_connected str_eq
auth-answered_example =
    auth-answered (lit "r1") login (in_state connected) (answer (lit "r0") ∷ []) (answer (lit "r1"))
      granting true refl ((refl, refl, refl, refl)) ((refl, tt)) refl refl refl refl (omega arith)
