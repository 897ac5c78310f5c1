-- ===== src/Sdk/Login.antt =====
-- How an application gets its token: `AuthClient` of sdk/auth.go, at the authentication service.
use long_gw.Base.{
  ℕ, ◌+◌, ◌/◌, ◌≡◌, [], Bool, true, false, ◌||◌, Option, none, some, Str, lit, Bool-cases, inl, inr,
  str_eq, ltb, arith, if◌then◌else◌,
}
use long_gw.Base.Dict.{Dict}
use long_gw.Auth.{
  TokenInfo, TokenAnswer, bad_request, no_token, issued, token_life, handle_token, verify,
}
use long_gw.Auth.Tokens.{handle_token-verified}

-- `TokenResponse`
pub record TokenResponse : Type 0 where
  pub token : Str
  pub gateway : Str
  pub protocol : Str
  pub heartbeat : ℕ
  pub expire_at : ℕ

-- `GenerateTokenResponse`: whether its code is 0, and its data.
pub record GenerateTokenResponse : Type 0 where
  pub is_ok : Bool
  pub response : Option TokenResponse

-- The body that the service answers with.
unfoldable pub body_of : TokenAnswer → GenerateTokenResponse
body_of bad_request = record { is_ok = false; response = none }
body_of no_token = record { is_ok = false; response = none }
body_of (issued info) = record {
  is_ok = true;
  response = some (record {
    token = info.token;
    gateway = lit "127.0.0.1:8089";
    protocol = lit "tcp";
    heartbeat = 30;
    expire_at = info.expire_at / 1000;
  });
}

-- What `GenerateToken` returns; with a code of 0 the data may still be missing.
pub data TokenResult : Type 0 where
  call_failed decode_failed service_error : TokenResult
  obtained : Option TokenResponse → TokenResult

-- `GenerateToken`: whether the call reaches the service, and the body that is decoded, if it is one.
unfoldable pub generate_token : Bool → Option GenerateTokenResponse → TokenResult
generate_token reached none = if reached then decode_failed else call_failed
generate_token reached (some r) =
    if reached then if r.is_ok then obtained r.response else service_error else call_failed

-- The call at the service, with the token that it generates.
abbrev pub ask_service :
    ℕ → Option Str → Str → Str → Str → Dict TokenInfo → Dict TokenInfo × TokenResult
ask_service now generated user_id device_id app_id tokens =
    let (tokens', answer) = handle_token now generated user_id device_id app_id tokens in
    (tokens', generate_token true (some (body_of answer)))

-- An application asks the service for a token, and one that is not empty is generated. Where the
-- application names a user and a device, it gets that token, with the service's fixed address, protocol
-- and heartbeat, and a day from now, in seconds, as its end; otherwise it gets a service error. In the
-- first case the gateway verifies the token as that user's and device's up to a day later and not after
-- that, and every other token as before; in the second it verifies every token as before.
pub generate_token-verified :
    (now later : ℕ) (token user_id device_id app_id other : Str) (m : Dict TokenInfo)
    → str_eq token [] ≡ false
    → let (m', result) = ask_service now (some token) user_id device_id app_id m in
      let refused = str_eq device_id [] || str_eq user_id [] in
      (result ≡ (
        if refused
        then service_error
        else obtained (
            some (record {
              token = token;
              gateway = lit "127.0.0.1:8089";
              protocol = lit "tcp";
              heartbeat = 30;
              expire_at = (now + token_life) / 1000;
            }))))
      × (verify later m' other ≡ (
          if refused
          then verify later m other
          else if str_eq token other
          then if ltb (now + token_life) later then none else some (user_id, device_id)
          else verify later m other))
unfolding generate_token handle_token body_of
generate_token-verified now later token u d app other m h =
    elim (Bool-cases (str_eq d [] || str_eq u [])) [
      | inl q ↦ (ground (arith, q), ground (arith, q))
      | inr q ↦ (
        ground (arith, q),
        ground (
          arith,
          q,
          handle_token-verified now later token u d app other m (ground (arith, q))
              (ground (arith, q)) h,
        ),
      )
    ]
