-- ===== src/Auth.antt =====
-- The authentication service, auth/internal/server/server.go, and its client in the gateway,
-- gateway/internal/access/handler/handshake.go. HTTP and JSON carry the requests as they are; the
-- random token is outside. Times are in milliseconds.
pub mod Tokens
use long_gw.Base.{
  ℕ, ◌+◌, List, [], ◌∷◌, Bool, true, false, ◌||◌, Option, none, some, Str, str_eq, ltb,
  if◌then◌else◌,
}
use long_gw.Base.Dict.{Dict, lookup, insert, delete}

-- `TokenInfo`; the gateway's address and the protocol are constants.
pub record TokenInfo : Type 0 where
  pub token : Str
  pub user_id : Str
  pub device_id : Str
  pub app_id : Str
  pub expire_at : ℕ
  pub created_at : ℕ

-- 24 hours.
abbrev pub token_life : ℕ
token_life = 86400000

pub data TokenAnswer : Type 0 where
  bad_request no_token : TokenAnswer
  issued : TokenInfo → TokenAnswer

-- `handleToken` at the time `now`, with the token that is generated: the user and the device are
-- required.
unfoldable pub handle_token :
    ℕ → Option Str → Str → Str → Str → Dict TokenInfo → Dict TokenInfo × TokenAnswer
handle_token now generated user_id device_id app_id tokens =
    if str_eq device_id [] || str_eq user_id [] then (tokens, bad_request) else elim generated [
      | none ↦ (tokens, no_token)
      | some token ↦
          let info : TokenInfo = record {
            token = token;
            user_id = user_id;
            device_id = device_id;
            app_id = app_id;
            expire_at = now + token_life;
            created_at = now;
          } in
          (insert token info tokens, issued info)
    ]

pub data Validation : Type 0 where
  missing not_found expired : Validation
  valid : Str → Str → Validation

-- `handleValidate`: an expired token is deleted.
unfoldable pub handle_validate : ℕ → Str → Dict TokenInfo → Dict TokenInfo × Validation
handle_validate now token tokens =
    if str_eq token [] then (tokens, missing) else elim (lookup token tokens) [
      | none ↦ (tokens, not_found)
      | some info ↦
          if ltb info.expire_at now
          then (delete token tokens, expired)
          else (tokens, valid info.user_id info.device_id)
    ]

-- A round of `cleanExpiredTokens`, over the tokens in iteration order.
unfoldable pub clean_expired_tokens : ℕ → Dict TokenInfo → Dict TokenInfo
clean_expired_tokens now [] = []
clean_expired_tokens now ((token, info) ∷ rest) =
    let kept = clean_expired_tokens now rest in
    if ltb info.expire_at now then kept else (token, info) ∷ kept

-- `Verify` of the gateway, with the answer of the service: the user and the device of a valid token.
unfoldable pub verify : ℕ → Dict TokenInfo → Str → Option (Str × Str)
verify now tokens token = elim (handle_validate now token tokens).1 [
  | valid user_id device_id ↦ some (user_id, device_id)
  | _ ↦ none
]
