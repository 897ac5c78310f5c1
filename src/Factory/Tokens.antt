-- ===== src/Factory/Tokens.antt =====
-- The gateway's handshake over the authentication service.
use long_gw.Base.{ℕ, ◌≤◌, ◌≡◌, subst, Option, some, Str, arith, Option-cases, inl, inr}
use long_gw.Base.Dict.{Dict, lookup}
use long_gw.World.{Message}
use long_gw.Auth.{TokenInfo, verify, handle_validate}
use long_gw.Factory.{AuthInfo, Outside, accepted, do_handshake}
use long_gw.Factory.Serving.{do_handshake-IsVerified}

-- A token that the service knows, that has not expired, and that was issued to this user and device.
pub record IsIssued (now : ℕ) (tokens : Dict TokenInfo) (user_id device_id : Str) : Type 0 where
  pub token : Str
  pub info : TokenInfo
  pub is_known : lookup token tokens ≡ some info
  pub unexpired : now ≤ info.expire_at
  pub same_user : info.user_id ≡ user_id
  pub same_device : info.device_id ≡ device_id

verify-IsIssued :
    (now : ℕ) (tokens : Dict TokenInfo) (token user_id device_id : Str)
    → verify now tokens token ≡ some (user_id, device_id)
    → IsIssued now tokens user_id device_id
unfolding verify handle_validate
verify-IsIssued now tokens token u d e = elim (Option-cases (lookup token tokens)) [
  | inl n ↦ ground (arith, e, n)
  | inr (info, q) ↦ record {
    token = token;
    info = info;
    is_known = q;
    unexpired = ground (arith, e, q);
    same_user = ground (arith, e, q);
    same_device = ground (arith, e, q);
  }
]

-- Where the factory's verifier asks the authentication service, a handshake is accepted only for a
-- user and a device that an unexpired token of the service was issued to.
pub do_handshake-IsIssued :
    (now : ℕ) (tokens : Dict TokenInfo) (o : Outside) (a : AuthInfo) (ref : Message)
    → o.verify ≡ verify now tokens
    → do_handshake o ≡ accepted a ref
    → IsIssued now tokens a.user_id a.device_id
do_handshake-IsIssued now tokens o a ref v e =
    let h = do_handshake-IsVerified o a ref e in
    verify-IsIssued now tokens h.request.token a.user_id a.device_id (
      subst (λ (f : Str → Option (Str × Str)). f h.request.token ≡ some (a.user_id, a.device_id)) v
        h.verified)
