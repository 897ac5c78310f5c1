-- ===== src/Auth/Tokens.antt =====
-- A token's life: it is issued, valid for a day, and cleaned up.
use long_gw.Base.{
  ℕ, ◌+◌, ◌≤◌, ◌≡◌, refl, [], ◌∷◌, false, Option, none, some, Str, str_eq, str_eq_iff, ltb,
  if◌then◌else◌, arith,
}
use long_gw.Base.Dict.{Dict, lookup, insert, Unique, lookup-insert}
use long_gw.Auth.{
  TokenInfo, token_life, handle_token, handle_validate, clean_expired_tokens, verify,
}

-- The lookup of a token that has not expired.
abbrev fresh : ℕ → Option TokenInfo → Option TokenInfo
fresh now none = none
fresh now (some info) = if ltb info.expire_at now then none else some info

lookup-clean :
    (now : ℕ) (k : Str) (m : Dict TokenInfo)
    → Unique m
    → lookup k (clean_expired_tokens now m) ≡ fresh now (lookup k m)
unfolding lookup clean_expired_tokens
lookup-clean now k [] u = refl
lookup-clean now k ((j, info) ∷ m) u = ground (arith, u.0, lookup-clean now k m u.1, str_eq_iff j k)

verify-fresh :
    (now : ℕ) (token : Str) (m : Dict TokenInfo)
    → verify now m token ≡ (
        if str_eq token [] then none else elim (fresh now (lookup token m)) [
          | none ↦ none
          | some info ↦ some (info.user_id, info.device_id)
        ])
unfolding verify handle_validate
verify-fresh now token m = ground arith

fresh-later :
    (now later : ℕ) (o : Option TokenInfo) → now ≤ later → fresh later (fresh now o) ≡ fresh later o
fresh-later now later none h = refl
fresh-later now later (some info) h = ground (arith, h)

-- Cleaning up the tokens, in a map that holds each token once, is never seen: at that time and at
-- each later one, every token is verified as it would be without.
pub clean_expired_tokens-unseen :
    (now later : ℕ) (token : Str) (m : Dict TokenInfo)
    → Unique m
    → now ≤ later
    → verify later (clean_expired_tokens now m) token ≡ verify later m token
clean_expired_tokens-unseen now later token m u h = ground (
  arith,
  verify-fresh later token m,
  verify-fresh later token (clean_expired_tokens now m),
  lookup-clean now token m u,
  fresh-later now later (lookup token m) h,
)

-- A token that is issued to a user and a device, neither of them empty, is verified as theirs up to a
-- day later and not after that; every other token is verified as before.
pub handle_token-verified :
    (now later : ℕ) (token user_id device_id app_id : Str) (other : Str) (m : Dict TokenInfo)
    → str_eq user_id [] ≡ false
    → str_eq device_id [] ≡ false
    → str_eq token [] ≡ false
    → let after = (handle_token now (some token) user_id device_id app_id m).0 in
      verify later after other ≡ (
        if str_eq token other
        then if ltb (now + token_life) later then none else some (user_id, device_id)
        else verify later m other)
unfolding handle_token
handle_token-verified now later token u d app other m hu hd ht =
    let info : TokenInfo = record {
      token = token;
      user_id = u;
      device_id = d;
      app_id = app;
      expire_at = now + token_life;
      created_at = now;
    } in
    ground (
      arith,
      hu,
      hd,
      ht,
      str_eq_iff token other,
      verify-fresh later other m,
      verify-fresh later other (insert token info m),
      lookup-insert token other info m,
    )
