-- ===== src/SessionRegistry/Devices.antt =====
-- One session per user and device: `GetOrCreate` of gateway/internal/session/registry.go.
use long_gw.Base.{
  ◌≡◌, refl, [], false, not, ◌&&◌, Option, none, some, is_some, Str, str_eq, str_eq_refl,
  str_eq_iff, ℕ, if◌then◌else◌, arith, Option-cases, inl, inr,
}
use long_gw.Base.Dict.{Dict, lookup, insert, lookup-insert}
use long_gw.World.{World}
use long_gw.SessionRegistry.{Registry, devices_of, get_or_create}

-- The session that the registry has for a device of a user.
abbrev pub device_of : Str → Str → Registry → Option ℕ
device_of user_id device_id g = lookup device_id (devices_of user_id g)

device_of-insert :
    (u d v e : Str) (s : ℕ) (idx : Dict (Dict ℕ)) (ds : Dict ℕ)
    → (elim (lookup u idx) [ none ↦ [] | some m ↦ m ]) ≡ ds
    → lookup e (elim (lookup v (insert u (insert d s ds) idx)) [ none ↦ [] | some m ↦ m ]) ≡ (
        if str_eq u v && str_eq d e
        then some s
        else lookup e (elim (lookup v idx) [ none ↦ [] | some m ↦ m ]))
device_of-insert u d v e s idx ds h =
    ground (arith, h, lookup-insert u v (insert d s ds) idx, lookup-insert d e s ds, str_eq_iff u v)

module _ (compute_session_id : Str → Str → Str) where
  -- `GetOrCreate` gives the session that the registry has for the user's device, or else a new one,
  -- and says which; the registry then has it for that device, and for every other device of any user
  -- what it had. The same call again, whatever its application, kind of device and domain, gives the same session and changes nothing.
  pub get_or_create_total :
      (u d app app' kind kind' biz biz' v e : Str) (g : Registry) (w : World)
      → let (g', w', s, fresh) = get_or_create compute_session_id u d app kind biz g w in
        (fresh ≡ not (is_some (device_of u d g)))
        × (device_of v e g' ≡ (if str_eq u v && str_eq d e then some s else device_of v e g))
        × (get_or_create compute_session_id u d app' kind' biz' g' w' ≡ (g', w', s, false))
  unfolding get_or_create
  get_or_create_total u d app app' kind kind' biz biz' v e g w =
      elim (Option-cases (device_of u d g)) [
        | inl n ↦ ground (
          arith,
          n,
          device_of-insert u d v e g.fresh g.user_index (devices_of u g) refl,
          device_of-insert u d u d g.fresh g.user_index (devices_of u g) refl,
          str_eq_refl u,
          str_eq_refl d,
        )
        | inr (s, p) ↦ ground (arith, p, str_eq_iff u v, str_eq_iff d e)
      ]
