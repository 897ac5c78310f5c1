-- ===== src/Tests/Uplinks.antt =====
-- The frame handlers and the uplink pipeline on the small gateway.
use long_gw.Tests.Data.{online, plain_error}
use long_gw.Base.{◌≡◌, none, Bytes}
use long_gw.Handler.{dispatch}
use long_gw.Handler.Dispatch.{returns, is_served, dispatch-returns}

abbrev bytes_of_event : Bytes → Bytes
bytes_of_event b = b

dispatch-returns_example :
    returns (dispatch plain_error none 77 0 0 0 online) ≡ is_served (online.msgs 0)
dispatch-returns_example = dispatch-returns plain_error none 77 0 0 0 online
