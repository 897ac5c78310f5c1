-- ===== src/Sdk/Push.antt =====
-- The client with which a backend pushes messages to the gateway, sdk/grpc/client.go. gRPC is outside,
-- and so is the code that is generated for it, which this commit does not have.
use long_gw.Base.{
  ℕ, ◌≡◌, refl, [], Bool, true, false, Option, none, some, Str, Bytes, str_eq, ltb, if◌then◌else◌,
  arith,
}
use long_gw.Sdk.Signals.{BusinessType, ProtoBusiness, business_to_proto}

-- `PushType`, an enum of the protocol; the SDK does not name the others.
pub data PushType : Type 0 where
  push_unspecified push_single push_group : PushType
  push_other : ℕ → PushType

-- `toProtoPushType`
unfoldable pub to_proto_push_type : PushType → PushType
to_proto_push_type push_single = push_single
to_proto_push_type push_group = push_group
to_proto_push_type _ = push_unspecified

pub record PushRequest : Type 0 where
  pub receiver : Str
  pub payload : Bytes
  pub push_type : PushType
  pub business_type : BusinessType

-- The request of the protocol.
pub record ProtoPush : Type 0 where
  pub receiver : Str
  pub payload : Bytes
  pub push_type : PushType
  pub business_type : ProtoBusiness

pub record PushResponse : Type 0 where
  pub success : Bool
  pub text : Str

-- `ClientOptions`: the address and the timeout in milliseconds, 0 where it is 0 or less.
pub record ClientOptions : Type 0 where
  pub addr : Str
  pub timeout : ℕ

abbrev pub default_timeout : ℕ
default_timeout = 5000

-- `defaultOptions`
unfoldable pub default_options : ClientOptions
default_options = record { addr = []; timeout = default_timeout }

-- The client: its options, and whether its connection is closed.
pub record PushClient : Type 0 where
  pub opts : ClientOptions
  pub closed : Bool

-- `NewClient`, as the dialing answers.
pub data NewPushClient : Type 0 where
  addr_required dial_failed : NewPushClient
  connected : PushClient → NewPushClient

unfoldable pub new_push_client : ClientOptions → Bool → NewPushClient
new_push_client opts dials =
    if str_eq opts.addr []
    then addr_required
    else if dials
    then connected (record { opts = opts; closed = false })
    else dial_failed

-- What the client uses of gRPC: a call on a connection that may be closed, whose context has some time
-- left. It is refused where there is none, and on a closed connection.
pub record PushService : Type 0 where
  pub call : Bool → ℕ → ProtoPush → Option PushResponse
  pub call-expired : (closed : Bool) (r : ProtoPush) → call closed 0 r ≡ none
  pub call-closed : (time_left : ℕ) (r : ProtoPush) → call true time_left r ≡ none

abbrev pub to_proto : PushRequest → ProtoPush
to_proto req = record {
  receiver = req.receiver;
  payload = req.payload;
  push_type = to_proto_push_type req.push_type;
  business_type = business_to_proto req.business_type;
}

-- The time left of a context with a deadline, if any, that is given a timeout.
abbrev pub with_timeout : Option ℕ → ℕ → ℕ
with_timeout none timeout = timeout
with_timeout (some left) timeout = if ltb left timeout then left else timeout

-- `c.opts.Timeout`, or the default where it is 0 or less.
abbrev pub timeout_of : PushClient → ℕ
timeout_of c = if ltb 0 c.opts.timeout then c.opts.timeout else default_timeout

module _ (service : PushService) where
  open service use {call, call-expired, call-closed}

  -- `Push` in a context with some time left, if it has a deadline: an error, or the response.
  unfoldable pub push : Option ℕ → PushRequest → PushClient → Option PushResponse
  push left req c = call c.closed (with_timeout left (timeout_of c)) (to_proto req)

  -- `PushAsync`: what the goroutine's `Push` answers, which nobody sees.
  unfoldable pub push_async : PushRequest → PushClient → Option PushResponse
  push_async req c = push (some c.opts.timeout) req c

  -- `Close`, as the closing of the connection answers: whether there was no error.
  unfoldable pub close : Bool → PushClient → PushClient × Bool
  close closes c = if c.closed then (c, true) else (record c { closed = true }, closes)

  -- With a timeout in the options, an asynchronous push is the push without a deadline of its own. With
  -- none it is always refused, while that push has the default timeout. Closing a client twice is
  -- closing it once, and nothing is pushed by a closed one.
  pub push_async-push :
      (req : PushRequest) (c : PushClient) (left : Option ℕ) (closes again : Bool)
      → let (c', ok) = close closes c in
        (push_async req c ≡ (if ltb 0 c.opts.timeout then push none req c else none))
        × (push none req c ≡ call c.closed (timeout_of c) (to_proto req))
        × (close again c' ≡ (c', true))
        × (push left req c' ≡ none)
  unfolding push push_async close
  push_async-push req c left closes again = (
    ground (arith, call-expired c.closed (to_proto req)),
    refl,
    ground arith,
    ground (arith, call-closed (with_timeout left (timeout_of c)) (to_proto req)),
  )
