-- ===== src/Sdk/Client/Answers.antt =====
-- A call that waits for its answer, and the signals that come in between.
use long_gw.Base.{
  ◌≡◌, ◌<◌, ◌∙◌, List, [], ◌∷◌, ◌++◌, Bool, true, false, none, some, Str, str_eq, str_eq_refl,
  arith, inl, inr, All, subst, if◌then◌else◌, Bool-cases,
}
use long_gw.Base.Dict.{lookup, lookup-insert, lookup-delete}
use long_gw.Sdk.Signals.{
  ClientSignal, AuthRequest, AuthResponse, ps_auth_response, auth_answer, decode_client_signal,
  decode_auth_response, signal_from_proto, encode_auth_request,
}
use long_gw.Sdk.Client.{
  Client, client_of, is_connected, wait_response, remove_pending_response, notify_pending_response,
  handle_signal, start_heartbeat,
}
use long_gw.Sdk.Client.Calls.{auth_asks, auth_finishes, finish, read_all, Wait, timed_out}
use long_gw.Sdk.Client.Reading.{
  IsOpen, any_ends, read_round-goes_on, read_all-ended, read_all-passes,
}

-- The answer that grants a request, with an interval, where its channel is empty.
granted-answer :
    (cs : ClientSignal) (r : AuthResponse) (c : Client)
    → cs.signal_type ≡ ps_auth_response
    → cs.payload ≡ auth_answer r
    → r.granted ≡ true
    → 0 < r.interval
    → lookup cs.request_id c.pending_resp ≡ some none
    → let c' = client_of (handle_signal cs c) in
      (lookup cs.request_id c'.pending_resp ≡ some (some (decode_client_signal cs)))
      × (c'.auth_resp ≡ some r)
unfolding handle_signal decode_auth_response start_heartbeat notify_pending_response
    decode_client_signal
granted-answer cs r c t p g i e =
    let id = cs.request_id in
    let msg = decode_client_signal cs in
    (
      ground (arith, t, p, g, i, e, str_eq_refl id, lookup-insert id id (some msg) c.pending_resp),
      ground (arith, t, p, g, i, e),
    )

-- The request is written, and the time of the call is not over.
abbrev pub in_time : Bool → Wait
in_time picks = record { sends = true; late = false; picks_done = picks }

-- The rest of the call where no answer waits, and where one waits with a context that goes on.
auth_finishes-unanswered :
    (id : Str) (c : Client) (picks : Bool)
    → lookup id c.pending_resp ≡ some none
    → (auth_finishes (in_time picks) id c).1 ≡ inl timed_out
unfolding auth_finishes finish
auth_finishes-unanswered id c picks e = ground (arith, e)

auth_finishes-answered :
    (id : Str) (c : Client) (picks : Bool) (cs : ClientSignal) (r : AuthResponse)
    → c.cancelled ≡ false
    → cs.signal_type ≡ ps_auth_response
    → lookup id c.pending_resp ≡ some (some (decode_client_signal cs))
    → c.auth_resp ≡ some r
    → (auth_finishes (in_time picks) id c).1 ≡ inr (some r)
unfolding auth_finishes finish remove_pending_response decode_client_signal signal_from_proto
auth_finishes-answered id c picks cs r k t e p = ground (arith, k, t, e, p)

auth_finishes-gives_up :
    (id : Str) (c : Client) (wait : Wait)
    → lookup id (auth_finishes wait id c).0.pending_resp ≡ none
unfolding auth_finishes finish remove_pending_response
auth_finishes-gives_up id c wait =
    ground (arith, str_eq_refl id, lookup-delete id id c.pending_resp)

-- The first half of the call.
auth_asks-waits :
    (id : Str) (a : AuthRequest) (c : Client)
    → is_connected c ≡ true
    → IsOpen c
    → let (asked, request) = auth_asks id a c in
      (request ≡ inr (encode_auth_request id a))
      × IsOpen asked
      × (lookup id asked.pending_resp ≡ some none)
unfolding auth_asks wait_response
auth_asks-waits id a c k o = (
  ground (arith, k),
  ground (arith, k, o),
  ground (arith, k, str_eq_refl id, lookup-insert id id none c.pending_resp),
)

-- The answer is the last signal that is read.
read_all-granted :
    (others : List ClientSignal) (cs : ClientSignal) (r : AuthResponse) (c : Client)
    → IsOpen c
    → All (λ o. str_eq o.request_id cs.request_id ≡ false) others
    → any_ends others ≡ false
    → cs.signal_type ≡ ps_auth_response
    → cs.payload ≡ auth_answer r
    → r.granted ≡ true
    → 0 < r.interval
    → lookup cs.request_id c.pending_resp ≡ some none
    → let c' = client_of (read_all (others ++ (cs ∷ [])) c) in
      (c'.cancelled ≡ false)
      × (lookup cs.request_id c'.pending_resp ≡ some (some (decode_client_signal cs)))
      × (c'.auth_resp ≡ some r)
unfolding read_all decode_auth_response
read_all-granted others cs r c o h b t p g i e =
    let (d, u, v, k) = read_all-passes others (cs ∷ []) c cs.request_id o h b in
    let n = read_round-goes_on cs d v (ground (arith, t, p, g, i)) in
    let w = granted-answer cs r d t p g i (k ∙ e) in rw (u, n.0) (n.1.0, w.0, w.1)

-- An open client that is connected asks to be authenticated under an id, and the request is written. It
-- reads signals of other requests, and then one under that id that grants with a heartbeat interval.
-- Before the time of the call is over, and whichever case its `select` picks where both are ready, the
-- call returns that answer exactly where none of the others ends the reading loop. Where one does, which
-- is an answer to an authentication that does not grant or has no interval, the answer is never read,
-- and the call ends as timed out. Its channel is given up in both cases.
pub auth-answered :
    (id : Str) (a : AuthRequest) (c : Client) (others : List ClientSignal) (cs : ClientSignal)
    (r : AuthResponse) (picks : Bool)
    → is_connected c ≡ true
    → IsOpen c
    → All (λ o. str_eq o.request_id id ≡ false) others
    → cs.request_id ≡ id
    → cs.signal_type ≡ ps_auth_response
    → cs.payload ≡ auth_answer r
    → r.granted ≡ true
    → 0 < r.interval
    → let (asked, request) = auth_asks id a c in
      let answered = client_of (read_all (others ++ (cs ∷ [])) asked) in
      let (after, result) = auth_finishes (in_time picks) id answered in
      (request ≡ inr (encode_auth_request id a))
      × (result ≡ (if any_ends others then inl timed_out else inr (some r)))
      × (lookup id after.pending_resp ≡ none)
auth-answered id a c others cs r picks k o h e t p g i =
    let q = auth_asks-waits id a c k o in
    let asked = (auth_asks id a c).0 in
    let answered = client_of (read_all (others ++ (cs ∷ [])) asked) in
    (
      q.0,
      elim (Bool-cases (any_ends others)) [
        | inl b ↦ rw b (
            auth_finishes-unanswered id answered picks
              (read_all-ended others (cs ∷ []) asked id q.1 h b ∙ q.2))
        | inr b ↦
            let w = read_all-granted others cs r asked q.1 (rw e h) b t p g i (rw e q.2) in
            rw b (
              auth_finishes-answered id answered picks cs r w.0 t
                (subst (λ k. lookup k answered.pending_resp ≡ some (some (decode_client_signal cs)))
                  e w.1)
                w.2)
      ],
      auth_finishes-gives_up id answered _,
    )
