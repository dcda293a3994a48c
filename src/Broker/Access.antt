-- ===== src/Broker/Access.antt =====
-- Who reaches the handler of internal/broker/server.go, and what a call answers with.
use zcr521_ai_mcp.Transfer.Syntax.{parse_int, trim_space}
use zcr521_ai_mcp.Model.{failure}
use zcr521_ai_mcp.Broker.Server.{
  Problem, ServerOptions, authorize_peer, serve_conn, reply_to, Rejection, serve_request, admitted,
  dispatch, pid_matches,
}
use zcr521_ai_mcp.Broker.Protocol.{Peer, Handler, Request, Response}
use zcr521_ai_mcp.Common.{
  Option, Text, ℕ, any, ◌≡◌, ◌==◌, none, some, false, true, arith, ◌⊎◌, inl, Bool-cases, pos,
  is_empty, not, ◌<◌, int_eq, ◌||◌, refl, inr, int_eq_sound, leb, String,
}

-- The peer is the frontend that the supervisor started: its user is allowed, and its process is the
-- one that the pid file names.
abbrev pub IsFrontend : ServerOptions → Option Text → Peer → Type 0
IsFrontend o content peer =
    (any (λ uid. peer.uid == uid) o.allowed_uids ≡ true)
    × ((c : Text) × (pid : ℕ) × (content ≡ some c)
        × (parse_int (trim_space c) ≡ some pid)
        × (1 < pid)
        × (peer.pid ≡ pos pid))

pid_matches-none :
    (peer : Peer) (found : Option ℕ)
    → pid_matches peer found ≡ none
    → (pid : ℕ) × (found ≡ some pid) × (1 < pid) × (peer.pid ≡ pos pid)
pid_matches-none peer none h = ground arith
pid_matches-none peer (some pid) h = elim (Bool-cases (leb pid 1)) [
  | inl small ↦ ground arith
  | inr large ↦ elim (Bool-cases (int_eq peer.pid pid)) [
    | inl same ↦ (pid, refl, ground (arith, large), int_eq_sound peer.pid pid same)
    | inr other ↦ ground arith
  ]
]

authorize_peer-none :
    (o : ServerOptions) (content : Option Text) (peer : Peer)
    → authorize_peer o content peer ≡ none
    → IsFrontend o content peer
unfolding authorize_peer
authorize_peer-none o none peer h = ground arith
authorize_peer-none o (some c) peer h =
    elim (Bool-cases (any (λ uid. peer.uid == uid) o.allowed_uids)) [
      | inl allowed ↦
          let found : pid_matches peer (parse_int (trim_space c)) ≡ none = simp allowed at h in
          let (pid, e, large, same) = pid_matches-none peer (parse_int (trim_space c)) found in
          (allowed, (c, pid, refl, e, large, same))
      | inr refused ↦ ground arith
    ]

-- What becomes of a connection.
abbrev pub Served :
    {S : Type 0}
    → (Problem → String)
    → ServerOptions
    → Handler S
    → Option Text
    → Option Peer
    → Option Request
    → S
    → S × Response
    → Type 0
Served words o h content peer request s (s', reply) =
    ((s' ≡ s) × (reply.result.success ≡ false))
    ⊎ ((p : Peer) × (r : Request) × (peer ≡ some p)
        × IsFrontend o content p
        × (request ≡ some r)
        × (r.version ≡ pos 1)
        × (is_empty r.id ≡ false)
        × ((s', reply) ≡ dispatch words h r s))

module _ {S : Type 0} (words : Problem → String) (o : ServerOptions) (h : Handler S)
    (content : Option Text) where
  serve_request-Served :
      (p : Peer) (request : Option Request) (s : S)
      → IsFrontend o content p
      → Served words o h content (some p) request s (serve_request words h request s)
  unfolding reply_to failure
  serve_request-Served p none s f = inl (refl, refl)
  serve_request-Served p (some r) s f =
      elim (Bool-cases (not (int_eq r.version 1) || is_empty r.id)) [
        | inl bad ↦ simp bad (inl (refl, refl))
        | inr good ↦
            let version : int_eq r.version 1 ≡ true = ground arith in
            let named : is_empty r.id ≡ false = ground arith in
            simp good (inr (p, r, refl, f, refl, int_eq_sound r.version 1 version, named, refl))
      ]

  admitted-Served :
      (p : Peer) (request : Option Request) (s : S) (verdict : Option Rejection)
      → authorize_peer o content p ≡ verdict
      → Served words o h content (some p) request s (admitted words h request s verdict)
  unfolding reply_to failure
  admitted-Served p request s none e =
      serve_request-Served p request s (authorize_peer-none o content p e)
  admitted-Served p request s (some _) e = inl (refl, refl)

-- Unless peers need not be verified, a connection either leaves the handler's state as it is and
-- is answered with a failure; or its peer has an allowed user and the pid that the pid file names,
-- greater than 1, its request has the protocol's version and an id, and it gets what `dispatch`
-- makes of the request.
pub serve_conn_authorized :
    {S : Type 0} (words : Problem → String) (o : ServerOptions) (h : Handler S)
    (content : Option Text) (peer : Option Peer) (request : Option Request) (s : S)
    → o.allow_unverified_for_host ≡ false
    → Served words o h content peer request s (serve_conn words o h content peer request s)
unfolding serve_conn reply_to failure
serve_conn_authorized words o h content none request s strict = simp strict (inl (refl, refl))
serve_conn_authorized words o h content (some p) request s strict =
    simp strict (admitted-Served words o h content p request s (authorize_peer o content p) refl)
