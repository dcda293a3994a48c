-- ===== src/Broker/Server.antt =====
-- serveConn, dispatch and authorizePeer of internal/broker/server.go. `words` gives the texts of the
-- errors that a call meets. The socket is a Unix socket, so that every connection is one.
use Prim.Native.Nat.{zero}
use zcr521_ai_mcp.Transfer.Syntax.{parse_int, trim_space}
use zcr521_ai_mcp.Model.{Result, failure}
use zcr521_ai_mcp.Broker.Protocol.{
  Peer, Handler, Response, Request, Value, Answer, Arguments, number, answer, object, text,
  zero_result, malformed, fault, absent,
}
use zcr521_ai_mcp.Common.{
  [], List, Option, Map, Text, ℕ, ℤ, Bool, some, if◌then◌else◌, leb, any, String, lookup, pos,
  text_eq, not, none, int_lt, int_eq, ◌==◌, codes, false, ◌||◌, negsuc, is_empty, suc, ◌*◌,
  to_int64,
}

pub record ServerOptions : Type 0 where
  pub allowed_uids : List ℕ
  pub allow_unverified_for_host : Bool

pub data Rejection : Type 0 where
  uid_not_allowed no_pid_file bad_pid_file other_pid : Rejection

-- The errors that are put into words.
pub data Problem : Type 0 where
  no_credentials undecodable : Problem
  refused : Rejection → Problem
  unknown_method : Text → Problem

abbrev pub pid_matches : Peer → Option ℕ → Option Rejection
pid_matches peer none = some bad_pid_file
pid_matches peer (some pid) =
    if leb pid 1 then some bad_pid_file else if int_eq peer.pid pid then none else some other_pid

abbrev pub check_pid_file : Peer → Option Text → Option Rejection
check_pid_file peer none = some no_pid_file
check_pid_file peer (some content) = pid_matches peer (parse_int (trim_space content))

-- `content` is what FrontendPIDFile holds, if it can be read; `none` is no error.
unfoldable pub authorize_peer : ServerOptions → Option Text → Peer → Option Rejection
authorize_peer o content peer =
    if any (λ uid. peer.uid == uid) o.allowed_uids
    then check_pid_file peer content
    else some uid_not_allowed

abbrev string_value : Option Value → String
string_value (some (text s)) = s
string_value _ = ""

unfoldable pub string_argument : Map Value → Text → String
string_argument args key = string_value (lookup key args)

abbrev number_value : Option Value → ℕ
number_value (some (number n)) = n
number_value _ = 0

unfoldable pub number_argument : Map Value → Text → ℕ
number_argument args key = number_value (lookup key args)

unfoldable pub reply_to : Text → Result → Response
reply_to id result = record {
  version = pos 1;
  id = id;
  result = result;
  payload = none;
  error_code = "";
  error = "";
}

abbrev pub refusal : Text → String → String → String → String → String → Response
refusal id code message error_type details error =
    record (reply_to id (failure code message error_type details)) { error = error }

abbrev pub call_failed : Text → Bool → String → Response
call_failed id not_exist message =
    record (reply_to id
      (failure "BROKER_CALL_FAILED" "Root broker 调用失败" "BrokerCallError" message)) {
        error_code = if not_exist then "NOT_FOUND" else "";
        error = message;
      }

pub data Method : Type 0 where
  tools_call get_status tasks_get tasks_list tasks_update tasks_cancel unknown : Method

unfoldable pub method_of : Text → Method
method_of m =
    if text_eq m (codes "tools/call")
    then tools_call
    else if text_eq m (codes "status")
    then get_status
    else if text_eq m (codes "tasks/get")
    then tasks_get
    else if text_eq m (codes "tasks/list")
    then tasks_list
    else if text_eq m (codes "tasks/update")
    then tasks_update
    else if text_eq m (codes "tasks/cancel")
    then tasks_cancel
    else unknown

module _ {S : Type 0} where
  abbrev pub answered : Text → S × Answer → S × Response
  answered id (s, answer payload) = (s, record (reply_to id zero_result) { payload = some payload })
  answered id (s, fault payload not_exist message) =
      (s, record (call_failed id not_exist message) { payload = payload })

  abbrev pub resulted : Text → S × Result → S × Response
  resulted id (s, result) = (s, reply_to id result)

module _ {S : Type 0} (words : Problem → String) where
  -- The branches of the `switch`.
  abbrev pub dispatch_as : Handler S → Request → Map Value → S → Method → S × Response
  dispatch_as h r args s tools_call = resulted r.id (h.call r.tool args s)
  dispatch_as h r args s get_status = answered r.id (h.status s)
  dispatch_as h r args s tasks_get =
      answered r.id (h.task_get (string_argument args (codes "taskId")) s)
  dispatch_as h r args s tasks_list = answered r.id (h.task_list s)
  dispatch_as h r args s tasks_update = answered r.id (
      h.task_update (string_argument args (codes "taskId"))
        (number_argument args (codes "progress")) (string_argument args (codes "message")) s)
  dispatch_as h r args s tasks_cancel =
      answered r.id (h.task_cancel (string_argument args (codes "taskId")) s)
  dispatch_as h r args s unknown = (s, call_failed r.id false (words (unknown_method r.method)))

  unfoldable pub dispatch_method : Handler S → Request → Map Value → S → S × Response
  dispatch_method h r args s = dispatch_as h r args s (method_of r.method)

  abbrev pub dispatch_arguments : Handler S → Request → Arguments → S → S × Response
  dispatch_arguments h r absent s = dispatch_method h r [] s
  dispatch_arguments h r (object args) s = dispatch_method h r args s
  dispatch_arguments h r (malformed message) s = (
    s,
    record (reply_to r.id (failure "INVALID_ARGUMENT" "参数不是 JSON 对象" "DecodeError" message)) {
      error = message;
    },
  )

  unfoldable pub dispatch : Handler S → Request → S → S × Response
  dispatch h r s = dispatch_arguments h r r.arguments s

  -- After the peer is checked: `none` is a request that does not decode.
  abbrev pub serve_request : Handler S → Option Request → S → S × Response
  serve_request h none s = (
    s,
    refusal [] "INVALID_REQUEST" "broker 请求无效" "DecodeError" (words undecodable)
        (words undecodable),
  )
  serve_request h (some r) s =
      if not (int_eq r.version 1) || is_empty r.id
      then (
        s,
        refusal r.id "INVALID_REQUEST" "broker 协议版本或请求 ID 无效" "ProtocolError" ""
            "invalid broker protocol",
      )
      else dispatch h r s

  abbrev pub rejected : S → Rejection → S × Response
  rejected s problem = (
    s,
    refusal [] "PEER_REJECTED" "拒绝未授权的 broker 调用" "PeerRejected" (words (refused problem))
        (words (refused problem)),
  )

  abbrev pub unverified : S → S × Response
  unverified s = (
    s,
    refusal [] "PEER_REJECTED" "无法验证 frontend 身份" "PeerCredentialError" (words no_credentials)
        "peer credential verification failed",
  )

  abbrev pub admitted : Handler S → Option Request → S → Option Rejection → S × Response
  admitted h request s none = serve_request h request s
  admitted h request s (some problem) = rejected s problem

  abbrev pub serve_peer :
      ServerOptions → Handler S → Option Text → Option Request → S → Option Peer → S × Response
  serve_peer o h content request s none =
      if o.allow_unverified_for_host then serve_request h request s else unverified s
  serve_peer o h content request s (some peer) =
      if o.allow_unverified_for_host
      then serve_request h request s
      else admitted h request s (authorize_peer o content peer)

  -- `peer` is what inspectPeer says, `none` an error.
  unfoldable pub serve_conn :
      ServerOptions → Handler S → Option Text → Option Peer → Option Request → S → S × Response
  serve_conn o h content peer request s = serve_peer o h content request s peer

-- The nanoseconds of a request's own deadline: a product of int64, and at most a day.
abbrev pub day : ℕ
day = 86400000000000

abbrev pub int_min : ℤ → ℤ → ℤ
int_min a b = if int_lt b a then b else a

abbrev pub positive_timeout : ℤ → Option ℤ
positive_timeout (pos zero) = none
positive_timeout (pos (suc n)) = some (int_min (to_int64 (suc n * 1000000)) (pos day))
positive_timeout (negsuc n) = none

unfoldable pub request_timeout : Request → Option ℤ
request_timeout r = positive_timeout r.timeout_ms
