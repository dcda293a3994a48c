-- ===== src/Examples/Broker.antt =====
-- A call of the frontend to the broker (internal/broker/server.go), of a handler that counts.
use zcr521_ai_mcp.Broker.Timeouts.{request_timeout_outcome}
use zcr521_ai_mcp.Model.{success}
use zcr521_ai_mcp.Broker.Server.{Problem, ServerOptions, request_timeout, serve_conn, dispatch, day}
use zcr521_ai_mcp.Broker.Access.{Served, serve_conn_authorized}
use zcr521_ai_mcp.Broker.Dispatch.{RepliesTo, dispatch_replies, Dispatched}
use zcr521_ai_mcp.Common.{
  ℕ, ◌+◌, ◌∷◌, pos, some, codes, ◌≡◌, [], min, negsuc, none, false, ◌*◌, refl, true, arith, ◌⊎◌,
  String, ◌≤◌, ◌<◌,
}
use zcr521_ai_mcp.Broker.Protocol.{Handler, Peer, Request, object, answer, text, fault}

abbrev counter : Handler ℕ
counter = record {
  call = λ tool args n. (n + 1, success "OK" "done" none);
  status = λ n. (n, answer "{}");
  task_get = λ id n. (n, fault none true "file does not exist");
  task_list = λ n. (n, answer "[]");
  task_update = λ id progress message n. (n + 1, answer "{}");
  task_cancel = λ id n. (n + 1, answer "{}");
}

abbrev options : ServerOptions
options = record { allowed_uids = 0 ∷ 2000 ∷ []; allow_unverified_for_host = false }

abbrev frontend : Peer
frontend = record { pid = pos 321; uid = 2000; gid = 2000 }

abbrev plain : Problem → String
plain _ = "refused"

abbrev request : Request
request = record {
  version = pos 1;
  id = codes "r1";
  method = codes "tasks/get";
  tool = [];
  arguments = object ((codes "taskId", text "a") ∷ []);
  timeout_ms = pos 5000;
}

serve_conn_authorized_example :
    Served plain options counter
      (some (codes "321"))
      (some frontend)
      (some request)
      0
      (serve_conn plain options counter (some (codes "321")) (some frontend) (some request) 0)
serve_conn_authorized_example =
    serve_conn_authorized plain options counter (some (codes "321")) (some frontend) (some request)
      0 refl

dispatch_replies_example :
    Dispatched plain counter request 0 (dispatch plain counter request 0) request.arguments
    × RepliesTo (codes "r1") (dispatch plain counter request 0).1
dispatch_replies_example = dispatch_replies plain counter request 0

abbrev patient : Request
patient = record request { timeout_ms = pos 10000000000000 }

request_timeout_outcome_example :
    ((10000000000000 ≤ 9223372036854)
      × (request_timeout patient ≡ some (pos (min (10000000000000 * 1000000) day))))
    ⊎ ((9223372036854 < 10000000000000) × ((n : ℕ) × (request_timeout patient ≡ some (negsuc n))))
request_timeout_outcome_example =
    request_timeout_outcome patient 10000000000000 refl (omega arith) (omega arith)
