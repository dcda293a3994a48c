-- ===== src/Mcp/Guards.antt =====
-- The backend of internal/mcpapi/tasks_http.go is asked only for requests that pass the checks.
use zcr521_ai_mcp.Mcp.Handler.{
  dispatch, TasksHandler, TaskClient, run_method, respond, after_admission, Answer, answered,
  failed, nulled,
}
use zcr521_ai_mcp.Transfer.Syntax.{trim_space}
use zcr521_ai_mcp.Mcp.Rpc.{
  Header, validate_task_routing_headers, RpcResponse, is_stated, RpcRequest, Method, Admission,
  admit, methods, refused, params_map, is_current_task_request, admitted, admit_params,
  has_tasks_capability, admit_method, name_of, error_response,
  code_missing_required_client_capability, code_header_mismatch,
}
use zcr521_ai_mcp.Ops.Values.{Value}
use zcr521_ai_mcp.Common.{
  false, true, none, some, [], ◌∷◌, Text, Bool, is_empty, ◌≡◌, codes, ◌⊎◌, Map, is_some, text_eq,
  arith, text_eq_iff, refl, Bool-cases, inl, inr, lookup, ◌&&◌, Option, not, ℤ, if◌then◌else◌,
}

-- A response to a request: its id, and a result or an error, beside which only a null result may stand.
abbrev pub AnswersId : Text → RpcResponse → Type 0
AnswersId id r =
    (r.jsonrpc ≡ codes "2.0")
    × (r.id ≡ id)
    × (((is_some r.result ≡ true) × (r.null_result ≡ false) × (r.error ≡ none))
        ⊎ ((r.result ≡ none) × (is_some r.error ≡ true)))

-- What the headers of a single request state: its method, and its name if it has one.
abbrev pub StatesRouting : Header → Text → Text → Type 0
StatesRouting header method name =
    (trim_space header.mcp_method ≡ method) × ((name ≡ []) ⊎ (trim_space header.mcp_name ≡ name))

-- A request that may reach the backend.
abbrev pub MayReach : Header → Bool → RpcRequest → Method → Map Value → Type 0
MayReach header validate r m params =
    (r.jsonrpc ≡ codes "2.0")
    × (lookup r.method methods ≡ some m)
    × (params_map r.params ≡ some params)
    × (is_current_task_request header params ≡ true)
    × (has_tasks_capability params ≡ true)
    × ((validate ≡ false) ⊎ StatesRouting header r.method (name_of m params))

is_stated_lem : (header wanted : Text) → is_stated header wanted ≡ true → trim_space header ≡ wanted
is_stated_lem header wanted h =
    let same : text_eq (trim_space header) wanted ≡ true = ground arith in
    (text_eq_iff (trim_space header) wanted).0 same

empty_text : (s : Text) → is_empty s ≡ true → s ≡ []
empty_text [] h = refl
empty_text (c ∷ s) h = ground arith

validate_task_routing_headers-StatesRouting :
    (header : Header) (method name : Text)
    → validate_task_routing_headers header method name ≡ true
    → StatesRouting header method name
unfolding validate_task_routing_headers
validate_task_routing_headers-StatesRouting header method name h =
    let first : is_stated header.mcp_method method ≡ true = ground arith in
    (
      is_stated_lem header.mcp_method method first,
      elim (Bool-cases (is_empty name)) [
        | inl none' ↦ inl (empty_text name none')
        | inr some' ↦ inr (is_stated_lem header.mcp_name name (ground arith))
      ],
    )

-- What a request that is let through fulfils.
abbrev Reaches : Header → Bool → RpcRequest → Admission → Type 0
Reaches header validate r (refused code) = Unit
Reaches header validate r (admitted m params) = MayReach header validate r m params

module _ (header : Header) (validate : Bool) (r : RpcRequest) where
  routing-cases :
      (name : Text)
      → (validate && not (validate_task_routing_headers header r.method name)) ≡ false
      → (validate ≡ false) ⊎ StatesRouting header r.method name
  routing-cases name h = elim (Bool-cases validate) [
    | inl on ↦ inr (validate_task_routing_headers-StatesRouting header r.method name (ground arith))
    | inr off ↦ inl off
  ]

  admit_method-Reaches :
      (params : Map Value) (o : Option Method)
      → r.jsonrpc ≡ codes "2.0"
      → params_map r.params ≡ some params
      → is_current_task_request header params ≡ true
      → lookup r.method methods ≡ o
      → Reaches header validate r (admit_method header validate r.method params o)
  admit_method-Reaches params none v p c e = tt
  admit_method-Reaches params (some m) v p c e =
      of_tests (has_tasks_capability params)
        (validate && not (validate_task_routing_headers header r.method (name_of m params))) refl
        refl
    where
      of_tests :
          (able misrouted : Bool)
          → has_tasks_capability params ≡ able
          → (validate && not (validate_task_routing_headers header r.method (name_of m params)))
            ≡ misrouted
          → Reaches header validate r (
              if not able
              then refused code_missing_required_client_capability
              else if misrouted
              then refused code_header_mismatch
              else admitted m params)
      of_tests false misrouted a b = tt
      of_tests true true a b = tt
      of_tests true false a b = (v, e, p, c, a, routing-cases (name_of m params) b)

  admit_params-Reaches :
      (o : Option (Map Value))
      → r.jsonrpc ≡ codes "2.0"
      → params_map r.params ≡ o
      → Reaches header validate r (admit_params header validate r.method o)
  admit_params-Reaches none v p = tt
  admit_params-Reaches (some params) v p =
      elim (Bool-cases (is_current_task_request header params)) [
        | inl current ↦
            rw current (admit_method-Reaches params (lookup r.method methods) v p current refl)
        | inr old ↦ rw old tt
      ]

  admit-Reaches : Reaches header validate r (admit header validate r)
  unfolding admit
  admit-Reaches = elim (Bool-cases (text_eq r.jsonrpc (codes "2.0") && not (is_empty r.method))) [
    | inl fine ↦
        let version : text_eq r.jsonrpc (codes "2.0") ≡ true = ground arith in
        rw fine (
          admit_params-Reaches (params_map r.params)
            ((text_eq_iff r.jsonrpc (codes "2.0")).0 version) refl)
    | inr not_fine ↦ rw not_fine tt
  ]

-- Every response of dispatch bears the request's id and either a result or an error, beside which no
-- result but null may stand. Either the
-- backend is as before and the response is an error; or the request has the version 2.0 of JSON-RPC,
-- one of the four methods, params of the current protocol version with the capability of the tasks
-- extension, and, where headers are checked, headers that state its method and its name; and then
-- backend and response are what the method makes of them.
pub dispatch_guarded :
    {σ : Type 0} (h : TasksHandler σ) (c : TaskClient σ) (header : Header) (validate : Bool)
    (r : RpcRequest) (st : σ)
    → AnswersId r.id (dispatch h c header validate r st).1
      × ((((dispatch h c header validate r st).0 ≡ st)
            × ((code : ℤ) × ((dispatch h c header validate r st).1
                  ≡ error_response r.id code none)))
          ⊎ ((m : Method) × (params : Map Value) × MayReach header validate r m params
              × (dispatch h c header validate r st ≡ (
                  let (st', answer) = run_method h c m params st in
                  (st', respond h r.id params answer)))))
unfolding dispatch
dispatch_guarded h c header validate r st =
    of_admission (admit header validate r) (admit-Reaches header validate r)
  where
    respond-AnswersId :
        (params : Map Value) (answer : Answer) → AnswersId r.id (respond h r.id params answer)
    respond-AnswersId params (answered result) = (refl, refl, inl (refl, refl, refl))
    respond-AnswersId params (failed e) = (refl, refl, inr (refl, refl))
    respond-AnswersId params (nulled e) = (refl, refl, inr (refl, refl))

    of_admission :
        (a : Admission)
        → Reaches header validate r a
        → AnswersId r.id (after_admission h c r.id a st).1
          × ((((after_admission h c r.id a st).0 ≡ st)
                × ((code : ℤ) × ((after_admission h c r.id a st).1
                      ≡ error_response r.id code none)))
              ⊎ ((m : Method) × (params : Map Value) × MayReach header validate r m params
                  × (after_admission h c r.id a st ≡ (
                      let (st', answer) = run_method h c m params st in
                      (st', respond h r.id params answer)))))
    of_admission (refused code) reaches = ((refl, refl, inr (refl, refl)), inl (refl, (code, refl)))
    of_admission (admitted m params) reaches =
        (respond-AnswersId params (run_method h c m params st).1, inr (m, params, reaches, refl))
