-- ===== src/Broker/Dispatch.antt =====
-- What dispatch of internal/broker/server.go answers with, method by method.
use zcr521_ai_mcp.Model.{failure, Result}
use zcr521_ai_mcp.Broker.Server.{
  Problem, reply_to, dispatch_method, answered, method_of, Method, dispatch, unknown,
  dispatch_arguments, string_argument, number_argument, tools_call, get_status, tasks_get,
  tasks_list, tasks_update, tasks_cancel, unknown_method,
}
use zcr521_ai_mcp.Broker.Protocol.{
  Handler, Response, Request, Answer, answer, Value, fault, Arguments, object, malformed, absent,
}
use zcr521_ai_mcp.Common.{
  [], ◌∷◌, Bool, Text, List, codes, any, true, ◌≡◌, text_eq, false, pos, Map, ◌⊎◌, inl, refl, inr,
  arith, String, Option, none, some, if◌then◌else◌,
}

abbrev methods : List Text
methods =
    codes "tools/call"
    ∷ codes "status"
    ∷ codes "tasks/get"
    ∷ codes "tasks/list"
    ∷ codes "tasks/update"
    ∷ codes "tasks/cancel"
    ∷ []

-- The six methods of the protocol.
unfoldable pub is_method : Text → Bool
is_method m = any (λ k. text_eq m k) methods

-- A reply that tells of an error, with the data that came beside it.
abbrev pub Fails : Option String → Bool → String → Response → Type 0
Fails payload not_exist message reply =
    (reply.result ≡ failure "BROKER_CALL_FAILED" "Root broker 调用失败" "BrokerCallError" message)
    × (reply.payload ≡ payload)
    × (reply.error ≡ message)
    × (reply.error_code ≡ (if not_exist then "NOT_FOUND" else ""))

-- A reply that tells what an operation of the handler returned.
abbrev pub Tells : Answer → Response → Type 0
Tells (answer payload) reply =
    (reply.payload ≡ some payload) × (reply.error ≡ "") × (reply.error_code ≡ "")
Tells (fault payload not_exist message) reply = Fails payload not_exist message reply

abbrev pub IsCalled : Request → String → Type 0
IsCalled r name = text_eq r.method (codes name) ≡ true

module _ {S : Type 0} where
  -- The state that the operation leaves, and a reply that tells what it returned.
  abbrev pub Passes : S × Answer → S × Response → Type 0
  Passes a after = (after.0 ≡ a.0) × Tells a.1 after.1

  abbrev pub Results : S × Result → S × Response → Type 0
  Results a after =
      (after.0 ≡ a.0)
      × (after.1.result ≡ a.1)
      × (after.1.payload ≡ none)
      × (after.1.error ≡ "")
      × (after.1.error_code ≡ "")

  -- The operation of the method runs, and its outcome is the reply; an unknown method leaves the
  -- state.
  abbrev pub Runs : (Problem → String) → Handler S → Request → Map Value → S → S × Response → Type 0
  Runs words h r args s after =
      (IsCalled r "tools/call" × Results (h.call r.tool args s) after)
      ⊎ (IsCalled r "status" × Passes (h.status s) after)
      ⊎ (IsCalled r "tasks/get"
          × Passes (h.task_get (string_argument args (codes "taskId")) s) after)
      ⊎ (IsCalled r "tasks/list" × Passes (h.task_list s) after)
      ⊎ (IsCalled r "tasks/update"
          × Passes
              (h.task_update (string_argument args (codes "taskId"))
                (number_argument args (codes "progress")) (string_argument args (codes "message"))
                s)
              after)
      ⊎ (IsCalled r "tasks/cancel"
          × Passes (h.task_cancel (string_argument args (codes "taskId")) s) after)
      ⊎ ((is_method r.method ≡ false)
          × (after.0 ≡ s)
          × Fails none false (words (unknown_method r.method)) after.1)

  -- Arguments that are no object are refused before the method is looked at.
  abbrev pub Dispatched :
      (Problem → String) → Handler S → Request → S → S × Response → Arguments → Type 0
  Dispatched words h r s after absent = Runs words h r [] s after
  Dispatched words h r s after (object args) = Runs words h r args s after
  Dispatched words h r s after (malformed message) =
      (after.0 ≡ s)
      × (after.1.result ≡ failure "INVALID_ARGUMENT" "参数不是 JSON 对象" "DecodeError" message)
      × (after.1.error ≡ message)

abbrev pub RepliesTo : Text → Response → Type 0
RepliesTo id reply = (reply.version ≡ pos 1) × (reply.id ≡ id)

-- The method that a text names.
abbrev Names : Text → Method → Type 0
Names m k =
    ((text_eq m (codes "tools/call") ≡ true) × (k ≡ tools_call))
    ⊎ ((text_eq m (codes "status") ≡ true) × (k ≡ get_status))
    ⊎ ((text_eq m (codes "tasks/get") ≡ true) × (k ≡ tasks_get))
    ⊎ ((text_eq m (codes "tasks/list") ≡ true) × (k ≡ tasks_list))
    ⊎ ((text_eq m (codes "tasks/update") ≡ true) × (k ≡ tasks_update))
    ⊎ ((text_eq m (codes "tasks/cancel") ≡ true) × (k ≡ tasks_cancel))
    ⊎ ((is_method m ≡ false) × (k ≡ unknown))

method_of-Names : (m : Text) → Names m (method_of m)
unfolding is_method method_of any
method_of-Names m = ground arith

module _ {S : Type 0} (words : Problem → String) (h : Handler S) (r : Request) where
  answered-Passes :
      (a : S × Answer) → Passes a (answered r.id a) × RepliesTo r.id (answered r.id a).1
  unfolding reply_to failure
  answered-Passes (s, answer payload) = ((refl, (refl, refl, refl)), (refl, refl))
  answered-Passes (s, fault payload not_exist message) =
      ((refl, (refl, refl, refl, refl)), (refl, refl))

  dispatch_method-Runs :
      (args : Map Value) (s : S)
      → let after = dispatch_method words h r args s in
        Runs words h r args s after × RepliesTo r.id after.1
  unfolding dispatch_method reply_to failure
  dispatch_method-Runs args s = elim (method_of-Names r.method) [
    | inl (t, e) ↦ rw e (inl (t, (refl, refl, refl, refl, refl)), (refl, refl))
    | inr (inl (t, e)) ↦ let (p, q) = answered-Passes (h.status s) in rw e (inr (inl (t, p)), q)
    | inr (inr (inl (t, e))) ↦
        let (p, q) = answered-Passes (h.task_get (string_argument args (codes "taskId")) s) in
        rw e (inr (inr (inl (t, p))), q)
    | inr (inr (inr (inl (t, e)))) ↦
        let (p, q) = answered-Passes (h.task_list s) in rw e (inr (inr (inr (inl (t, p)))), q)
    | inr (inr (inr (inr (inl (t, e))))) ↦
        let (p, q) = answered-Passes (
          h.task_update (string_argument args (codes "taskId"))
            (number_argument args (codes "progress")) (string_argument args (codes "message")) s) in
        rw e (inr (inr (inr (inr (inl (t, p))))), q)
    | inr (inr (inr (inr (inr (inl (t, e)))))) ↦
        let (p, q) = answered-Passes (h.task_cancel (string_argument args (codes "taskId")) s) in
        rw e (inr (inr (inr (inr (inr (inl (t, p)))))), q)
    | inr (inr (inr (inr (inr (inr ((t, e))))))) ↦
        rw e (inr (inr (inr (inr (inr (inr ((t, refl, (refl, refl, refl, refl)))))))), (refl, refl))
  ]

  dispatch_arguments-Dispatched :
      (args : Arguments) (s : S)
      → let after = dispatch_arguments words h r args s in
        Dispatched words h r s after args × RepliesTo r.id after.1
  unfolding reply_to failure
  dispatch_arguments-Dispatched absent s = dispatch_method-Runs [] s
  dispatch_arguments-Dispatched (object args) s = dispatch_method-Runs args s
  dispatch_arguments-Dispatched (malformed message) s = ((refl, refl, refl), (refl, refl))

-- Whatever the request and the handler, the reply has the protocol's version and the request's id.
-- Arguments that are no JSON object leave the state and are answered with the INVALID_ARGUMENT
-- failure and its text. Else tools/call answers with the result that Call returns, each of the five
-- other methods runs its operation on the arguments named taskId, progress and message and answers
-- with the data it returns and no error, or, where it returns an error, with the BROKER_CALL_FAILED
-- failure that holds its text, this text as the error, the data beside it, and NOT_FOUND exactly for
-- os.ErrNotExist; the state is the one that the operation leaves. Any other method leaves the state
-- and is answered with that failure.
pub dispatch_replies :
    {S : Type 0} (words : Problem → String) (h : Handler S) (r : Request) (s : S)
    → let after = dispatch words h r s in
      Dispatched words h r s after r.arguments × RepliesTo r.id after.1
unfolding dispatch
dispatch_replies words h r s = dispatch_arguments-Dispatched words h r r.arguments s
