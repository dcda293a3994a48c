-- ===== src/Ops/Values.antt =====
-- The arguments of a tool: internal/ops/args.go. A float64 is `some` integer, its conversion to
-- int64, if it is integral. The words of errors are not modelled.
use zcr521_ai_mcp.Transfer.Syntax.{trim_space}
use zcr521_ai_mcp.Ops.Numbers.{atoi}
use zcr521_ai_mcp.Common.{
  [], ◌∷◌, Bool, Option, Map, Text, ℤ, List, ℕ, some, none, if◌then◌else◌, lookup, pos, is_some,
  member, is_empty, suc, codes, true, to_int64, false, ◌*◌,
}

-- A decoded value; `integer` is an int, int32 or int64, `texts` a []string.
mutual
  pub data Value : Type 0 where
    null : Value
    boolean : Bool → Value
    integer : ℤ → Value
    float : Option ℤ → Value
    json_number : Text → Value
    text : Text → Value
    texts : List Text → Value
    array : Values → Value
    object : Members → Value

  pub data Values : Type 0 where
    nil : Values
    item : Value → Values → Values

  pub data Members : Type 0 where
    no_members : Members
    with_member : Text → Value → Members → Members

pub data ArgError : Type 0 where
  missing not_text not_bool not_integer not_texts not_object not_positive : ArgError

pub data Arg {ℓ} (A : Type ℓ) : Type ℓ where
  ok : A → Arg A
  err : ArgError → Arg A

infixl 5 ◌>>=◌
abbrev pub ◌>>=◌ {ℓ κ} : {A : Type ℓ} {B : Type κ} → Arg A → (A → Arg B) → Arg B
ok a >>= f = f a
err e >>= f = err e

abbrev pub or_next : Option Value → Option Value → Option Value
or_next none next = next
or_next (some null) next = next
or_next (some v) next = some v

unfoldable pub arg_any : Map Value → List Text → Option Value
arg_any args [] = none
arg_any args (key ∷ keys) = or_next (lookup key args) (arg_any args keys)

abbrev pub string_of : Option Value → Arg Text
string_of none = err missing
string_of (some (text s)) = ok s
string_of (some (json_number s)) = ok s
string_of (some _) = err not_text

unfoldable pub arg_string : Map Value → List Text → Arg Text
arg_string args keys = string_of (arg_any args keys)

unfoldable pub arg_optional_string : Map Value → Text → List Text → Arg Text
arg_optional_string args fallback keys =
    if is_some (arg_any args keys) then arg_string args keys else ok fallback

-- strconv.ParseBool
unfoldable pub parse_bool : Text → Option Bool
parse_bool s =
    if member s
      (codes "1" ∷ codes "t" ∷ codes "T" ∷ codes "TRUE" ∷ codes "true" ∷ codes "True" ∷ [])
    then some true
    else if member s
        (codes "0" ∷ codes "f" ∷ codes "F" ∷ codes "FALSE" ∷ codes "false" ∷ codes "False" ∷ [])
    then some false
    else none

abbrev pub or_arg {ℓ} : {A : Type ℓ} → ArgError → Option A → Arg A
or_arg e none = err e
or_arg e (some a) = ok a

abbrev pub bool_of : Bool → Option Value → Arg Bool
bool_of fallback none = ok fallback
bool_of fallback (some null) = ok fallback
bool_of fallback (some (boolean b)) = ok b
bool_of fallback (some (text s)) = or_arg not_bool (parse_bool s)
bool_of fallback (some _) = err not_bool

unfoldable pub arg_bool : Map Value → Text → Bool → Arg Bool
arg_bool args key fallback = bool_of fallback (lookup key args)

abbrev pub int64_of : ℤ → Option Value → Arg ℤ
int64_of fallback none = ok fallback
int64_of fallback (some (integer n)) = ok n
int64_of fallback (some (float n)) = or_arg not_integer n
int64_of fallback (some (json_number s)) = or_arg not_integer (atoi s)
int64_of fallback (some (text s)) = or_arg not_integer (atoi s)
int64_of fallback (some _) = err not_integer

unfoldable pub arg_int64 : Map Value → ℤ → List Text → Arg ℤ
arg_int64 args fallback keys = int64_of fallback (arg_any args keys)

unfoldable pub all_texts : Values → Arg (List Text)
all_texts nil = ok []
all_texts (item (text s) rest) = all_texts rest >>= λ ss. ok (s ∷ ss)
all_texts (item _ rest) = err not_texts

abbrev pub slice_of : Option Value → Arg (List Text)
slice_of none = err missing
slice_of (some (texts ss)) = ok ss
slice_of (some (array vs)) = all_texts vs
slice_of (some (text s)) = if is_empty (trim_space s) then ok [] else ok (s ∷ [])
slice_of (some _) = err not_texts

unfoldable pub arg_string_slice : Map Value → List Text → Arg (List Text)
arg_string_slice args keys = slice_of (arg_any args keys)

unfoldable pub text_members : Members → Arg (Map Text)
text_members no_members = ok []
text_members (with_member name (text s) rest) = text_members rest >>= λ m. ok ((name, s) ∷ m)
text_members (with_member name _ rest) = err not_texts

abbrev pub map_of : Option Value → Arg (Map Text)
map_of none = ok []
map_of (some null) = ok []
map_of (some (object members)) = text_members members
map_of (some _) = err not_object

-- A map[string]string does not come from JSON, and is not among the values.
unfoldable pub arg_string_map : Map Value → Text → Arg (Map Text)
arg_string_map args key = map_of (lookup key args)

-- The members of an object as arguments.
unfoldable pub members_map : Members → Map Value
members_map no_members = []
members_map (with_member name v rest) = (name, v) ∷ members_map rest

-- A value alone under its key, as the copies of argDuration have it.
abbrev alone : Text → Value → Map Value
alone key v = (key, v) ∷ []

-- A number of milliseconds or seconds as nanoseconds, in int64.
abbrev pub nanoseconds : ℕ → ℤ → Arg ℤ
nanoseconds unit (pos (suc n)) = ok (to_int64 (suc n * unit))
nanoseconds unit _ = err not_positive

abbrev pub positive_duration : Option ℤ → Arg ℤ
positive_duration (some (pos (suc n))) = ok (pos (suc n))
positive_duration _ = err not_positive

-- The `timeout` of argDuration; any error of a number is the same.
abbrev pub seconds_of : Arg ℤ → Arg ℤ
seconds_of (ok n) = nanoseconds 1000000000 n
seconds_of (err e) = err not_positive

-- `parse_duration` is time.ParseDuration.
module _ (parse_duration : Text → Option ℤ) where
  abbrev pub timeout_of : ℤ → Option Value → Arg ℤ
  timeout_of fallback none = ok fallback
  timeout_of fallback (some (text s)) = positive_duration (parse_duration s)
  timeout_of fallback (some v) =
      seconds_of (arg_int64 (alone (codes "timeout") v) (pos 0) (codes "timeout" ∷ []))

  abbrev pub timeout_ms_of : Map Value → ℤ → Option Value → Arg ℤ
  timeout_ms_of args fallback none = timeout_of fallback (lookup (codes "timeout") args)
  timeout_ms_of args fallback (some v) =
      arg_int64 (alone (codes "timeoutMs") v) (pos 0) (codes "timeoutMs" ∷ [])
      >>= nanoseconds 1000000

  unfoldable pub arg_duration : Map Value → ℤ → Arg ℤ
  arg_duration args fallback = timeout_ms_of args fallback (lookup (codes "timeoutMs") args)
