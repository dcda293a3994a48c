-- ===== src/Ops/Naming.antt =====
-- normalizeTool of internal/ops/types.go and normalizePublicRequest of
-- internal/ops/action_aliases.go. `lower` stands for strings.ToLower.
use zcr521_ai_mcp.Transfer.Syntax.{trim_space}
use zcr521_ai_mcp.Ops.Values.{Value, Arg, text, arg_optional_string, ◌>>=◌, ok}
use zcr521_ai_mcp.Common.{
  [], ◌∷◌, ℕ, Text, Map, Option, if◌then◌else◌, Bool, map, codes, some, lookup, ◌==◌, false, insert,
  none, ◌||◌, ◌&&◌, is_empty,
}

-- The Replacer of normalizeTool.
abbrev pub name_byte : ℕ → ℕ
name_byte c = if c == b'.' || c == b'-' || c == b'/' || c == b':' || c == b' ' then b'_' else c

abbrev pub is_underscore : Text → Bool
is_underscore [] = false
is_underscore (c ∷ _) = c == b'_'

-- The loop that takes double underscores out.
unfoldable pub collapse : Text → Text
collapse [] = []
collapse (c ∷ s) =
    let rest = collapse s in if c == b'_' && is_underscore rest then rest else c ∷ rest

unfoldable pub drop_underscores : Text → Text
drop_underscores [] = []
drop_underscores (c ∷ s) = let rest = drop_underscores s in if c == b'_' then rest else c ∷ s

unfoldable pub drop_last_underscores : Text → Text
drop_last_underscores [] = []
drop_last_underscores (c ∷ s) =
    let rest = drop_last_underscores s in if c == b'_' && is_empty rest then [] else c ∷ rest

unfoldable pub normalize_tool : (Text → Text) → Text → Text
normalize_tool lower tool =
    drop_last_underscores (drop_underscores (collapse (map name_byte (trim_space (lower tool)))))

abbrev aliases_of : Text → Map Text → Text × Map Text
aliases_of tool aliases = (tool, aliases)

-- publicActionAliases
unfoldable pub public_action_aliases : Map (Map Text)
public_action_aliases =
    aliases_of (codes "zcr521_app_list") ((codes "list", codes "all") ∷ [])
    ∷ aliases_of (codes "zcr521_app_info") ((codes "get", codes "info") ∷ [])
    ∷ aliases_of (codes "zcr521_app_manage") ((codes "launch", codes "start") ∷ [])
    ∷ aliases_of (codes "zcr521_root_info") (
        (codes "detect", codes "get")
        ∷ (codes "capabilities", codes "get")
        ∷ (codes "self_test", codes "check")
        ∷ [])
    ∷ aliases_of (codes "zcr521_root_module")
        ((codes "remove", codes "delete") ∷ (codes "logs", codes "log") ∷ [])
    ∷ aliases_of (codes "zcr521_systemless") ((codes "apply", codes "stage") ∷ [])
    ∷ aliases_of (codes "zcr521_property") ((codes "reset", codes "delete") ∷ [])
    ∷ aliases_of (codes "zcr521_audio") ((codes "volume", codes "set_volume") ∷ [])
    ∷ aliases_of (codes "zcr521_connectivity")
        ((codes "get", codes "status") ∷ (codes "airplane_mode", codes "airplane") ∷ [])
    ∷ aliases_of (codes "zcr521_input_method") ((codes "get", codes "current") ∷ [])
    ∷ aliases_of (codes "zcr521_accessibility") ((codes "list", codes "get") ∷ [])
    ∷ aliases_of (codes "zcr521_network") (
        (codes "ports", codes "port_check")
        ∷ (codes "wifi", codes "wifi_info")
        ∷ (codes "connectivity", codes "internet_test")
        ∷ [])
    ∷ aliases_of (codes "zcr521_log") ((codes "mcp", codes "service") ∷ [])
    ∷ aliases_of (codes "zcr521_diagnostics")
        ((codes "self_test", codes "check") ∷ (codes "collect", codes "report") ∷ [])
    ∷ aliases_of (codes "zcr521_backup") ((codes "remove", codes "delete") ∷ [])
    ∷ []

-- Request
pub record OpsRequest : Type 0 where
  pub tool : Text
  pub args : Map Value

abbrev pub with_action : OpsRequest → Option Text → OpsRequest
with_action r none = r
with_action r (some target) = record r { args = insert (codes "action") (text target) r.args }

abbrev pub alias_of : Text → Option (Map Text) → Option Text
alias_of action none = none
alias_of action (some aliases) = lookup action aliases

abbrev pub with_alias : (Text → Text) → OpsRequest → Option Value → OpsRequest
with_alias lower r (some (text action)) =
    with_action r (alias_of (normalize_tool lower action) (lookup r.tool public_action_aliases))
with_alias lower r _ = r

unfoldable pub normalize_public_request : (Text → Text) → OpsRequest → OpsRequest
normalize_public_request lower r = with_alias lower r (lookup (codes "action") r.args)

unfoldable pub action_of : (Text → Text) → OpsRequest → Text → Arg Text
action_of lower r fallback = arg_optional_string r.args fallback (codes "action" ∷ []) >>= λ action.
    ok (normalize_tool lower action)
