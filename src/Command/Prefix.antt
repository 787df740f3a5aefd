-- ===== src/Command/Prefix.antt =====
-- pkg/common/cmd/constant.go: the files of the configuration, and the prefixes of the environment
-- variables that override them. The names of the files are ASCII.
use Prim.Native.Char.{Char, code}
use Prim.Native.String.{◌++◌ as str_append}
use openmeeting_server.Base.{
  String, List, [], ◌∷◌, Bool, true, Option, none, some, ◌==◌, if◌then◌else◌, ◌-◌, ◌≡◌, ◌≢◌, refl,
  leb, eqb, ◌&&◌, not, eq_iff, Bool-cases, inl, inr, sym, ◌∙◌, differs_iff, and_true,
}
use openmeeting_server.Base.Lists.{get_elem?}

abbrev pub redis_config_file_name : String
redis_config_file_name = "redis.yml"

abbrev pub mongodb_config_file_name : String
mongodb_config_file_name = "mongodb.yml"

abbrev pub open_meeting_api_cfg_file_name : String
open_meeting_api_cfg_file_name = "openmeeting-api.yml"

abbrev pub open_meeting_admin_api_cfg_file_name : String
open_meeting_admin_api_cfg_file_name = "openmeeting-admin-api.yml"

abbrev pub open_meeting_rpc_user_cfg_file_name : String
open_meeting_rpc_user_cfg_file_name = "openmeeting-rpc-user.yml"

abbrev pub open_meeting_rpc_meeting_cfg_file_name : String
open_meeting_rpc_meeting_cfg_file_name = "openmeeting-rpc-meeting.yml"

abbrev pub discovery_config_filename : String
discovery_config_filename = "discovery.yml"

abbrev pub log_config_file_name : String
log_config_file_name = "log.yml"

abbrev pub share_file_name : String
share_file_name = "share.yml"

abbrev pub live_kit_config_filename : String
live_kit_config_filename = "livekit.yml"

-- `strings.TrimSuffix`
unfoldable pub trim_suffix : String → String → String
trim_suffix String.[] suffix = String.[]
trim_suffix (String.◌∷◌ c s) suffix =
    let rest = trim_suffix s suffix in
    if String.◌∷◌ c s == suffix then String.[] else String.◌∷◌ c rest

abbrev upper_letters : List Char
upper_letters =
    "A" ∷ "B" ∷ "C" ∷ "D" ∷ "E" ∷ "F" ∷ "G" ∷ "H" ∷ "I" ∷ "J" ∷ "K" ∷ "L" ∷ "M" ∷ "N" ∷ "O" ∷ "P"
    ∷ "Q" ∷ "R" ∷ "S" ∷ "T" ∷ "U" ∷ "V" ∷ "W" ∷ "X" ∷ "Y" ∷ "Z" ∷ []

abbrev upper_at : Char → Option Char → Char
upper_at c none = c
upper_at c (some d) = d

-- A letter of ASCII in upper case; "_" in place of "-"
env_char : Char → Char
env_char c =
    if eqb (code c) b'-'
    then "_"
    else (if leb b'a' (code c) then upper_at c (get_elem? upper_letters (code c - 97)) else c)

-- `strings.ToUpper` after `strings.ReplaceAll` of "-" by "_"
unfoldable pub to_env : String → String
unfolding env_char
to_env String.[] = String.[]
to_env (String.◌∷◌ c s) = String.◌∷◌ (env_char c) (to_env s)

unfoldable pub env_key : String → String
unfolding trim_suffix to_env
env_key file_name =
    to_env (str_append "IMENV_" (trim_suffix (trim_suffix file_name ".yml") ".yaml"))

-- The map that `init` fills, in its order
unfoldable pub config_env_prefix_map : List String → List (String × String)
unfolding env_key
config_env_prefix_map [] = []
config_env_prefix_map (f ∷ fs) = (f, env_key f) ∷ config_env_prefix_map fs

abbrev pub file_names : List String
file_names =
    redis_config_file_name ∷ mongodb_config_file_name ∷ open_meeting_rpc_user_cfg_file_name
    ∷ open_meeting_rpc_meeting_cfg_file_name ∷ discovery_config_filename
    ∷ open_meeting_api_cfg_file_name ∷ open_meeting_admin_api_cfg_file_name ∷ log_config_file_name
    ∷ share_file_name ∷ []

-- A key that is not in the map has the empty text.
unfoldable pub lookup_prefix : String → List (String × String) → String
lookup_prefix k [] = ""
lookup_prefix k ((j, v) ∷ m) = if j == k then v else lookup_prefix k m

-- `ConfigEnvPrefixMap[configFileName]`
unfoldable pub config_env_prefix : String → String
unfolding config_env_prefix_map lookup_prefix
config_env_prefix file_name = lookup_prefix file_name (config_env_prefix_map file_names)

-- No other entry has the value.
no_value : String → List (String × String) → Bool
no_value v [] = true
no_value v ((j, w) ∷ m) = let rest = no_value v m in not (w == v) && rest

distinct : List (String × String) → Bool
distinct [] = true
distinct ((j, w) ∷ m) = let rest = distinct m in no_value w m && rest

lookup_prefix-ne :
    (k v : String) (m : List (String × String))
    → no_value v m ≡ true
    → v ≢ ""
    → lookup_prefix k m ≢ v
unfolding lookup_prefix no_value
lookup_prefix-ne k v [] h ne e = ne (sym e)
lookup_prefix-ne k v ((j, w) ∷ m) h ne e =
    let (differs, rest) = and_true (not (w == v)) (no_value v m) h in
    elim (Bool-cases (j == k)) [
      | inl here ↦ (differs_iff w v).0 differs (rw here at e)
      | inr not_here ↦ lookup_prefix-ne k v m rest ne (rw not_here at e)
    ]

lookup_prefix_unique :
    (f g v : String) (m : List (String × String))
    → distinct m ≡ true
    → v ≢ ""
    → lookup_prefix f m ≡ v
    → lookup_prefix g m ≡ v
    → f ≡ g
unfolding lookup_prefix distinct
lookup_prefix_unique f g v [] d ne e e' = absurd (ne (sym e))
lookup_prefix_unique f g v ((j, w) ∷ m) d ne e e' =
    let (alone, rest) = and_true (no_value w m) (distinct m) d in
    elim (Bool-cases (j == f)) [
      | inl f_here ↦ elim (Bool-cases (j == g)) [
        | inl g_here ↦ sym ((eq_iff _ _).0 f_here) ∙ (eq_iff _ _).0 g_here
        | inr g_not ↦
            let same : w ≡ v = rw f_here at e in
            absurd (lookup_prefix-ne g v m (rw same at alone) ne (rw g_not at e'))
      ]
      | inr f_not ↦ elim (Bool-cases (j == g)) [
        | inl g_here ↦
            let same : w ≡ v = rw g_here at e' in
            absurd (lookup_prefix-ne f v m (rw same at alone) ne (rw f_not at e))
        | inr g_not ↦ lookup_prefix_unique f g v m rest ne (rw f_not at e) (rw g_not at e')
      ]
    ]

all_distinct : distinct (config_env_prefix_map file_names) ≡ true
unfolding distinct no_value config_env_prefix_map
all_distinct = refl

-- Two files of the configuration whose environment variables have a prefix have different ones, so no
-- variable overrides two files by one name.
pub config_env_prefix_unique :
    (f g v : String) → v ≢ "" → config_env_prefix f ≡ v → config_env_prefix g ≡ v → f ≡ g
unfolding config_env_prefix
config_env_prefix_unique f g v ne e e' =
    lookup_prefix_unique f g v (config_env_prefix_map file_names) all_distinct ne e e'

no_prefix : config_env_prefix live_kit_config_filename ≡ ""
unfolding config_env_prefix
no_prefix = refl

user_prefix : config_env_prefix open_meeting_rpc_user_cfg_file_name ≡ "IMENV_OPENMEETING_RPC_USER"
unfolding config_env_prefix
user_prefix = refl
