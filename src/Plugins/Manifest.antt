-- ===== src/Plugins/Manifest.antt =====
-- paper_live/plugins/manifest.py and the manifest's check of plugins/security.py.
use paper_live.Base.{
  ℕ, Bool, true, false, ◌||◌, ◌&&◌, not, Option, List, [], ◌∷◌, String, ◌==◌, length, leb, eqb,
  Result, Kind, raise_if, ◌>>◌,
}
use paper_live.Base.Text.{strip, codes}
use paper_live.Environment.{is_member}

pub record PermissionPolicy : Type 0 where
  pub network_allow : List String
  pub secret_allow : List String
  pub filesystem_read : List String
  pub shell : Bool
  pub allowed_modes : List String

pub record PluginManifest : Type 0 where
  pub id : String
  pub version : String
  pub name : String
  pub entrypoint : String
  pub skills : List String
  pub permissions : PermissionPolicy
  pub source_commit : Option String
  pub sha256 : Option String

-- `[a-z0-9]` and `[a-z0-9._-]`
abbrev is_alphanumeric : ℕ → Bool
is_alphanumeric c = leb b'a' c && leb c b'z' || leb b'0' c && leb c b'9'

abbrev is_id_char : ℕ → Bool
is_id_char c = is_alphanumeric c || eqb c b'.' || eqb c b'_' || eqb c b'-'

abbrev all_id_chars : List ℕ → Bool
all_id_chars [] = true
all_id_chars (c ∷ l) = is_id_char c && all_id_chars l

-- `^[a-z0-9][a-z0-9._-]{1,63}$`, on the code points.
abbrev pub is_plugin_id : List ℕ → Bool
is_plugin_id [] = false
is_plugin_id (c ∷ l) = is_alphanumeric c && all_id_chars l && leb 1 (length l) && leb (length l) 63

-- `validate`; `leaves` tells whether a path is absolute or has a part "..".
unfoldable pub validate : (String → Bool) → PluginManifest → Result (Unit {0})
validate leaves m = do
  raise_if (not (is_plugin_id (codes m.id))) Kind.value_error "invalid plugin id"
  raise_if (strip m.version == "" || strip m.name == "") Kind.value_error
      "version and name are required"
  raise_if (leaves m.entrypoint) Kind.value_error "entrypoint must stay inside plugin"
  raise_if m.permissions.shell Kind.value_error
      "shell execution must be explicitly enabled outside the default policy"
  raise_if (is_member "REAL_LIVE" m.permissions.allowed_modes) Kind.value_error
      "REAL_LIVE cannot be granted by a plugin manifest"

-- `SecurityPolicy`
pub record SecurityPolicy : Type 0 where
  pub allowed_hosts : List String
  pub allow_shell : Bool
  pub allow_live : Bool

abbrev has_code : ℕ → List ℕ → Bool
has_code k [] = false
has_code k (c ∷ l) = eqb k c || has_code k l

-- `any(not host or "*" in host for host in hosts)`
abbrev pub any_wildcard : List String → Bool
any_wildcard [] = false
any_wildcard (host ∷ hosts) = host == "" || has_code b'*' (codes host) || any_wildcard hosts

abbrev starts_slash : List ℕ → Bool
starts_slash [] = false
starts_slash (c ∷ _) = eqb c b'/'

-- `any(not name or name.startswith("/") for name in names)`
abbrev pub any_unnamed : List String → Bool
any_unnamed [] = false
any_unnamed (name ∷ names) = name == "" || starts_slash (codes name) || any_unnamed names

-- `PluginSecurityValidator.validate_manifest`; its error is a `ValueError`.
unfoldable pub validate_manifest : PluginManifest → SecurityPolicy → Result (Unit {0})
validate_manifest m policy = do
  raise_if (m.permissions.shell && not policy.allow_shell) Kind.value_error
      "shell permission is disabled"
  raise_if (is_member "REAL_LIVE" m.permissions.allowed_modes && not policy.allow_live)
      Kind.value_error "plugins cannot self-grant REAL_LIVE access"
  raise_if (any_wildcard m.permissions.network_allow) Kind.value_error
      "network permissions must use explicit hosts"
  raise_if (any_unnamed m.permissions.secret_allow) Kind.value_error
      "secret permissions must use named allow-list entries"
