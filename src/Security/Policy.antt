-- ===== src/Security/Policy.antt =====
-- internal/security: `getPolicy` and `contains`, which both handlers decide by.
use libcontainerssh.Common.{String, str_eq, if◌then◌else◌, Bool, true, false, List, [], ◌∷◌}
use libcontainerssh.Security.Config.{SecurityConfig, SecurityExecutionPolicy, enable, is_configured}

unfoldable pub get_policy : SecurityConfig → SecurityExecutionPolicy → SecurityExecutionPolicy
unfolding is_configured
get_policy config primary =
    if is_configured primary
    then primary
    else if is_configured config.default_mode
    then config.default_mode
    else enable

-- The loop returns at the first hit.
unfoldable pub contains : List String → String → Bool
contains [] item = false
contains (search_item ∷ items) item = if str_eq search_item item then true else contains items item
