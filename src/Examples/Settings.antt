-- ===== src/Examples/Settings.antt =====
-- internal/config/config.go
use castle_ops_client.Prelude.{◌≡◌, ◌↔◌, refl, ok, err, plain}
use castle_ops_client.Config.{Config, linux, validate, new_default}
use castle_ops_client.Config.Validation.{IsValid, validate-IsValid}

abbrev pub defaults : Config
defaults = new_default linux

abbrev broken : Config
broken = record defaults { server = record defaults.server { url = "" } }

validate-IsValid_example : (validate defaults ≡ ok tt) ↔ IsValid defaults
validate-IsValid_example = validate-IsValid defaults

rejected : validate broken ≡ err (plain "server.url is required")
unfolding validate new_default
rejected = refl
