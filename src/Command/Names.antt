-- ===== src/Command/Names.antt =====
-- core/command/command_types.hpp: the text of a command type.
use cns_server.Base.{◌≡◌, ◌↔◌, refl, String, ok, string_eq, arith}
use mathlib.Core.Path.{subst, sym}
use text.Mathlib.TextEquality.{eq_iff}
use cns_server.Command.{CommandType, config, control, command_type_text, parse_command_type}

-- A text parses to a command type exactly when it is the text of this type.
pub parse_command_type_exact :
    (text : String) (t : CommandType)
    → (parse_command_type text ≡ ok t) ↔ (text ≡ command_type_text t)
unfolding parse_command_type command_type_text
parse_command_type_exact text config =
    (λ h. ground (arith, eq_iff text "config"), λ h. ground (arith, eq_iff text "config"))
parse_command_type_exact text control = (λ h. ground (arith, eq_iff text "control"), λ h. other h)
  where
    other : text ≡ "control" → parse_command_type text ≡ ok control
    other h = subst (λ x. parse_command_type x ≡ ok control) (sym h) refl
