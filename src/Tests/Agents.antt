-- ===== src/Tests/Agents.antt =====
-- cli_agent.rs and the colours at concrete inputs.
use bed_term.Prelude.{◌≡◌, refl, some, [], ◌∷◌, ◌++◌}
use bed_term.Prelude.Text.{codes}
use bed_term.CliAgent.{claude, command_prefix, is_whitespace, is_env_assignment, detect}
use bed_term.CliAgent.Tokens.{Spaced, spread, IsSpaced}
use bed_term.CliAgent.Detect.{detect-agent}

abbrev typed : Spaced
typed = (codes "FOO=1", codes " ") ∷ (codes "/bin/claude", codes "  ") ∷ (codes "-p", []) ∷ []

typed-IsSpaced : IsSpaced typed
unfolding is_whitespace
typed-IsSpaced = (
  ((refl, (refl, (refl, (refl, (refl, tt))))), λ e. cc),
  (refl, tt),
  λ e. cc,
  (
    (
      (refl, (refl, (refl, (refl, (refl, (refl, (refl, (refl, (refl, (refl, (refl, tt))))))))))),
      λ e. cc,
    ),
    (refl, (refl, tt)),
    λ e. cc,
    (((refl, (refl, tt)), λ e. cc), tt),
  ),
)

detect-agent_example : detect (codes " " ++ spread typed) ≡ some claude
detect-agent_example =
    detect-agent (codes " ") typed (codes "FOO=1" ∷ []) (codes "-p" ∷ []) (some (codes "/bin"))
      claude (unfold is_whitespace in (refl, tt)) typed-IsSpaced
      (unfold is_env_assignment in (refl, tt)) (unfold is_env_assignment command_prefix in refl)
      (unfold command_prefix in refl)
