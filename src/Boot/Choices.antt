-- ===== src/Boot/Choices.antt =====
-- What the flags and the configuration of src/main.rs come to.
use helius.Common.{
  String, Option, none, some, ◌≡◌, ◌↔◌, refl, ap, sym, subst, ◌∙◌, arith, Option-cases, ◌⊎◌, inl,
  inr,
}
use mathlib.Core.Option.{some-injective}
use helius.Config.{Config, ConfigError, validate}
use helius.Config.Load.{Loading, loaded, invalid, checked}
use helius.Boot.Start.{Cli, config_path, override_path, or_else, unwrap_or}

abbrev of_test : Config → Option ConfigError → Loading
of_test c none = loaded c
of_test c (some e) = invalid e

loaded-injective : (c d : Config) → loaded c ≡ loaded d → c ≡ d
loaded-injective c d h = cc

apart : (e : ConfigError) (c : Config) → ¬ (invalid e ≡ loaded c)
apart e c h = absurd (ground arith)

-- The path of `--config`, else that of NINEHELIUS_CONFIG, else config.toml.
abbrev pub IsConfigPath : Cli → (env : Option String) → (path : String) → Type 0
IsConfigPath cli env path =
    (cli.config ≡ some path)
    ⊎ ((cli.config ≡ none) × ((env ≡ some path) ⊎ ((env ≡ none) × (path ≡ "config.toml"))))

-- The configuration as it is, or with the snapshot path of `--state` and nothing else changed.
abbrev pub IsInForce : (state : Option String) → (config set : Config) → Type 0
IsInForce state config set =
    ((state ≡ none) × (set ≡ config))
    ⊎ ((path : String) × (state ≡ some path)
        × (set ≡ record config { persistence = record config.persistence { path = path } }))

first_path_iff :
    (flag env : Option String) (path : String)
    → ((flag ≡ some path)
        ⊎ ((flag ≡ none) × ((env ≡ some path) ⊎ ((env ≡ none) × (path ≡ "config.toml")))))
      ↔ (path ≡ unwrap_or "config.toml" (or_else flag env))
first_path_iff none none path = ground arith
first_path_iff none (some a) path = ground arith
first_path_iff (some a) env path = ground arith

pub config_path_iff :
    (cli : Cli) (env : Option String) (path : String)
    → IsConfigPath cli env path ↔ (path ≡ config_path cli env)
unfolding config_path
config_path_iff cli env path = first_path_iff cli.config env path

pub override_path_iff :
    (state : Option String) (config set : Config)
    → IsInForce state config set ↔ (set ≡ override_path state config)
unfolding override_path
override_path_iff none config set = ground arith
override_path_iff (some path) config set = (
  λ h. elim h [
    | inl (missing, _) ↦ absurd (ground arith)
    | inr (p, given, is) ↦
        is
        ∙ ap (λ q. record config { persistence = record config.persistence { path = q } })
            (sym (some-injective path p given))
  ],
  λ is. inr (path, refl, is),
)

pub checked_sound :
    (c : Option Config) (config : Config)
    → checked c ≡ loaded config
    → (c ≡ some config) × (validate config ≡ none)
unfolding checked
checked_sound none config h = absurd (ground arith)
checked_sound (some c) config h = elim (Option-cases (validate c)) [
  | inl valid ↦
      let same = loaded-injective c config (sym (ap (λ o. of_test c o) valid) ∙ h) in
      (ap some same, subst (λ d. validate d ≡ none) same valid)
  | inr (e, wrong) ↦ absurd (apart e config (sym (ap (λ o. of_test c o) wrong) ∙ h))
]

pub checked_complete :
    (c : Option Config) (config : Config)
    → c ≡ some config
    → validate config ≡ none
    → checked c ≡ loaded config
unfolding checked
checked_complete c config e valid = ap checked e ∙ ap (λ o. of_test config o) valid
