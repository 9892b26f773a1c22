-- ===== src/Boot/Outcome.antt =====
-- When the process starts, and from what.
use helius.Common.{
  ℕ, String, true, not, Option, some, List, ◌≡◌, ◌↔◌, refl, ap, sym, subst, ◌∙◌, arith,
  if◌then◌else◌, Option-cases, Bool-cases, inl, inr,
}
use helius.Config.{Config, IsUsable, validate_iff}
use helius.Config.Load.{Loading, loaded, not_extracted, invalid, checked, load}
use helius.Metrics.{Event}
use helius.Credits.{from_config as costs_from_config}
use helius.Pool.{from_config as pool_from_config}
use helius.Stats.{new_stats}
use helius.Persistence.{restore_into}
use helius.Proxy.{AppState, new_state}
use helius.Boot.Start.{
  Cli, config_path, override_path, Boot, booted, refused, Outside, parsed_state, new, no_recorder,
  no_client, after_restore, restored, start, boot,
}
use helius.Boot.Choices.{
  IsConfigPath, IsInForce, config_path_iff, override_path_iff, checked_sound, checked_complete,
}

module _ {Limiter Url : Type 0} (out : Outside Limiter Url) where
  -- The state that a configuration and its parsed base make: the keys and the costs of the configuration,
  -- and the pool and the statistics that the snapshot at its path is restored into.
  abbrev pub first_state :
      (cur_month cur_day : ℕ) → Config → Url → AppState Limiter Url × List Event
  first_state cur_month cur_day config base =
      let keys = pool_from_config out.governor config.upstreams config.rps in
      let (pool, stats, events) =
        restore_into out.from_slice (out.read config.persistence.path) cur_month cur_day keys
          new_stats config.persistence in
      (
        record {
          config = config;
          upstream_base = base;
          pool = pool;
          costs = costs_from_config config.costs;
          stats = stats;
        },
        events,
      )

  -- What a start with a configuration in force needs, and what it gives.
  pub record HasStarted (cur_month cur_day : ℕ) (config : Config)
      (r : AppState Limiter Url × List Event) : Type 0 where
    pub base : Url
    pub recorder : out.has_recorder ≡ true
    pub client : out.builds_client config.gateway.request_timeout_ms ≡ true
    pub parsed : out.parse config.gateway.upstream_base ≡ some base
    pub gives : r ≡ first_state cur_month cur_day config base

  new_sound :
      (config : Config) (app : AppState Limiter Url)
      → new out config ≡ booted app
      → (base : Url) × (out.builds_client config.gateway.request_timeout_ms ≡ true)
        × (out.parse config.gateway.upstream_base ≡ some base)
        × (app ≡ new_state out.governor config base)
  unfolding new parsed_state
  new_sound config app h = elim (Bool-cases (out.builds_client config.gateway.request_timeout_ms)) [
    | inl built ↦ elim (Option-cases (out.parse config.gateway.upstream_base)) [
      | inl unparsed ↦ absurd (ground arith)
      | inr (base, parsed) ↦ (base, built, parsed, ground arith)
    ]
    | inr unbuilt ↦ absurd (ground arith)
  ]

  restored_sound :
      (cur_month cur_day : ℕ) (b : Boot (AppState Limiter Url))
      (r : AppState Limiter Url × List Event)
      → restored out cur_month cur_day b ≡ booted r
      → (app : AppState Limiter Url) × (b ≡ booted app)
        × (r ≡ after_restore out cur_month cur_day app)
  unfolding restored
  restored_sound cur_month cur_day (refused e) r h = absurd (ground arith)
  restored_sound cur_month cur_day (booted app) r h = (app, refl, cc)

  start_sound :
      (state : Option String) (cur_month cur_day : ℕ) (l : Loading)
      (r : AppState Limiter Url × List Event)
      → start out state cur_month cur_day l ≡ booted r
      → (config : Config) × (l ≡ loaded config)
        × HasStarted cur_month cur_day (override_path state config) r
  unfolding start after_restore new_state
  start_sound state cur_month cur_day not_extracted r h = absurd (ground arith)
  start_sound state cur_month cur_day (invalid e) r h = absurd (ground arith)
  start_sound state cur_month cur_day (loaded config) r h = elim (Bool-cases out.has_recorder) [
    | inl recorder ↦
        let set = override_path state config in
        let (app, made, gives) = restored_sound cur_month cur_day (new out set) r (ground arith) in
        let (base, client, parsed, is) = new_sound set app made in
        (
          config,
          refl,
          record {
            base = base;
            recorder = recorder;
            client = client;
            parsed = parsed;
            gives = gives ∙ ap (after_restore out cur_month cur_day) is;
          },
        )
    | inr unrecorded ↦ absurd (ground arith)
  ]

  start_complete :
      (state : Option String) (cur_month cur_day : ℕ) (config : Config)
      (r : AppState Limiter Url × List Event)
      → HasStarted cur_month cur_day (override_path state config) r
      → start out state cur_month cur_day (loaded config) ≡ booted r
  unfolding start new parsed_state restored after_restore new_state
  start_complete state cur_month cur_day config r h =
      let set = override_path state config in
      ap (λ b. if not b then refused no_recorder else restored out cur_month cur_day (new out set))
        h.recorder
      ∙ ap
          (λ b. restored out cur_month cur_day (
            if not b
            then refused no_client
            else parsed_state out set (out.parse set.gateway.upstream_base)))
          h.client
      ∙ ap (λ o. restored out cur_month cur_day (parsed_state out set o)) h.parsed
      ∙ ap booted (sym h.gives)

pub boot_by_path :
    {Limiter Url : Type 0} (out : Outside Limiter Url) (cli : Cli) (env : Option String)
    (cur_month cur_day : ℕ) (r : AppState Limiter Url × List Event)
    → (boot out cli env cur_month cur_day ≡ booted r) ↔ (
        (config : Config) × (out.extract (config_path cli env) ≡ some config)
        × IsUsable config
        × HasStarted out cur_month cur_day (override_path cli.state config) r)
unfolding boot load
boot_by_path out cli env cur_month cur_day r = (
  λ h.
      let (config, found, started) =
        start_sound out cli.state cur_month cur_day (checked (out.extract (config_path cli env))) r
          h in
      let (extracted, valid) = checked_sound (out.extract (config_path cli env)) config found in
      (config, extracted, (validate_iff config).0 valid, started),
  λ (config, extracted, usable, started).
      ap (start out cli.state cur_month cur_day) (
        checked_complete (out.extract (config_path cli env)) config extracted
          ((validate_iff config).1 usable))
      ∙ start_complete out cli.state cur_month cur_day config r started,
)

-- The process comes to start its background tasks, before it binds its listener, exactly when a
-- configuration is extracted from the path of `--config`, else of NINEHELIUS_CONFIG, else config.toml, and
-- it passes `validate`, the recorder and the client are built, and the upstream base parses. Then its state
-- has that configuration, with the snapshot path of `--state` in place of the configured one where it is
-- given, its costs, and the pool and statistics that `restore_into` makes of its keys, of new statistics
-- and of what is read at that path.
pub boot_iff :
    {Limiter Url : Type 0} (out : Outside Limiter Url) (cli : Cli) (env : Option String)
    (cur_month cur_day : ℕ) (r : AppState Limiter Url × List Event)
    → (boot out cli env cur_month cur_day ≡ booted r) ↔ (
        (path : String) × (config : Config) × (set : Config) × IsConfigPath cli env path
        × (out.extract path ≡ some config)
        × IsUsable config
        × IsInForce cli.state config set
        × HasStarted out cur_month cur_day set r)
boot_iff out cli env cur_month cur_day r = (
  λ h.
      let (config, extracted, usable, begun) = (boot_by_path out cli env cur_month cur_day r).0 h in
      (
        config_path cli env,
        config,
        override_path cli.state config,
        (config_path_iff cli env (config_path cli env)).1 refl,
        extracted,
        usable,
        (override_path_iff cli.state config (override_path cli.state config)).1 refl,
        begun,
      ),
  λ (path, config, set, at, extracted, usable, in_force, begun).
      let is_path = (config_path_iff cli env path).0 at in
      let is_set = (override_path_iff cli.state config set).0 in_force in
      (boot_by_path out cli env cur_month cur_day r).1 (
        config,
        sym (ap out.extract is_path) ∙ extracted,
        usable,
        subst (λ c. HasStarted out cur_month cur_day c r) is_set begun,
      ),
)
