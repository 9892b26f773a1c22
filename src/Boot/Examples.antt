-- ===== src/Boot/Examples.antt =====
-- Tests and instances for src/main.rs.
mod Restart
use helius.Common.{
  ℕ, String, Bool, true, false, Option, none, some, List, [], ◌∷◌, ◌++◌, ◌≡◌, refl, ap, sym, ◌∙◌,
  arith, ◌==◌, string_eq, Any, if◌then◌else◌, inl,
}
use helius.Common.Map.{Map}
use mathlib.Core.Option.{some-injective}
use text.Mathlib.TextEquality.{eq_iff}
use helius.Config.{
  Config, default_persistence, default_upstream_base, default_request_timeout_ms,
  default_max_body_bytes, default_costs, default_rps, IsUsable, validate, validate_upstream,
  validate_upstreams, validate_iff,
}
use helius.Metrics.{Event}
use helius.Ratelimit.Counting.{counting}
use helius.Stats.{MonthlyRecord, DailyRecord}
use helius.Persistence.Snapshot.{Snapshot, UpstreamSnap, Loaded, not_found, snapshot}
use helius.Persistence.{Disk, read_from, perform_all}
use helius.Proxy.{Http, Libraries, AppState, Incoming}
use helius.Serving.System.{System}
use helius.Boot.Start.{Cli, config_path, override_path, booted, Outside, boot}
use helius.Boot.Background.{period, IsPinger, spawned, spawned-period}
use helius.Boot.Choices.{IsConfigPath, IsInForce}
use helius.Boot.Outcome.{HasStarted, first_state, boot_iff, boot_by_path}
use helius.Boot.Life.{
  Setting, IsSound, Life, off, started, saved, cut_off, died, found_on, snap_at, saves,
}
use helius.Boot.Durable.{found-Life}

abbrev Location : Type 0
Location = String × List (String × String)

abbrev config : Config
config = record {
  gateway = record {
    bind = "0.0.0.0:8080";
    api_key = "sesame";
    upstream_base = default_upstream_base;
    request_timeout_ms = default_request_timeout_ms;
    max_retries = 2;
    max_body_bytes = default_max_body_bytes;
    keepalive_secs = 30;
  };
  persistence = default_persistence;
  costs = default_costs;
  rps = default_rps;
  upstreams = record { name = "a"; api_key = "k1"; credit_cap = 100; enabled = true } ∷ [];
}

config-IsUsable : IsUsable config
unfolding validate validate_upstreams validate_upstream
config-IsUsable = (validate_iff config).0 refl

-- A codec for the snapshots of one key that is called a, without methods and history.
encoded :
    (version epoch_yyyymm saved_at_ms all_exhausted current_day : ℕ)
    → List UpstreamSnap
    → Map String ℕ
    → List MonthlyRecord
    → List DailyRecord
    → Option (List ℕ)
encoded v e t x d (u ∷ []) [] [] [] =
    if u.name == "a"
    then some (
        v ∷ e ∷ t ∷ x ∷ d ∷ u.credits_used ∷ u.credits_total ∷ u.requests_ok
        ∷ u.requests_rate_limited ∷ u.requests_error ∷ u.rate_limit_hits ∷ u.day_start_total ∷ [])
    else none
encoded v e t x d _ _ _ _ = none

to_vec : Snapshot → Option (List ℕ)
to_vec s =
    encoded s.version s.epoch_yyyymm s.saved_at_ms s.all_exhausted s.current_day s.upstreams
      s.methods s.history s.daily_history

from_slice : List ℕ → Option Snapshot
from_slice (v ∷ e ∷ t ∷ x ∷ d ∷ used ∷ total ∷ good ∷ limited ∷ failed ∷ hits ∷ start ∷ []) =
    some (record {
      version = v;
      epoch_yyyymm = e;
      saved_at_ms = t;
      upstreams =
          record {
            name = "a";
            credits_used = used;
            credits_total = total;
            requests_ok = good;
            requests_rate_limited = limited;
            requests_error = failed;
            rate_limit_hits = hits;
            day_start_total = start;
          }
          ∷ [];
      all_exhausted = x;
      methods = [];
      history = [];
      current_day = d;
      daily_history = [];
    })
from_slice _ = none

abbrev http : Http Location
http = record {
  to_str = λ b. some "sesame";
  form_parse = λ q. ("api-key", q) ∷ [];
  set_path = λ path url. (path, url.1);
  clear = λ url. (url.0, []);
  append_pair = λ k v url. (url.0, url.1 ++ (k, v) ∷ []);
}

abbrev setting : Setting ℕ Location
setting = record {
  lib = record {
    governor = counting;
    http = http;
    serde = record { calls_from_slice = λ body. none; call_from_slice = λ body. none };
    peek = λ body. none;
  };
  out = record {
    extract = λ path. some config;
    has_recorder = true;
    builds_client = λ timeout_ms. true;
    parse = λ text. some ("/", []);
    governor = counting;
    read = λ path. not_found;
    from_slice = from_slice;
  };
  paths = record { parent = λ path. none; json_tmp = λ path. "s.json.tmp" };
  to_vec = to_vec;
  cli = record { config = none; state = some "s.json" };
  env = none;
  config = config;
}

named_a :
    (v e t x d : ℕ) (u : UpstreamSnap) (b : List ℕ) (named : Bool)
    → (u.name == "a") ≡ named
    → encoded v e t x d (u ∷ []) [] [] [] ≡ some b
    → from_slice b
      ≡ some (record {
        version = v;
        epoch_yyyymm = e;
        saved_at_ms = t;
        upstreams = u ∷ [];
        all_exhausted = x;
        methods = [];
        history = [];
        current_day = d;
        daily_history = [];
      })
unfolding encoded from_slice
named_a v e t x d u b true same h =
    let numbers : List ℕ =
      (v ∷ e ∷ t ∷ x ∷ d ∷ u.credits_used ∷ u.credits_total ∷ u.requests_ok
        ∷ u.requests_rate_limited ∷ u.requests_error ∷ u.rate_limit_hits ∷ u.day_start_total
        ∷ []) in
    let is = some-injective numbers b (sym (ap (λ c. if c then some numbers else none) same) ∙ h) in
    ap from_slice (sym is)
    ∙ ap
        (λ n. some (record {
          version = v;
          epoch_yyyymm = e;
          saved_at_ms = t;
          upstreams = record u { name = n } ∷ [];
          all_exhausted = x;
          methods = [];
          history = [];
          current_day = d;
          daily_history = [];
        }))
        (sym ((eq_iff u.name "a").0 same))
named_a v e t x d u b false other h = absurd (ground arith)

encoded_back :
    (v e t x d : ℕ) (us : List UpstreamSnap) (ms : Map String ℕ) (hs : List MonthlyRecord)
    (ds : List DailyRecord) (b : List ℕ)
    → encoded v e t x d us ms hs ds ≡ some b
    → from_slice b
      ≡ some (record {
        version = v;
        epoch_yyyymm = e;
        saved_at_ms = t;
        upstreams = us;
        all_exhausted = x;
        methods = ms;
        history = hs;
        current_day = d;
        daily_history = ds;
      })
unfolding encoded
encoded_back v e t x d [] ms hs ds b h = absurd (ground arith)
encoded_back v e t x d (u ∷ w ∷ us) ms hs ds b h = absurd (ground arith)
encoded_back v e t x d (u ∷ []) (m ∷ ms) hs ds b h = absurd (ground arith)
encoded_back v e t x d (u ∷ []) [] (r ∷ hs) ds b h = absurd (ground arith)
encoded_back v e t x d (u ∷ []) [] [] (r ∷ ds) b h = absurd (ground arith)
encoded_back v e t x d (u ∷ []) [] [] [] b h = named_a v e t x d u b (u.name == "a") refl h

setting-IsSound : IsSound setting
unfolding to_vec override_path
setting-IsSound = record {
  decodes = λ s b h.
      encoded_back s.version s.epoch_yyyymm s.saved_at_ms s.all_exhausted s.current_day s.upstreams
        s.methods s.history s.daily_history b h;
  apart = refl;
  extracted = refl;
}

-- The state of a first start, in March.
abbrev in_march : AppState ℕ Location × List Event
in_march =
    first_state (record setting.out { read = read_from (λ path. none) }) 202603 20260305
      (override_path (some "s.json") config) ("/", [])

abbrev empty_disk : Disk
empty_disk path = none

starts :
    boot (record setting.out { read = read_from empty_disk }) setting.cli none 202603 20260305
    ≡ booted in_march
starts =
    (boot_by_path (record setting.out { read = read_from empty_disk }) setting.cli none 202603
        20260305 in_march).1
      (
        config,
        refl,
        config-IsUsable,
        record { base = ("/", []); recorder = refl; client = refl; parsed = refl; gives = refl },
      )

abbrev serving : System ℕ Location
serving = record { app = in_march.0; tasks = [] }

bundle : Unit {0}
unfolding to_vec encoded override_path helius.Persistence.Snapshot.capture
    helius.Persistence.Snapshot.snap_of helius.Boot.Start.after_restore
    helius.Persistence.restore_into helius.Persistence.restore_loaded
    helius.Persistence.Snapshot.load helius.Persistence.start_empty helius.Upstream.restore_monthly
    helius.Upstream.start_new_day helius.Proxy.new_state helius.Pool.from_config
    helius.Upstream.from_config helius.Boot.Background.save_snapshot helius.Persistence.save
    helius.Persistence.make_parent helius.Persistence.write_out
    helius.Persistence.replay_to_prometheus
bundle = tt

-- The disk after the first save.
abbrev saved_disk : Disk
saved_disk = perform_all (saves setting 7 serving) empty_disk

-- A start, a save, and a crash when the next save is about to begin.
one_life :
    Life setting empty_disk none saved_disk
      (snapshot (snap_at setting 9 serving) ∷ snapshot (snap_at setting 7 serving) ∷ [])
unfolding bundle
one_life = died (
    cut_off
      (saved (started off 202603 20260305 in_march.0 in_march.1 starts) 7
        (3 ∷ 202603 ∷ 7 ∷ 0 ∷ 20260305 ∷ 0 ∷ 0 ∷ 0 ∷ 0 ∷ 0 ∷ 0 ∷ 0 ∷ []) refl)
      9 saved_disk (inl refl))

found-Life_example :
    Any
      (λ found. found_on setting saved_disk ≡ found)
      (snapshot (snap_at setting 9 serving) ∷ snapshot (snap_at setting 7 serving) ∷ [])
found-Life_example =
    found-Life setting empty_disk saved_disk none
      (snapshot (snap_at setting 9 serving) ∷ snapshot (snap_at setting 7 serving) ∷ [])
      setting-IsSound one_life

boot_iff_example :
    (path : String) × (c : Config) × (set : Config) × IsConfigPath setting.cli none path
    × (setting.out.extract path ≡ some c)
    × IsUsable c
    × IsInForce setting.cli.state c set
    × HasStarted (record setting.out { read = read_from empty_disk }) 202603 20260305 set in_march
boot_iff_example =
    (boot_iff (record setting.out { read = read_from empty_disk }) setting.cli none 202603 20260305
        in_march).0
      starts
