-- ===== src/Router/Examples.antt =====
-- Tests and instances for the routes of src/lib.rs.
use helius.Common.{
  ℕ, Bool, ltb, List, length, String, true, false, Option, none, some, ◌≡◌, refl, if◌then◌else◌,
  string_eq,
}
use helius.Common.Map.{lookup}
use helius.Proxy.{Incoming}
use helius.Proxy.Examples.{libraries, turns, request, state}
use helius.Router.{
  Extract, Extracted, extracted, rejected, default_body_limit, Handler, Router, Dispatch, is_read,
  method_not_allowed, Readings, serve,
}

by_table : String → Router → Option Handler → Option Handler
by_table method r none = some r.fallback
by_table method r (some h) = if is_read method then some h else none

dispatch : Dispatch
dispatch r method path = by_table method r (lookup path r.routes)

by_size : Bool → List ℕ → Extracted
by_size true body = rejected 413
by_size false body = extracted body

extract : Extract
extract req = by_size (ltb default_body_limit (length req.body)) req.body

abbrev readings : Readings
readings = record {
  started_at = 0;
  now_utc = 5_000_000_000;
  now_ms = 5_000;
  rendered = "# metrics";
}

abbrev keyless : Incoming
keyless = record request { uri = record { path = "/stats"; query = none } }

post_to_stats :
    (serve libraries turns readings extract keyless dispatch state).0 ≡ method_not_allowed
unfolding serve dispatch by_table lookup
post_to_stats = refl
