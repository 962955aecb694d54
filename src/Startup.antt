-- ===== src/Startup.antt =====
-- How the program of src/main.rs starts: its arguments, the sources and the shared state that `main`
-- makes of them, and the key that it pins before the sources connect. The parser of the arguments
-- is clap's; the listeners and the routes are I/O.
pub mod Ids
pub mod Running
use hypeha.Base.{ℕ, suc, Bool, false, List, [], ◌∷◌, Option, none, some, ltb, if◌then◌else◌, Text}
use hypeha.SubKey.{SubKey}
use hypeha.Stats.{secs}
use hypeha.Hub.{Source, Client, AppState, new_source, new}
use hypeha.Hub.Registry.{pin}

pub record Args : Type 0 where
  pub sources : List Text
  pub listen : Text
  pub dashboard_listen : Text
  pub probe_coin : Text
  pub no_probe : Bool
  -- In seconds; zero means any age.
  pub max_age : ℕ

-- The sources in the order of the arguments, numbered from a first id on.
unfoldable pub number_sources : ℕ → List Text → List Source
number_sources id [] = []
number_sources id (url ∷ urls) = new_source id url ∷ number_sources (suc id) urls

-- `(args.max_age > 0).then(|| Duration::from_secs(args.max_age))`
unfoldable pub age_limit : ℕ → Option ℕ
age_limit seconds = if ltb 0 seconds then some (secs seconds) else none

module _ {Q : Type 0} where
  -- What stands in the heap where no client is.
  abbrev pub nobody : Q → ℕ → Client Q
  nobody q id = record {
    ip = [];
    queue = q;
    subscriptions = [];
    bytes_sent = 0;
    dropped = 0;
    connected_at = 0;
    kill = false;
  }

  -- The state that the sources and the listeners start with.
  unfoldable pub start_up : Q → ℕ → Args → AppState Q
  start_up q now args =
      let st = new (number_sources 0 args.sources) (age_limit args.max_age) (nobody q) in
      if args.no_probe then st else pin now (SubKey.bbo args.probe_coin) st
