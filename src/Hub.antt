-- ===== src/Hub.antt =====
-- `AppState`, `Source` and `Client`, from src/state.rs: the state that all tasks share.
--
-- A client is an `Arc<Client>` that the registry, the subscriber lists and the parked lists share:
-- here it is an id, and `heap` holds the one object behind each id. Its bounded queue is of a type
-- `Q`, with the channel's `try_send` taken as a parameter where something is sent. `kill` and
-- `reconnect` are true once `notify_one` was called. `ctrl` is what was sent to `ctrl_tx`, in
-- order. Log lines are left out.
pub mod Registry
pub mod Update
pub mod Recovery
pub mod Loss
pub mod Silence
pub mod Splice
pub mod Control
pub mod Reach
pub mod Distinct
pub mod Delivery
pub mod Late
pub mod Rebuild
pub mod Flight
pub mod Books
pub mod Interleaved
pub mod Overflow
pub mod Overtaken
pub mod Members
pub mod Erased
pub mod Queues
pub mod Feeds
use hypeha.Base.{
  ℕ, Bool, true, false, List, [], ◌∷◌, ◌++◌, map, Option, none, some, ◌==◌, if◌then◌else◌, add_u64,
  Text,
}
use hypeha.Base.KeyMap.{get, put}
use hypeha.SubKey.{SubKey, SubKey-discrete, SubRequest}
use hypeha.Stats.{SourceStats, default_stats}
use hypeha.Entry.{SubEntry, default_entry}

pub record Source : Type 0 where
  pub id : ℕ
  pub url : Text
  pub stats : SourceStats
  pub ctrl : List SubRequest
  pub reconnect : Bool

pub record Client (Q : Type 0) : Type 0 where
  pub ip : Text
  pub queue : Q
  pub subscriptions : List SubKey
  pub bytes_sent : ℕ
  pub dropped : ℕ
  pub connected_at : ℕ
  pub kill : Bool

pub record AppState (Q : Type 0) : Type 0 where
  pub max_age : Option ℕ
  pub sources : List Source
  pub subs : List (SubKey × SubEntry)
  pub clients : List ℕ
  pub heap : ℕ → Client Q
  pub next_client_id : ℕ

abbrev pub client_queue : ℕ
client_queue = 65536

-- A source as `main` makes it.
abbrev pub new_source : ℕ → Text → Source
new_source id url = record {
  id = id;
  url = url;
  stats = default_stats;
  ctrl = [];
  reconnect = false;
}

-- The entry of a key, or a fresh one: `subs.entry(key).or_default()`.
abbrev pub or_default : ℕ → Option SubEntry → SubEntry
or_default now none = default_entry now
or_default now (some e) = e

abbrev pub on_source : ℕ → (SourceStats → SourceStats) → Source → Source
on_source id f s = if s.id == id then record s { stats = f s.stats } else s

module _ {Q : Type 0} where
  abbrev pub find_entry : SubKey → AppState Q → Option SubEntry
  find_entry key st = get SubKey-discrete key st.subs

  abbrev pub entry_of : ℕ → SubKey → AppState Q → SubEntry
  entry_of now key st = or_default now (find_entry key st)

  abbrev pub put_entry : SubKey → SubEntry → AppState Q → AppState Q
  put_entry key e st = record st { subs = put SubKey-discrete key e st.subs }

  abbrev pub on_client : ℕ → (Client Q → Client Q) → (ℕ → Client Q) → ℕ → Client Q
  on_client id f heap i = if i == id then f (heap i) else heap i

  abbrev pub with_client : ℕ → (Client Q → Client Q) → AppState Q → AppState Q
  with_client id f st = record st { heap = on_client id f st.heap }

  abbrev pub hang_up : Client Q → Client Q
  hang_up c = record c { kill = true }

  abbrev pub drop_frame : Client Q → Client Q
  drop_frame c = record c { dropped = add_u64 c.dropped 1 }

  unfoldable pub new : List Source → Option ℕ → (ℕ → Client Q) → AppState Q
  new sources max_age heap = record {
    max_age = max_age;
    sources = sources;
    subs = [];
    clients = [];
    heap = heap;
    next_client_id = 1;
  }

  -- `register_client`; `channel` makes the queue of a capacity, and the counter wraps.
  unfoldable pub register_client : (ℕ → Q) → ℕ → Text → AppState Q → AppState Q × ℕ
  register_client channel now ip st =
      let id = st.next_client_id in
      let client : Client Q = record {
        ip = ip;
        queue = channel client_queue;
        subscriptions = [];
        bytes_sent = 0;
        dropped = 0;
        connected_at = now;
        kill = false;
      } in
      (
        record st {
          next_client_id = add_u64 id 1;
          heap = on_client id (λ _. client) st.heap;
          clients = st.clients ++ (id ∷ []);
        },
        id,
      )

  abbrev pub with_source : ℕ → (SourceStats → SourceStats) → AppState Q → AppState Q
  with_source id f st = record st { sources = map (on_source id f) st.sources }
