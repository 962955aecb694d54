-- ===== src/Hub/Late.antt =====
-- A frame that comes after the last client of its key has left.
use hypeha.Base.{
  ℕ, ◌<◌, ◌≤◌, ◌≡◌, refl, ◌∙◌, ap, sym, subst, false, [], ◌∷◌, Option, none, some, arith, Text,
  if_pos, if_cases,
}
use hypeha.Base.KeyMap.{get-put}
use hypeha.SubKey.{SubKey, SubKey-discrete}
use hypeha.Entry.{SubEntry, Seq, arbitrate, hold, on_point, default_entry}
use hypeha.Hub.{AppState, find_entry, entry_of, put_entry, with_client}
use hypeha.Hub.Registry.{
  SubscribeOutcome, subscribe, join_entry, holds_key, add_key, broadcast_ctrl,
}
use hypeha.Hub.Update.{on_update, update_entry}

late_entry :
    (key : SubKey) (src v now : ℕ) (payload : Text)
    → 0 < v
    → let e = (update_entry key src (Seq.point v) now payload (default_entry now)).0 in
      (e.last ≡ v) × (e.upstream_subscribed ≡ false) × (e.subscribers ≡ [])
unfolding update_entry arbitrate on_point hold
late_entry key src v now payload h = ground arith

made-entry :
    {Q : Type 0} (try_send : Q → Text → Option Q) (src v now : ℕ) (key : SubKey) (payload : Text)
    (st : AppState Q)
    → find_entry key st ≡ none
    → find_entry key (on_update try_send src key (Seq.point v) now payload st)
      ≡ some (update_entry key src (Seq.point v) now payload (default_entry now)).0
unfolding on_update
made-entry try_send src v now key payload st missing =
    let made = (update_entry key src (Seq.point v) now payload (entry_of now key st)).0 in
    get-put SubKey-discrete key key made st.subs
    ∙ rw missing (if_pos (SubKey-discrete key key) refl _ _)

-- The first client of a key that has an entry, with nobody on it.
join-stamp :
    (key : SubKey) (id : ℕ) (e : SubEntry)
    → e.upstream_subscribed ≡ false
    → e.subscribers ≡ []
    → ((join_entry key id e).last ≡ e.last) × ((join_entry key id e).subscribers ≡ id ∷ [])
unfolding join_entry
join-stamp key id e quiet empty = rw (quiet, empty) (refl, refl)

old_stamp :
    (key : SubKey) (src w now : ℕ) (e : SubEntry)
    → w ≤ e.last
    → (arbitrate key src (Seq.point w) now e).1.deliver ≡ false
unfolding arbitrate on_point
old_stamp key src w now e h = ground arith

module _ {Q : Type 0} where
  subscribe-entry :
      (now id : ℕ) (key : SubKey) (st : AppState Q) (e : SubEntry)
      → find_entry key st ≡ some e
      → holds_key key (st.heap id).subscriptions ≡ false
      → find_entry key (subscribe now id key st).0 ≡ some (join_entry key id e)
  unfolding subscribe broadcast_ctrl
  subscribe-entry now id key st e found free =
      let same : entry_of now key st ≡ e = rw found refl in
      let joining : AppState Q =
        put_entry key (join_entry key id (entry_of now key st)) (with_client id (add_key key) st) in
      let P =
        λ (r : AppState Q × SubscribeOutcome). find_entry key r.0 ≡ some (join_entry key id e) in
      let after : find_entry key joining ≡ some (join_entry key id e) =
        get-put SubKey-discrete key key (join_entry key id (entry_of now key st)) st.subs
        ∙ if_pos (SubKey-discrete key key) refl _ _
        ∙ ap (λ (d : SubEntry). some (join_entry key id d)) same in
      if_cases P (holds_key key (st.heap id).subscriptions) (λ held. cc (free, held))
        (λ joins.
          if_cases P (entry_of now key st).upstream_subscribed (λ old. after) (λ new. after))

  -- A frame with a stamp above zero, of a `Point` key that has no entry, makes one with that stamp,
  -- with no subscriber and not subscribed upstream. A client that does not hold the key and
  -- subscribes after that is the only one attached to an entry with the same stamp, and a frame of
  -- any source with that stamp or an older one does not go out to it.
  pub late_frame_keeps_stamp :
      (try_send : Q → Text → Option Q) (src v now : ℕ) (key : SubKey) (payload : Text)
      (st : AppState Q) (id then_at src' w later : ℕ)
      → find_entry key st ≡ none
      → 0 < v
      → holds_key key
          ((on_update try_send src key (Seq.point v) now payload st).heap id).subscriptions
        ≡ false
      → w ≤ v
      → let made = on_update try_send src key (Seq.point v) now payload st in
        let joined = (subscribe then_at id key made).0 in
        (e : SubEntry) × (e' : SubEntry) × (find_entry key made ≡ some e)
        × (e.last ≡ v)
        × (e.upstream_subscribed ≡ false)
        × (e.subscribers ≡ [])
        × (find_entry key joined ≡ some e')
        × (e'.last ≡ v)
        × (e'.subscribers ≡ id ∷ [])
        × ((arbitrate key src' (Seq.point w) later e').1.deliver ≡ false)
  late_frame_keeps_stamp try_send src v now key payload st id then_at src' w later missing pos free
        old =
      let e = (update_entry key src (Seq.point v) now payload (default_entry now)).0 in
      let made = on_update try_send src key (Seq.point v) now payload st in
      let (stamped, quiet, empty) = late_entry key src v now payload pos in
      let found : find_entry key made ≡ some e =
        made-entry try_send src v now key payload st missing in
      let (same, alone) = join-stamp key id e quiet empty in
      (
        e,
        join_entry key id e,
        found,
        stamped,
        quiet,
        empty,
        subscribe-entry then_at id key made e found free,
        same ∙ stamped,
        alone,
        old_stamp key src' w later (join_entry key id e)
            (subst (λ n. w ≤ n) (sym (same ∙ stamped)) old),
      )
