-- ===== src/LoadTest/Carried.antt =====
-- What the streams of the load test record of a message stays: the loop of `run_stream`, of
-- src/bin/loadtest.rs.
use hypeha.Base.{
  option_cases, ℕ, ◌<◌, ◌≡◌, refl, sym, ◌∙◌, subst, Bool, true, false, List, [], ◌∷◌, Option, none,
  some, leb, get_or, Text, if_cases, arith, ℕ_discrete, not, ◌&&◌, ◌||◌,
}
use hypeha.Base.KeyMap.{get}
use hypeha.SubKey.{SubKey, label}
use hypeha.Entry.{Seq}
use hypeha.Upstream.{Frame, route, strip_prefix}
use hypeha.LoadTest.Sweep.{is_young, Seen, Setup, Blocks, max_slots}
use hypeha.LoadTest.Passes.{is_lost}
use hypeha.LoadTest.Arrivals.{
  Stream, Shared, StreamCtx, Moment, ReadResult, Turn, Both, compare_frame, take_frame, take_text,
  handle_read, listen, error_prefix, index_of, count_busy, go_on,
}
use hypeha.LoadTest.Marks.{
  FirstSeen, IsSound, compare_frame-FirstSeen, compare_frame-IsSound, compare_frame-marks,
}

-- What holds of the shared maps after a step, if the step does not panic.
abbrev Kept : (Shared → Type 0) → Option Both → Type 0
Kept Q o = (after : Both) → o ≡ some after → Q after.1

Kept-some : (Q : Shared → Type 0) (both : Both) → Q both.1 → Kept Q (some both)
Kept-some Q both q after is = subst Q {x = both.1} {y = after.1} (cc) q

Kept-none : (Q : Shared → Type 0) → Kept Q none
Kept-none Q after is = cc

-- What every message keeps, the whole loop keeps.
module _ (parse : Text → Option Frame) (hash_of : Text → ℕ) (index scale : ℕ → ℕ)
    (Q : Shared → Type 0)
    (kept : (ctx : StreamCtx) (m : Moment) (hash key : ℕ) (seq : Seq) (age : Option ℕ) (sh : Shared)
      → Q sh
      → Q (compare_frame ctx m hash key seq age sh)) where
  take_frame-Kept :
      (ctx : StreamCtx) (m : Moment) (text : Text) (routed : SubKey × Seq) (both : Both)
      → Q both.1
      → Kept Q (take_frame parse hash_of index scale ctx m text routed both)
  unfolding take_frame
  take_frame-Kept ctx m text (key, seq) (s, sh) q =
      option_cases (Kept Q) (label key) (Kept-none Q)
        (λ name. Kept-some Q _ (kept ctx m (hash_of text) (index_of ctx name) seq _ sh q))

  take_text-Kept :
      (ctx : StreamCtx) (m : Moment) (text : Text) (both : Both)
      → Q both.1
      → Kept Q (take_text parse hash_of index scale ctx m text both)
  unfolding take_text
  take_text-Kept ctx m text (s, sh) q =
      option_cases (Kept Q) (strip_prefix error_prefix text)
        (option_cases (Kept Q) (parse text) (Kept-some Q (s, sh) q) (λ frame.
          option_cases (Kept Q) (route frame) (Kept-some Q (s, sh) q)
            (λ routed. take_frame-Kept ctx m text routed (s, sh) q)))
        (λ rest. Kept-some Q _ q)

  count_busy-Kept :
      (spent : ℕ) (o : Option Both)
      → Kept Q o
      → Kept Q (count_busy parse hash_of index scale spent o)
  count_busy-Kept spent none h = h
  count_busy-Kept spent (some (s, sh)) h = Kept-some Q _ (h (s, sh) refl)

  handle_read-Kept :
      (is_early : ℕ → Bool) (ctx : StreamCtx) (m : Moment) (r : ReadResult) (both : Both)
      → Q both.1
      → Kept Q (handle_read parse hash_of index scale is_early ctx m r both).0
  unfolding handle_read
  handle_read-Kept is_early ctx m (ReadResult.message text) both q =
      count_busy-Kept m.spent (take_text parse hash_of index scale ctx m text both)
        (take_text-Kept ctx m text both q)
  handle_read-Kept is_early ctx m ReadResult.other both q = Kept-some Q both q
  handle_read-Kept is_early ctx m (ReadResult.failed reason) (s, sh) q = Kept-some Q _ q
  handle_read-Kept is_early ctx m ReadResult.closed (s, sh) q = Kept-some Q _ q
  handle_read-Kept is_early ctx m ReadResult.timed_out both q = Kept-some Q both q

  go_on-Kept :
      (rest : Both → Option Both) (o : Option Both) (more : Bool)
      → ((both : Both) → Q both.1 → Kept Q (rest both))
      → Kept Q o
      → Kept Q (go_on rest (o, more))
  go_on-Kept rest none more h q = q
  go_on-Kept rest (some both) true h q = h both (q both refl)
  go_on-Kept rest (some both) false h q = q

  listen-Kept :
      (is_early : ℕ → Bool) (deadline : ℕ) (ctx : StreamCtx) (turns : List Turn) (both : Both)
      → Q both.1
      → Kept Q (listen parse hash_of index scale is_early deadline ctx turns both)
  unfolding listen
  listen-Kept is_early deadline ctx [] both q = Kept-some Q both q
  listen-Kept is_early deadline ctx (turn ∷ turns) both q =
      if_cases (Kept Q) (turn.stopped || leb deadline turn.asked_at) (λ _. Kept-some Q both q)
        (λ _.
          go_on-Kept _
            (handle_read parse hash_of index scale is_early ctx turn.moment turn.received both).0
            (handle_read parse hash_of index scale is_early ctx turn.moment turn.received both).1
            (λ more. listen-Kept is_early deadline ctx turns more)
            (handle_read-Kept is_early ctx turn.moment turn.received both q))

module _ (parse : Text → Option Frame) (hash_of : Text → ℕ) (index scale : ℕ → ℕ)
    (is_early : ℕ → Bool) (deadline : ℕ) (ctx : StreamCtx) (turns : List Turn)
    (both after : Both) where
  listen-IsSound :
      listen parse hash_of index scale is_early deadline ctx turns both ≡ some after
      → IsSound both.1
      → IsSound after.1
  listen-IsSound listened sound =
      listen-Kept parse hash_of index scale IsSound
        (λ c m hash key seq age sh h. compare_frame-IsSound c m hash key seq age sh h) is_early
        deadline ctx turns both sound after listened

  listen-FirstSeen :
      (slot hash t : ℕ)
      → listen parse hash_of index scale is_early deadline ctx turns both ≡ some after
      → FirstSeen slot hash t both.1
      → FirstSeen slot hash t after.1
  listen-FirstSeen slot hash t listened = λ seen.
      listen-Kept parse hash_of index scale (FirstSeen slot hash t)
        (λ c m new key seq age sh h. compare_frame-FirstSeen c m new key seq age slot hash t sh h)
        is_early deadline ctx turns both seen after listened

and_false : (b : Bool) → (b && false) ≡ false
and_false true = refl
and_false false = refl

seen-is_lost :
    (s : Setup) (now : ℕ) (blocks : Blocks) (maxes : List ℕ) (e : Seen) (t : ℕ)
    → get_or e.at 0 none ≡ some t
    → is_lost s now blocks maxes e ≡ false
seen-is_lost s now blocks maxes e t taken = rw (taken) (and_false (not (is_young s now e.born)))

module _ (parse : Text → Option Frame) (hash_of : Text → ℕ) (index scale : ℕ → ℕ) where
  take_frame-marks :
      (ctx : StreamCtx) (m : Moment) (text : Text) (routed : SubKey × Seq) (both : Both)
      → IsSound both.1
      → ctx.slot < max_slots
      → Kept
          (λ sh. (t : ℕ) × FirstSeen ctx.slot (hash_of text) t sh)
          (take_frame parse hash_of index scale ctx m text routed both)
  unfolding take_frame
  take_frame-marks ctx m text (key, seq) (s, sh) sound room =
      option_cases (Kept (λ sh'. (t : ℕ) × FirstSeen ctx.slot (hash_of text) t sh')) (label key)
        (Kept-none _)
        (λ name.
          Kept-some _ _
            (compare_frame-marks ctx m (hash_of text) (index_of ctx name) seq _ sh sound room))

  take_text_lem :
      (ctx : StreamCtx) (m : Moment) (text : Text) (frame : Frame) (routed : SubKey × Seq)
      (both : Both)
      → strip_prefix error_prefix text ≡ none
      → parse text ≡ some frame
      → route frame ≡ some routed
      → take_text parse hash_of index scale ctx m text both
        ≡ take_frame parse hash_of index scale ctx m text routed both
  unfolding take_text strip_prefix
  take_text_lem ctx m text frame routed (s, sh) plain parsed routes =
      rw (plain, parsed, routes) refl

  -- From a state in which each message's entry has a place for every slot and the proxy is not
  -- behind where it was when that message first came: a frame that is no error report, that routes
  -- and that the proxy's own connection has taken without a panic has an entry after whatever any
  -- one connection reads next, and a pass of the comparison that runs then does not count it as
  -- lost. Nothing is said of a copy that comes after a pass has taken the entry out.
  pub carried_frame_is_not_lost :
      (ctx later : StreamCtx) (m : Moment) (text : Text) (frame : Frame) (routed : SubKey × Seq)
      (both took : Both) (stream : Stream) (is_early : ℕ → Bool) (deadline : ℕ) (turns : List Turn)
      (after : Both) (s : Setup) (now : ℕ) (blocks : Blocks) (maxes : List ℕ)
      → IsSound both.1
      → ctx.slot ≡ 0
      → strip_prefix error_prefix text ≡ none
      → parse text ≡ some frame
      → route frame ≡ some routed
      → take_text parse hash_of index scale ctx m text both ≡ some took
      → listen parse hash_of index scale is_early deadline later turns (stream, took.1) ≡ some after
      → (e : Seen) × (get ℕ_discrete (hash_of text) after.1.seen ≡ some e)
        × (is_lost s now blocks maxes e ≡ false)
  carried_frame_is_not_lost ctx later m text frame routed both took stream is_early deadline turns
        after s now blocks maxes sound proxy plain parsed routes taken listened =
      let room : ctx.slot < max_slots = rw (proxy) (omega arith) in
      let framed : take_frame parse hash_of index scale ctx m text routed both ≡ some took =
        sym (take_text_lem ctx m text frame routed both plain parsed routes) ∙ taken in
      let (t, seen) = take_frame-marks ctx m text routed both sound room took framed in
      let (e, found, had) =
        listen-FirstSeen parse hash_of index scale is_early deadline later turns (stream, took.1)
          after ctx.slot (hash_of text) t listened seen in
      (
        e,
        found,
        seen-is_lost s now blocks maxes e t (subst (λ i. get_or e.at i none ≡ some t) proxy had),
      )
