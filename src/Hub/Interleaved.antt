-- ===== src/Hub/Interleaved.antt =====
-- The second halves of `on_update` and `deliver_snapshot`, of src/state.rs, interleaved: several tasks
-- decide on frames and snapshots, and carry out what is left to do in any order among each other.
-- Every other operation is one step here, also where the code takes one lock after another or lets
-- go of one before it is done: `detach` and `subscribe` broadcast after they release the entry, and
-- `detach` removes the entry after that, the window of Hub/Erased.
use hypeha.Base.{ℕ, ◌≡◌, refl, ◌∙◌, ap, sym, List, [], ◌∷◌, ◌++◌, Option, if◌then◌else◌, Text}
use hypeha.SubKey.{SubKey}
use hypeha.Entry.{Seq}
use hypeha.Hub.{AppState, register_client}
use hypeha.Hub.Registry.{subscribe, unsubscribe, pin, cleanup_client}
use hypeha.Hub.Update.{on_update, deliver_snapshot}
use hypeha.Hub.Recovery.{resync_after_source_loss, fail_pending}
use hypeha.Hub.Reach.{Step, Reach}
use hypeha.Hub.Flight.{Act, do_act, decide, attach, on_update-halves, deliver_snapshot-halves}
use hypeha.Hub.Books.{
  Books, books, run_acts-books, do_act-books, attach-books, subscribe-books, unsubscribe-books,
  pin-books, cleanup-books, fail-books, register-books, decide-books, resync-books,
}

-- The hub, and for each task that has released its lock what it has still to do.
abbrev pub Air : Type 0 → Type 0
Air Q = AppState Q × List (List Act)

-- One step of the program. A task decides under the lock, and queues what is left to do; or a task
-- does the next thing of its own; or another operation runs whole.
pub data Tick {Q : Type 0} (try_send : Q → Text → Option Q) : Air Q → Air Q → Type 0 where
  decides :
      (src : ℕ) (key : SubKey) (seq : Seq) (now : ℕ) (payload : Text) (st : AppState Q)
      (tasks : List (List Act))
      → Tick try_send
          (st, tasks)
          (
            (decide src key seq now payload st).0,
            tasks ++ ((decide src key seq now payload st).1 ∷ []),
          )
  attaches :
      (key : SubKey) (id source height : ℕ) (snapshot : Text) (st : AppState Q)
      (tasks : List (List Act))
      → Tick try_send
          (st, tasks)
          (
            (attach key id source height snapshot st).0,
            tasks ++ ((attach key id source height snapshot st).1 ∷ []),
          )
  acts :
      (before : List (List Act)) (a : Act) (rest : List Act) (after : List (List Act))
      (st : AppState Q)
      → Tick try_send
          (st, before ++ ((a ∷ rest) ∷ after))
          (
            (do_act try_send a st).0,
            before ++ ((if (do_act try_send a st).1 then rest else []) ∷ after),
          )
  registers :
      (channel : ℕ → Q) (now : ℕ) (ip : Text) (st : AppState Q) (tasks : List (List Act))
      → Tick try_send (st, tasks) ((register_client channel now ip st).0, tasks)
  subscribes :
      (now id : ℕ) (key : SubKey) (st : AppState Q) (tasks : List (List Act))
      → Tick try_send (st, tasks) ((subscribe now id key st).0, tasks)
  unsubscribes :
      (id : ℕ) (key : SubKey) (st : AppState Q) (tasks : List (List Act))
      → Tick try_send (st, tasks) ((unsubscribe id key st).0, tasks)
  pins :
      (now : ℕ) (key : SubKey) (st : AppState Q) (tasks : List (List Act))
      → Tick try_send (st, tasks) (pin now key st, tasks)
  leaves :
      (id : ℕ) (st : AppState Q) (tasks : List (List Act))
      → Tick try_send (st, tasks) (cleanup_client id st, tasks)
  loses :
      (source : ℕ) (st : AppState Q) (tasks : List (List Act))
      → Tick try_send (st, tasks) ((resync_after_source_loss source st).0, tasks)
  fails :
      (key : SubKey) (id : ℕ) (st : AppState Q) (tasks : List (List Act))
      → Tick try_send (st, tasks) (fail_pending key id st, tasks)

pub data Ticks {Q : Type 0} (try_send : Q → Text → Option Q) (s : Air Q) : Air Q → Type 0 where
  still : Ticks try_send s s
  then_tick : {t u : Air Q} → Ticks try_send s t → Tick try_send t u → Ticks try_send s u

-- An operation of which the books after depend on the books before alone carries over from one
-- state to another with the same books.
carry :
    {Q : Type 0} (op : AppState Q → AppState Q) (on_books : Books → Books)
    → ((st : AppState Q) → books (op st) ≡ books (on_books (books st)))
    → (s t : AppState Q) → books s ≡ books t
    → books (op s) ≡ books (op t)
carry op on_books same s t e = same s ∙ ap (λ b. books (on_books b)) e ∙ sym (same t)

-- A state that the operations reach when each runs alone, with the same books.
abbrev pub Serial : {Q : Type 0} → (Q → Text → Option Q) → AppState Q → AppState Q → Type 0
Serial {Q} try_send s st = (t : AppState Q) × (Reach try_send s t) × (books st ≡ books t)

module _ {Q : Type 0} {try_send : Q → Text → Option Q} {s : AppState Q} where
  -- An operation that is a step by itself.
  extend :
      (st : AppState Q) (op : AppState Q → AppState Q) (on_books : Books → Books)
      → ((t : AppState Q) → books (op t) ≡ books (on_books (books t)))
      → ((t : AppState Q) → Step try_send t (op t))
      → Serial try_send s st
      → Serial try_send s (op st)
  extend st op on_books same step (t, reached, alike) =
      (op t, Reach.next reached (step t), carry op on_books same st t alike)

  Tick-Serial : {x y : Air Q} → Tick try_send x y → Serial try_send s x.0 → Serial try_send s y.0
  Tick-Serial (Tick.decides src key seq now payload st tasks) (t, reached, alike) = (
    on_update try_send src key seq now payload t,
    Reach.next reached (Step.updates src key seq now payload t),
    carry (λ u. (decide src key seq now payload u).0) (λ b. (decide src key seq now payload b).0)
          (decide-books src key seq now payload) st t alike
        ∙ sym (run_acts-books try_send (decide src key seq now payload t).1 _)
        ∙ ap books (on_update-halves try_send src key seq now payload t),
  )
  Tick-Serial (Tick.attaches key id source height snapshot st tasks) (t, reached, alike) = (
    deliver_snapshot try_send key id source height snapshot t,
    Reach.next reached (Step.delivers key id source height snapshot t),
    carry (λ u. (attach key id source height snapshot u).0)
          (λ b. (attach key id source height snapshot b).0)
          (attach-books key id source height snapshot) st t alike
        ∙ sym (run_acts-books try_send (attach key id source height snapshot t).1 _)
        ∙ ap books (deliver_snapshot-halves try_send key id source height snapshot t),
  )
  Tick-Serial (Tick.acts before a rest after st) (t, reached, alike) =
      (t, reached, do_act-books try_send a st ∙ alike)
  Tick-Serial (Tick.registers channel now ip st tasks) serial =
      extend st (λ t. (register_client channel now ip t).0)
        (λ b. (register_client (λ n. tt) now ip b).0) (register-books channel now ip)
        (Step.registers channel now ip) serial
  Tick-Serial (Tick.subscribes now id key st tasks) serial =
      extend st (λ t. (subscribe now id key t).0) (λ b. (subscribe now id key b).0)
        (subscribe-books now id key) (Step.subscribes now id key) serial
  Tick-Serial (Tick.unsubscribes id key st tasks) serial =
      extend st (λ t. (unsubscribe id key t).0) (λ b. (unsubscribe id key b).0)
        (unsubscribe-books id key) (Step.unsubscribes id key) serial
  Tick-Serial (Tick.pins now key st tasks) serial =
      extend st (pin now key) (pin now key) (pin-books now key) (Step.pins now key) serial
  Tick-Serial (Tick.leaves id st tasks) serial =
      extend st (cleanup_client id) (cleanup_client id) (cleanup-books id) (Step.leaves id) serial
  Tick-Serial (Tick.loses source st tasks) serial =
      extend st (λ t. (resync_after_source_loss source t).0)
        (λ b. (resync_after_source_loss source b).0) (resync-books source) (Step.loses source)
        serial
  Tick-Serial (Tick.fails key id st tasks) serial =
      extend st (fail_pending key id) (fail_pending key id) (fail-books key id) (Step.fails key id)
        serial

-- If the second halves of `on_update` and `deliver_snapshot`, what they do after they release the
-- lock of an entry, run in any order among those of other tasks and between the other operations,
-- each of which runs whole: the state reached agrees, in the entries, the registry of the clients
-- and what each client holds, with one that the operations reach when each runs alone from the same
-- state. Nothing is said of the clients' queues and counters, of whether they were told to hang up,
-- of the sources, and of an operation that comes between the release of the lock in `detach` and
-- the removal of the entry.
pub Ticks-Serial :
    {Q : Type 0} {try_send : Q → Text → Option Q} {s : AppState Q} {tasks : List (List Act)}
    {x : Air Q}
    → Ticks try_send (s, tasks) x
    → Serial try_send s x.0
Ticks-Serial {s} Ticks.still = (s, Reach.here, refl)
Ticks-Serial (Ticks.then_tick run one) = Tick-Serial one (Ticks-Serial run)
