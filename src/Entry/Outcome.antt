-- ===== src/Entry/Outcome.antt =====
-- What one call of `arbitrate` may do to an entry, on every branch.
use hypeha.Base.{ℕ, ◌≤◌, ◌≡◌, ◌⊎◌, true, false, none, arith}
use hypeha.SubKey.{SubKey}
use hypeha.Entry.{
  Seq, SubEntry, Verdict, arbitrate, on_point, on_lead, on_sticky, on_snapshot, on_block,
}

abbrev pub stamp : Seq → ℕ
stamp (Seq.point v) = v
stamp (Seq.block v) = v
stamp (Seq.lead v) = v
stamp (Seq.sticky v) = v
stamp (Seq.snapshot v) = v

-- What a frame that does not go out leaves alone.
pub record Unmoved (e e' : SubEntry) : Type 0 where
  pub same_last : e'.last ≡ e.last
  pub same_time : e'.last_seen_at ≡ e.last_seen_at
  pub same_leader : e'.block_leader ≡ e.block_leader
  pub same_sent : e'.block_sent ≡ e.block_sent

-- What a frame that goes out does.
pub record Moved (src v : ℕ) (e e' : SubEntry) : Type 0 where
  pub stamped : e'.last ≡ v
  pub not_behind : (e.block_leader ≡ none) ⊎ (e.last ≤ v)

abbrev pub Outcome : ℕ → Seq → SubEntry → SubEntry × Verdict → Type 0
Outcome src seq e (e', v) =
    ((v.deliver ≡ true) × Moved src (stamp seq) e e' × (v.late ≡ none) × (v.stale ≡ false))
    ⊎ ((v.deliver ≡ false) × Unmoved e e' × (v.win ≡ false))

-- Every frame goes out, with its stamp as the new last one, which is not below the old one unless
-- no source was followed; or it does not, and leaves the last stamp, its time, the source that is
-- followed and the number of messages sent as they were.
pub arbitrate-Outcome :
    (key : SubKey) (src : ℕ) (seq : Seq) (now : ℕ) (e : SubEntry)
    → Outcome src seq e (arbitrate key src seq now e)
unfolding arbitrate on_point on_lead on_sticky on_snapshot on_block
arbitrate-Outcome key src (Seq.point v) now e = ground arith
arbitrate-Outcome key src (Seq.lead v) now e = ground arith
arbitrate-Outcome key src (Seq.sticky v) now e = ground arith
arbitrate-Outcome key src (Seq.snapshot v) now e = ground arith
arbitrate-Outcome key src (Seq.block v) now e = ground arith
