-- ===== src/Hub/Members/Heaps.antt =====
-- What the operations do to the clients themselves, and how entry and clients fit together.
use hypeha.Base.{
  ℕ, ◌≡◌, refl, ◌∙◌, ap, sym, ◌⊎◌, inl, inr, Bool, true, false, ◌||◌, List, [], ◌∷◌, Option, none,
  some, ◌==◌, Text, if_cases, Option-cases,
}
use hypeha.Entry.{SubEntry}
use hypeha.Hub.{Client, or_default, on_client, hang_up}
use hypeha.Hub.Registry.{is_attached}
use hypeha.Hub.Update.{send_or_hang_up, send_or_drop, send_frame, fan_out, send_all, hang_up_all}
use hypeha.Hub.Control.{flag_of}
use hypeha.Hub.Delivery.{hang_up_all_lem}
use hypeha.Hub.Members.{on_entry, present, pinned_of, Spared, Quiet}
use hypeha.Hub.Members.Entries.{KeepsClients}

module _ {Q : Type 0} where
  pub Spared-refl : (c : Client Q) → Spared c c
  Spared-refl c = record { same_keys = refl; stays_killed = λ h. h }

  pub Spared-trans : (a b c : Client Q) → Spared a b → Spared b c → Spared a c
  Spared-trans a b c p q = record {
    same_keys = q.same_keys ∙ p.same_keys;
    stays_killed = λ h. q.stays_killed (p.stays_killed h);
  }

  pub hang_up-Spared : (c : Client Q) → Spared c (hang_up c)
  hang_up-Spared c = record { same_keys = refl; stays_killed = λ h. refl }

  -- A function that spares its client spares all clients.
  pub on_client-Spared :
      (f : Client Q → Client Q) (all : (c : Client Q) → Spared c (f c)) (id : ℕ)
      (heap : ℕ → Client Q) (i : ℕ)
      → Spared (heap i) (on_client id f heap i)
  on_client-Spared f all id heap i =
      if_cases (Spared (heap i)) (i == id) (λ same. all (heap i)) (λ other. Spared-refl (heap i))

  pub hang_up_all-Spared :
      (ids : List ℕ) (heap : ℕ → Client Q) (i : ℕ) → Spared (heap i) (hang_up_all ids heap i)
  hang_up_all-Spared [] heap i = Spared-refl (heap i)
  hang_up_all-Spared (id ∷ ids) heap i =
      Spared-trans (heap i) (on_client id hang_up heap i) _
        (on_client-Spared hang_up hang_up-Spared id heap i)
        (hang_up_all-Spared ids (on_client id hang_up heap) i)

  pub hang_up_all-killed :
      (ids : List ℕ) (heap : ℕ → Client Q) (i : ℕ)
      → is_attached i ids ≡ true
      → (hang_up_all ids heap i).kill ≡ true
  hang_up_all-killed ids heap i h =
      ap (λ (c : Client Q). c.kill) (hang_up_all_lem ids heap i) ∙ rw h refl

module _ {Q : Type 0} (try_send : Q → Text → Option Q) where
  pub queued-Spared : (msg : Text) (c : Client Q) → Spared c (send_or_hang_up try_send msg c).0
  unfolding send_or_hang_up
  queued-Spared msg c = elim (Option-cases (try_send c.queue msg)) [
    | inl full ↦ rw (full, send_or_hang_up) (record { same_keys = refl; stays_killed = λ h. refl })
    | inr (q, sent) ↦
        rw (sent, send_or_hang_up) (record { same_keys = refl; stays_killed = λ h. h })
  ]

  dropped-Spared : (msg : Text) (c : Client Q) → Spared c (send_or_drop try_send msg c)
  unfolding send_or_drop
  dropped-Spared msg c = elim (Option-cases (try_send c.queue msg)) [
    | inl full ↦ rw (full, send_or_drop) (record { same_keys = refl; stays_killed = λ h. h })
    | inr (q, sent) ↦ rw (sent, send_or_drop) (record { same_keys = refl; stays_killed = λ h. h })
  ]

  pub send_frame-Spared :
      (incremental : Bool) (msg : Text) (c : Client Q)
      → Spared c (send_frame try_send incremental msg c)
  unfolding send_frame
  send_frame-Spared true msg c = queued-Spared msg c
  send_frame-Spared false msg c = dropped-Spared msg c

  pub fan_out-Spared :
      (incremental : Bool) (msg : Text) (ids : List ℕ) (heap : ℕ → Client Q) (i : ℕ)
      → Spared (heap i) (fan_out try_send incremental msg ids heap i)
  unfolding fan_out
  fan_out-Spared incremental msg [] heap i = Spared-refl (heap i)
  fan_out-Spared incremental msg (id ∷ ids) heap i =
      Spared-trans (heap i) (on_client id (send_frame try_send incremental msg) heap i) _
        (on_client-Spared (send_frame try_send incremental msg) (send_frame-Spared incremental msg)
          id heap i)
        (fan_out-Spared incremental msg ids
          (on_client id (send_frame try_send incremental msg) heap) i)

  pub send_all-Spared : (msgs : List Text) (c : Client Q) → Spared c (send_all try_send msgs c)
  unfolding send_all
  send_all-Spared [] c = Spared-refl c
  send_all-Spared (msg ∷ msgs) c =
      if_cases (Spared c) (send_or_hang_up try_send msg c).1
        (λ went.
          Spared-trans c (send_or_hang_up try_send msg c).0 _ (queued-Spared msg c)
            (send_all-Spared msgs (send_or_hang_up try_send msg c).0))
        (λ failed. queued-Spared msg c)

flag-or_default :
    (now : ℕ) (o : Option SubEntry) → (or_default now o).upstream_subscribed ≡ flag_of o
flag-or_default now none = refl
flag-or_default now (some e) = refl

pin-or_default : (now : ℕ) (o : Option SubEntry) → (or_default now o).pinned ≡ pinned_of o
pin-or_default now none = refl
pin-or_default now (some e) = refl

pub on_entry-or_default :
    (now id : ℕ) (o : Option SubEntry) → on_entry id (or_default now o) ≡ present id o
on_entry-or_default now id none = refl
on_entry-or_default now id (some e) = refl

-- Of two tests that together are a third one.
or_left : (a b c : Bool) → (a || b) ≡ c → a ≡ true → c ≡ true
or_left true b c h t = sym h
or_left false b c h t = cc

or_split : (a b c : Bool) → (a || b) ≡ c → c ≡ true → (a ≡ true) ⊎ (b ≡ true)
or_split true b c h t = inl refl
or_split false b c h t = inr (h ∙ t)

-- A step that keeps the clients on the entry and hangs up those that it takes off.
pub KeepsClients-Quiet :
    {Q : Type 0} (now : ℕ) (o : Option SubEntry) (e' : SubEntry) (gone : List ℕ)
    (heap heap' : ℕ → Client Q)
    → KeepsClients (or_default now o) e' gone
    → ((i : ℕ) → Spared (heap i) (heap' i))
    → ((i : ℕ) → is_attached i gone ≡ true → (heap' i).kill ≡ true)
    → Quiet o (some e') heap heap'
KeepsClients-Quiet now o e' gone heap heap' k spared killed = record {
  same_flag = k.flag ∙ flag-or_default now o;
  same_pin = k.pin ∙ pin-or_default now o;
  spared = spared;
  nobody_new = λ id p. or_left (on_entry id e') (is_attached id gone) _ (whole id) p;
  nobody_lost = λ id p. elim (or_split (on_entry id e') (is_attached id gone) _ (whole id) p) [
    | inl on ↦ inl on
    | inr off ↦ inr (killed id off)
  ];
}
  where
    whole : (id : ℕ) → (on_entry id e' || is_attached id gone) ≡ present id o
    whole id = k.parted id ∙ on_entry-or_default now id o
