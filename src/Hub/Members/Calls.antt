-- ===== src/Hub/Members/Calls.antt =====
-- Every operation of the hub keeps the entry of a key and the clients in agreement.
use hypeha.Base.{
  ℕ, ◌≡◌, refl, ◌∙◌, ap, sym, subst, inl, inr, Bool, true, false, ◌||◌, List, [], ◌∷◌, Option, some,
  ◌==◌, if◌then◌else◌, arith, Bool-cases, if_cases, ite_cases, ite, if_pos, if_neg, ==_refl,
}
use hypeha.Base.KeyMap.{get-put}
use hypeha.SubKey.{SubKey, SubKey-discrete, SubRequest}
use hypeha.Entry.{SubEntry}
use hypeha.Hub.{
  Client, AppState, find_entry, entry_of, or_default, put_entry, on_client, with_client,
}
use hypeha.Hub.Registry
use hypeha.Hub.Registry.{
  SubscribeOutcome, fresh, joined, duplicate, holds_key, drop_key, join_entry, broadcast_ctrl,
  detach_all, detach, add_key, forget_key, forget_all, is_attached,
}
use hypeha.Hub.Members.{on_entry, present, holds, Registered}
use hypeha.Hub.Members.Joining.{join_entry-on_entry, join_entry-flag}
use hypeha.Hub.Members.Heaps.{on_entry-or_default}
use hypeha.Hub.Members.Leaving.{
  Leaving, Leaving-Registered, detach_all-Leaving, Registered-Leaving, detach-find_entry,
  detach-heap, detached,
}

-- The clients agree on a key, and nobody that was to hang up is spared.
pub Registered-heap :
    {Q : Type 0} (k : SubKey) (o : Option SubEntry) (heap heap' : ℕ → Client Q)
    → ((i : ℕ) → holds k i heap' ≡ holds k i heap)
    → ((i : ℕ) → holds k i heap ≡ true → (heap i).kill ≡ true → (heap' i).kill ≡ true)
    → Registered k o heap
    → Registered k o heap'
Registered-heap k o heap heap' same stays r = record {
  no_ghost = λ i p. same i ∙ r.no_ghost i p;
  kept = λ i h. elim (r.kept i (sym (same i) ∙ h)) [
    | inl on ↦ inl on
    | inr dead ↦ inr (stays i (sym (same i) ∙ h) dead)
  ];
  served = r.served;
  needed = λ live. elim (r.needed live) [ inl pin ↦ inl pin | inr (i, h) ↦ inr (i, same i ∙ h) ];
}

-- An operation that writes one entry: what it does at that key, and at the others.
pub put-Registered :
    {Q : Type 0} (k key : SubKey) (e : SubEntry) (st : AppState Q) (heap' : ℕ → Client Q)
    → (Registered key (find_entry key st) st.heap → Registered key (some e) heap')
    → (¬ (key ≡ k) → Registered k (find_entry k st) st.heap → Registered k (find_entry k st) heap')
    → Registered k (find_entry k st) st.heap
    → Registered k (find_entry k (put_entry key e st)) heap'
put-Registered k key e st heap' here there r = rw (get-put SubKey-discrete k key e st.subs) (
    ite_cases (λ (o : Option SubEntry). Registered k o heap') (SubKey-discrete key k)
      (λ same.
        subst (λ (j : SubKey). Registered j (some e) heap') same
          (here (subst (λ (j : SubKey). Registered j (find_entry j st) st.heap) (sym same) r)))
      (λ other. there other r))

pub holds-add :
    {Q : Type 0} (k key : SubKey) (id : ℕ) (heap : ℕ → Client Q) (i : ℕ)
    → holds k i (on_client id (add_key key) heap)
      ≡ (if i == id then ite (SubKey-discrete key k) true (holds k i heap) else holds k i heap)
unfolding holds_key
holds-add k key id heap i = elim (Bool-cases (i == id)) [
  | inl same ↦ rw same refl
  | inr other ↦ rw other refl
]

pub holds_key-drop_key :
    (k key : SubKey) (keys : List SubKey)
    → holds_key k (drop_key key keys) ≡ ite (SubKey-discrete key k) false (holds_key k keys)
unfolding holds_key drop_key
holds_key-drop_key k key [] = ground arith
holds_key-drop_key k key (j ∷ keys) = ground (arith, holds_key-drop_key k key keys)

pub kill-on_client :
    {Q : Type 0} (f : Client Q → Client Q)
    → ((c : Client Q) → (f c).kill ≡ c.kill)
    → (id : ℕ) (heap : ℕ → Client Q) (i : ℕ) → (on_client id f heap i).kill ≡ (heap i).kill
kill-on_client f same id heap i =
    if_cases (λ (c : Client _). c.kill ≡ (heap i).kill) (i == id) (λ e. same (heap i)) (λ e. refl)

pub if_same : (b c : Bool) → (if b then c else c) ≡ c
if_same true c = refl
if_same false c = refl

module _ {Q : Type 0} (k : SubKey) where
  -- A client joins the key.
  join-Registered :
      (now id : ℕ) (o : Option SubEntry) (heap : ℕ → Client Q)
      → Registered k o heap
      → Registered k (some (join_entry k id (or_default now o))) (on_client id (add_key k) heap)
  join-Registered now id o heap r = record {
    no_ghost = λ i p. ground (arith, added i, on i, r.no_ghost i);
    kept = λ i h. elim (Bool-cases (i == id)) [
      | inl same ↦ inl (ground (arith, on i))
      | inr other ↦ elim (r.kept i (ground (arith, added i))) [
        | inl before ↦ inl (ground (arith, on i))
        | inr dead ↦ inr (kill-on_client (add_key k) (λ c. refl) id heap i ∙ dead)
      ]
    ];
    served = λ i p. join_entry-flag k id (or_default now o);
    needed = λ live. inr (id, added id ∙ rw (==_refl id) refl);
  }
    where
      added :
          (i : ℕ)
          → holds k i (on_client id (add_key k) heap) ≡ (if i == id then true else holds k i heap)
      added i =
          holds-add k k id heap i
          ∙ ap (λ (b : Bool). if i == id then b else holds k i heap)
              (if_pos (SubKey-discrete k k) refl true (holds k i heap))

      on : (i : ℕ) → on_entry i (join_entry k id (or_default now o)) ≡ (present i o || i == id)
      on i =
          join_entry-on_entry k id i (or_default now o)
          ∙ ap (λ (b : Bool). b || i == id) (on_entry-or_default now i o)

module _ {Q : Type 0} (k : SubKey) where
  pub subscribe-Registered :
      (now id : ℕ) (key : SubKey) (st : AppState Q)
      → Registered k (find_entry k st) st.heap
      → let st' = (Registry.subscribe now id key st).0 in Registered k (find_entry k st') st'.heap
  unfolding Registry.subscribe broadcast_ctrl
  subscribe-Registered now id key st r =
      let entry = entry_of now key st in
      let heap' = on_client id (add_key key) st.heap in
      let joining : AppState Q =
        put_entry key (join_entry key id entry) (with_client id (add_key key) st) in
      let told : AppState Q = broadcast_ctrl (SubRequest.subscribe key) joining in
      let after : Registered k (find_entry k joining) heap' =
        put-Registered k key (join_entry key id entry) st heap'
          (join-Registered key now id (find_entry key st) st.heap)
          (λ other.
            Registered-heap k (find_entry k st) st.heap heap'
              (λ i.
                holds-add k key id st.heap i
                ∙ ap (λ (b : Bool). if i == id then b else holds k i st.heap)
                    (if_neg (SubKey-discrete key k) other true (holds k i st.heap))
                ∙ if_same (i == id) (holds k i st.heap))
              (λ i h dead. kill-on_client (add_key key) (λ c. refl) id st.heap i ∙ dead))
          r in
      let P = λ (t : AppState Q × SubscribeOutcome). Registered k (find_entry k t.0) t.0.heap in
      if_cases P (holds_key key (st.heap id).subscriptions) {x = (st, duplicate)} (λ held. r)
        (λ free.
          if_cases P entry.upstream_subscribed {x = (joining, joined)} {y = (told, fresh)}
            (λ old. after) (λ new. after))

  -- A key is pinned.
  pinned-Registered :
      (now : ℕ) (o : Option SubEntry) (heap : ℕ → Client Q)
      → Registered k o heap
      → let entry = or_default now o in
        let e : SubEntry = record entry { pinned = true; upstream_subscribed = true } in
        Registered k (some e) heap
  pinned-Registered now o heap r = record {
    no_ghost = λ i p. r.no_ghost i (sym (on_entry-or_default now i o) ∙ p);
    kept = λ i h. elim (r.kept i h) [
      | inl on ↦ inl (on_entry-or_default now i o ∙ on)
      | inr dead ↦ inr dead
    ];
    served = λ i p. refl;
    needed = λ live. inl refl;
  }

module _ {Q : Type 0} (k : SubKey) where
  leave-heap :
      (id : ℕ) (key : SubKey) (heap : ℕ → Client Q)
      → key ≡ k
      → (i : ℕ)
      → holds k i (on_client id (forget_key key) heap) ≡ (if i == id then false else holds k i heap)
  leave-heap id key heap same i = elim (Bool-cases (i == id)) [
    | inl here ↦ rw here (
        holds_key-drop_key k key (heap i).subscriptions
        ∙ if_pos (SubKey-discrete key k) same false (holds k i heap))
    | inr other ↦ rw other refl
  ]

  stay-heap :
      (id : ℕ) (key : SubKey) (heap : ℕ → Client Q)
      → ¬ (key ≡ k)
      → (i : ℕ) → holds k i (on_client id (forget_key key) heap) ≡ holds k i heap
  stay-heap id key heap differs i = elim (Bool-cases (i == id)) [
    | inl here ↦ rw here (
        holds_key-drop_key k key (heap i).subscriptions
        ∙ if_neg (SubKey-discrete key k) differs false (holds k i heap))
    | inr other ↦ rw other refl
  ]

  unsubscribed :
      (id : ℕ) (key : SubKey) (st : AppState Q)
      → holds_key key (st.heap id).subscriptions ≡ true
      → Registered k (find_entry k st) st.heap
      → let st' = detach id key (with_client id (forget_key key) st) in
        Registered k (find_entry k st') st'.heap
  unfolding detach_all holds_key
  unsubscribed id key st held r =
      let freed : AppState Q = with_client id (forget_key key) st in
      let stays = λ (i : ℕ). kill-on_client (forget_key key) (λ c. refl) id st.heap i in
      elim (SubKey-discrete key k) [
        | yes same ↦
            let leaving : Leaving id k (holds k id st.heap) (find_entry k st) freed.heap =
              Registered-Leaving id k (find_entry k st) st.heap freed.heap
                (leave-heap id key st.heap same) stays r in
            let todo : holds k id st.heap ≡ holds_key k (key ∷ []) =
              ap (λ (j : SubKey). holds j id st.heap) (sym same)
              ∙ held
              ∙ sym (if_pos (SubKey-discrete key k) same true false) in
            (Leaving-Registered id k _ _ (
              detach_all-Leaving id k (key ∷ []) freed
                (subst (λ (b : Bool). Leaving id k b (find_entry k st) freed.heap) todo leaving))).0
        | no other ↦
            let same_entry : find_entry k (detach id key freed) ≡ find_entry k st =
              detach-find_entry id key k freed
              ∙ if_neg (SubKey-discrete key k) other (detached id (find_entry key st))
                  (find_entry k st) in
            rw (same_entry, detach-heap id key freed)
              (Registered-heap k (find_entry k st) st.heap freed.heap
                (stay-heap id key st.heap other) (λ i h dead. stays i ∙ dead) r)
      ]

  pub unsubscribe-Registered :
      (id : ℕ) (key : SubKey) (st : AppState Q)
      → Registered k (find_entry k st) st.heap
      → let st' = (Registry.unsubscribe id key st).0 in Registered k (find_entry k st') st'.heap
  unfolding Registry.unsubscribe
  unsubscribe-Registered id key st r =
      let freed : AppState Q = with_client id (forget_key key) st in
      let P = λ (t : AppState Q × Bool). Registered k (find_entry k t.0) t.0.heap in
      if_cases P (holds_key key (st.heap id).subscriptions) {x = (detach id key freed, true)}
        {y = (st, false)} (λ held. unsubscribed id key st held r) (λ free. r)

  -- Cleaning up after a client keeps a key's entry and the clients in agreement, in the sense that
  -- who is on the entry holds the key, who holds it is there or is to hang up, and the entry is
  -- subscribed upstream only for somebody or a pin; and the client is neither attached to the entry
  -- nor parked there.
  pub cleanup-Registered :
      (id : ℕ) (st : AppState Q)
      → Registered k (find_entry k st) st.heap
      → let st' = Registry.cleanup_client id st in
        Registered k (find_entry k st') st'.heap × (present id (find_entry k st') ≡ false)
  unfolding Registry.cleanup_client holds_key
  cleanup-Registered id st r = Leaving-Registered id k _ _ (
      detach_all-Leaving id k (st.heap id).subscriptions _ (
        Registered-Leaving id k (find_entry k st) st.heap (on_client id forget_all st.heap)
          (λ i.
            if_cases
              (λ (c : Client Q).
                holds_key k c.subscriptions ≡ (if i == id then false else holds k i st.heap))
              (i == id) (λ same. rw same refl) (λ other. rw other refl))
          (λ i. kill-on_client forget_all (λ c. refl) id st.heap i) r))

  pub pin-Registered :
      (now : ℕ) (key : SubKey) (st : AppState Q)
      → Registered k (find_entry k st) st.heap
      → let st' = Registry.pin now key st in Registered k (find_entry k st') st'.heap
  unfolding Registry.pin broadcast_ctrl
  pin-Registered now key st r =
      let entry = entry_of now key st in
      let e : SubEntry = record entry { pinned = true; upstream_subscribed = true } in
      let after : Registered k (find_entry k (put_entry key e st)) st.heap =
        put-Registered k key e st st.heap (pinned-Registered key now (find_entry key st) st.heap)
          (λ other same. same) r in
      if_cases (λ (t : AppState Q). Registered k (find_entry k t) t.heap) entry.upstream_subscribed
        (λ old. after) (λ new. after)
