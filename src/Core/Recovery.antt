-- ===== src/Core/Recovery.antt =====
-- src/resident/core.rs: a snapshot, restored, is the session again, with no driver.
use turtletap.Prelude.{
  ℕ, ◌≤◌, ◌≡◌, subst, refl, true, false, none, some, List, [], ◌∷◌, arith, length, ℕ_key, text_key,
  ok, if◌then◌else◌, Option-cases, inl, inr,
}
use turtletap.Dict
use turtletap.Dict.{Dict, dict_laws, get-insert, get-empty}
use turtletap.HashSet
use turtletap.HashSet.{mem}
use turtletap.Protocol.{RequestId, EventSequence, SessionId, request_key, saturating_add}
use turtletap.Core.Names.{normalize_name}
use turtletap.Core.Session.{SessionState, retained, snapshot_of, SessionControlSnapshot}
use turtletap.Core.Ops.{LeaderCore, collect, restored, restore_session}
use turtletap.Core.Commit.{snapshot}
use turtletap.Core.Logged.{Logged, Storable, NotAfter, requests, is_some}

-- Every request of the list has an entry.
abbrev Entered : List RequestId → Dict RequestId EventSequence → Type 0
Entered rs m = (q : RequestId) → mem q rs ≡ true → is_some (Dict.get q m) ≡ true

requests-retained :
    (order : List RequestId) (m : Dict RequestId EventSequence)
    → Entered order m
    → requests (retained order m) ≡ order
unfolding retained mem
requests-retained [] m h = refl
requests-retained (r ∷ rs) m h =
    ground (arith, h r, requests-retained rs m (λ q e. h q (ground arith)))

retained-some :
    (r : RequestId) (rs : List RequestId) (m : Dict RequestId EventSequence) (v : EventSequence)
    → Dict.get r m ≡ some v
    → retained (r ∷ rs) m ≡ (r, v) ∷ retained rs m
unfolding retained
retained-some r rs m v e = ground arith

retained-none :
    (r : RequestId) (rs : List RequestId) (m : Dict RequestId EventSequence)
    → Dict.get r m ≡ none
    → retained (r ∷ rs) m ≡ retained rs m
unfolding retained
retained-none r rs m e = ground arith

collect-retained :
    (order : List RequestId) (m acc : Dict RequestId EventSequence) (q : RequestId)
    → Entered order m
    → Dict.get q (collect (retained order m) acc)
      ≡ (if mem q order then Dict.get q m else Dict.get q acc)
unfolding collect mem
collect-retained [] m acc q h = unfold retained in refl
collect-retained (r ∷ rs) m acc q h = elim (Option-cases (Dict.get r m)) [
  | inl missing ↦ absurd (ground (arith, h r))
  | inr (v, e) ↦ rw (retained-some r rs m v e) (
      ground (
        arith,
        collect-retained rs m (Dict.insert r v acc) q (λ x f. h x (ground arith)),
        get-insert r q v acc,
      ))
]

retained-NotAfter :
    (bound : EventSequence) (order : List RequestId) (m : Dict RequestId EventSequence)
    → ((r : RequestId) (q : EventSequence) → Dict.get r m ≡ some q → q ≤ bound)
    → NotAfter bound (retained order m)
retained-NotAfter bound [] m h = unfold retained in tt
retained-NotAfter bound (r ∷ rs) m h =
    let rest = retained-NotAfter bound rs m h in
    elim (Option-cases (Dict.get r m)) [
      | inl missing ↦ rw (retained-none r rs m missing) rest
      | inr (v, e) ↦ rw (retained-some r rs m v e) (h r v e, rest)
    ]

length-retained :
    (order : List RequestId) (m : Dict RequestId EventSequence)
    → length (retained order m) ≤ length order
unfolding retained
length-retained [] m = omega arith
length-retained (r ∷ rs) m = ground (arith, length-retained rs m)

module _ (window : ℕ) (s : SessionState) (h : Logged window s) where
  entered : Entered s.commit_order s.committed
  entered q e = ground (arith, h.indexed q)

  -- The snapshot of a session with a sound log can be restored under the same window.
  pub snapshot_of-Storable : Storable window (snapshot_of s)
  unfolding snapshot_of
  snapshot_of-Storable = record {
    bounded = omega (arith, length-retained s.commit_order s.committed, h.bounded);
    distinct = rw (requests-retained s.commit_order s.committed entered) h.distinct;
    past = retained-NotAfter s.sequence s.commit_order s.committed h.past;
    word = h.word;
  }

  pub restored-order : (restored (snapshot_of s)).commit_order ≡ s.commit_order
  unfolding restored snapshot_of
  restored-order = requests-retained s.commit_order s.committed entered

  pub restored-committed :
      (q : RequestId) → Dict.get q (restored (snapshot_of s)).committed ≡ Dict.get q s.committed
  unfolding restored snapshot_of
  restored-committed q = ground (
    arith,
    collect-retained s.commit_order s.committed Dict.empty q entered,
    h.indexed q,
    get-empty {V = EventSequence} q,
  )

-- What a restored session has in common with the one that was stored.
pub record Restores (before after : SessionState) : Type 0 where
  pub id : after.id ≡ before.id
  pub name : after.name ≡ before.name
  pub sequence : after.sequence ≡ before.sequence
  pub last_event_at : after.last_event_at ≡ before.last_event_at
  pub order : after.commit_order ≡ before.commit_order
  pub committed : (q : RequestId) → Dict.get q after.committed ≡ Dict.get q before.committed
  pub driver : after.driver ≡ none
  pub epoch : after.lease_epoch ≡ saturating_add before.lease_epoch 1
  pub subscribers : (k : ℕ) → HashSet.contains k after.subscribers ≡ false

restored-Restores :
    (window : ℕ) (s : SessionState)
    → Logged window s
    → normalize_name s.name ≡ s.name
    → Restores s (restored (snapshot_of s))
restored-Restores window s log normal = record {
  id = unfold restored snapshot_of in refl;
  name = unfold restored snapshot_of in normal;
  sequence = unfold restored snapshot_of in refl;
  last_event_at = unfold restored snapshot_of in refl;
  order = restored-order window s log;
  committed = restored-committed window s log;
  driver = unfold restored in refl;
  epoch = unfold restored snapshot_of in refl;
  subscribers = λ k. unfold restored in HashSet.contains-new k;
}

restore_session-stored :
    (d : LeaderCore) (image : SessionControlSnapshot)
    → Dict.get (normalize_name image.name) d.names ≡ none
    → ((restore_session image d).0 ≡ ok tt)
      × (Dict.get image.id (restore_session image d).1.sessions ≡ some (restored image))
unfolding restore_session
restore_session-stored d image free = (ground arith, grind (arith, dict_laws))

-- A stored session, restored into a core that has no session of that name, is there again: same
-- identity, name, sequence, time and committed requests in the same order; nobody is attached or
-- drives, and the lease epoch is one further (at most `u64::MAX`).
pub restore_session-snapshot :
    (c d : LeaderCore) (id : SessionId) (s : SessionState) (image : SessionControlSnapshot)
    → Dict.get id c.sessions ≡ some s
    → s.id ≡ id
    → normalize_name s.name ≡ s.name
    → Logged c.deduplication_window s
    → snapshot c id ≡ ok image
    → Dict.get s.name d.names ≡ none
    → (after : SessionState) × ((restore_session image d).0 ≡ ok tt)
      × (Dict.get id (restore_session image d).1.sessions ≡ some after)
      × Restores s after
unfolding snapshot
restore_session-snapshot c d id s image at same normal log stored free =
    let e : image ≡ snapshot_of s = ground arith in
    let names : (snapshot_of s).name ≡ s.name = unfold snapshot_of in refl in
    let ids : (snapshot_of s).id ≡ id = unfold snapshot_of in same in
    let done = restore_session-stored d (snapshot_of s) (rw (names, normal) free) in
    rw e (
      restored (snapshot_of s),
      done.0,
      subst
          (λ j.
            Dict.get j (restore_session (snapshot_of s) d).1.sessions
            ≡ some (restored (snapshot_of s)))
          ids done.1,
      restored-Restores c.deduplication_window s log normal,
    )
