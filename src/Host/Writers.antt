-- ===== src/Host/Writers.antt =====
-- src/resident/host.rs: the writers that `append_log` keeps open.
use turtletap.Prelude.{
  ◌≤◌, ◌<◌, ◌≡◌, true, Bool-cases, Option-cases, some, List, [], ◌∷◌, ◌++◌, ◌≢◌, ◌⊎◌, subst,
  ℕ_discrete, arith, leb, inl, inr, ok, err, Result-cases, ℕ_key,
}
use turtletap.Dict
use turtletap.HashSet
use turtletap.HashSet.{HashSet, set_laws, mem, len-insert, len_none, mem-append}
use turtletap.Protocol.{SessionId}
use turtletap.Application.{Application}
use turtletap.Host.{HostState, HostLogEvent, HostError}
use turtletap.Host.Journals.{
  open_journal_limit, retain_other, close_oldest, open_journal, append_log, next_fault, next_log,
}

-- Every writer that is open is in the order in which they were used, and there are at most so many.
pub record Kept (order : List SessionId) (journals : HashSet SessionId) : Type 0 where
  pub ordered : (j : SessionId) → HashSet.contains j journals ≡ true → mem j order ≡ true
  pub few : HashSet.len journals ≤ open_journal_limit

-- Where every open writer is in the order, the loop ends, with room for one more.
close_oldest-room :
    (order : List SessionId) (journals : HashSet SessionId)
    → ((j : SessionId) → HashSet.contains j journals ≡ true → mem j order ≡ true)
    → (left : List SessionId) × (kept : HashSet SessionId) × (close_oldest order journals
        ≡ some (left, kept))
      × (HashSet.len kept < open_journal_limit)
      × ((j : SessionId) → HashSet.contains j kept ≡ true → mem j left ≡ true)
unfolding close_oldest mem
close_oldest-room [] journals ordered =
    let none_open : HashSet.len journals ≡ 0 = len_none journals (λ j e. cc (ordered j e)) in
    ([], journals, ground arith, ground arith, ordered)
close_oldest-room (oldest ∷ order) journals ordered =
    elim (Bool-cases (leb open_journal_limit (HashSet.len journals))) [
      | inr room ↦ (oldest ∷ order, journals, ground arith, ground arith, ordered)
      | inl full ↦
          let (left, kept, e, few, in_order) =
            close_oldest-room order (HashSet.remove oldest journals)
              (λ j h. grind (arith, ordered j, set_laws)) in
          (left, kept, ground arith, few, in_order)
    ]

last_is_in : (session : SessionId) (xs : List SessionId) → mem session (xs ++ session ∷ []) ≡ true
unfolding mem
last_is_in session [] = ground arith
last_is_in session (x ∷ xs) = ground (arith, last_is_in session xs)

mem-retain_other :
    (session j : SessionId) (order : List SessionId)
    → mem j order ≡ true
    → mem j (retain_other session order ++ session ∷ []) ≡ true
unfolding mem retain_other
mem-retain_other session j [] h = cc
mem-retain_other session j (k ∷ order) h =
    ground
      (arith, mem-retain_other session j order, last_is_in session (retain_other session order))

-- Between the opening of a writer and its being used, it may be open and not in the order.
record Opened (session : SessionId) (order : List SessionId) (journals : HashSet SessionId)
    : Type 0 where
  ordered : (j : SessionId) → HashSet.contains j journals ≡ true → session ≢ j → mem j order ≡ true
  few : HashSet.len journals ≤ open_journal_limit

used-Kept :
    (session : SessionId) (order : List SessionId) (journals : HashSet SessionId)
    → Opened session order journals
    → Kept (retain_other session order ++ session ∷ []) journals
used-Kept session order journals o = record {
  ordered = λ j h. elim (ℕ_discrete session j) [
    | yes same ↦
        subst (λ k. mem k (retain_other session order ++ session ∷ []) ≡ true) same
          (last_is_in session (retain_other session order))
    | no other ↦ mem-retain_other session j order (o.ordered j h other)
  ];
  few = o.few;
}

module _ {A : Application} (session : SessionId) where
  -- The writers stay as they are, or one is opened in the room that was made.
  open_journal-writers :
      (h : HostState A) (left : List SessionId) (kept : HashSet SessionId)
      → close_oldest h.journal_order h.journals ≡ some (left, kept)
      → ((open_journal session h).1.journal_order ≡ h.journal_order)
          × ((open_journal session h).1.journals ≡ h.journals)
        ⊎ ((open_journal session h).1.journal_order ≡ left)
          × ((open_journal session h).1.journals ≡ HashSet.insert session kept)
          × ((open_journal session h).0 ≡ ok tt)
  unfolding open_journal
  open_journal-writers h left kept e = elim (Bool-cases (HashSet.contains session h.journals)) [
    | inl open_already ↦ inl (ground arith, ground arith)
    | inr new ↦ elim (Option-cases (next_fault h.around).0) [
      | inl fine ↦ inr (ground arith, ground arith, ground arith)
      | inr (x, failed) ↦ inl (ground arith, ground arith)
    ]
  ]

  open_journal-Opened :
      (h : HostState A)
      → Kept h.journal_order h.journals
      → Opened session (open_journal session h).1.journal_order (open_journal session h).1.journals
  open_journal-Opened h k =
      let (left, kept, e, few, in_order) = close_oldest-room h.journal_order h.journals k.ordered in
      elim (open_journal-writers h left kept e) [
        | inl (same, alike) ↦
            rw (same, alike) (record { ordered = λ j c other. k.ordered j c; few = k.few })
        | inr (order, journals, done) ↦
            rw (order, journals)
              (record {
                ordered = λ j c other. in_order j (grind (arith, set_laws));
                few = omega (arith, len-insert session kept);
              })
      ]

  open_journal-failed :
      (x : HostError A) (h : HostState A)
      → Kept h.journal_order h.journals
      → (open_journal session h).0 ≡ err x
      → Kept (open_journal session h).1.journal_order (open_journal session h).1.journals
  open_journal-failed x h k failed =
      let (left, kept, e, few, in_order) = close_oldest-room h.journal_order h.journals k.ordered in
      elim (open_journal-writers h left kept e) [
        | inl (same, alike) ↦ rw (same, alike) k
        | inr (order, journals, done) ↦ absurd (ground (arith, done))
      ]

  -- What is left of the writers, by where the call ends.
  append_log-writers :
      (e : HostLogEvent A) (h : HostState A)
      → ((append_log session e h).1.journal_order ≡ h.journal_order)
          × ((append_log session e h).1.journals ≡ h.journals)
        ⊎ ((x : HostError A) × ((open_journal session h).0 ≡ err x)
            × ((append_log session e h).1.journal_order ≡ (open_journal session h).1.journal_order)
            × ((append_log session e h).1.journals ≡ (open_journal session h).1.journals))
        ⊎ ((append_log session e h).1.journal_order
            ≡ retain_other session (open_journal session h).1.journal_order ++ session ∷ [])
          × ((append_log session e h).1.journals ≡ (open_journal session h).1.journals)
  unfolding append_log
  append_log-writers e h = elim (Option-cases (Dict.get session h.sessions)) [
    | inl missing ↦ inl (ground arith, ground arith)
    | inr (hosted, at) ↦ elim (Option-cases (next_log hosted)) [
      | inl exhausted ↦ inl (ground arith, ground arith)
      | inr (sequence, room) ↦ elim (Result-cases (open_journal session h).0) [
        | inl (x, failed) ↦ inr (inl (x, failed, ground arith, ground arith))
        | inr (_, opened) ↦ inr (inr (ground arith, ground arith))
      ]
    ]
  ]

  -- Where every open journal writer is in the order of use, and not more than 64 are open, this holds
  -- behind `append_log` also, whatever fails on the way.
  pub append_log-Kept :
      (e : HostLogEvent A) (h : HostState A)
      → Kept h.journal_order h.journals
      → Kept (append_log session e h).1.journal_order (append_log session e h).1.journals
  append_log-Kept e h k = elim (append_log-writers e h) [
    | inl (order, journals) ↦ rw (order, journals) k
    | inr (inl (x, failed, order, journals)) ↦
        rw (order, journals) (open_journal-failed x h k failed)
    | inr (inr (order, journals)) ↦
        rw (order, journals)
          (used-Kept session (open_journal session h).1.journal_order
            (open_journal session h).1.journals (open_journal-Opened h k))
  ]
