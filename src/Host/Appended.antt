-- ===== src/Host/Appended.antt =====
-- src/resident/host.rs: what `append_log` comes to: the record at the end of the journal, or an error
-- and its cause.
use turtletap.Prelude.{
  ◌+◌, ◌≤◌, ◌≡◌, refl, sym, subst, false, Bool-cases, Option, Option-cases, none, some, List, [],
  ◌∷◌, ◌++◌, arith, inl, inr, ◌⊎◌, ok, err, Result-cases, ℕ_key,
}
use turtletap.Dict
use turtletap.Dict.{dict_laws}
use turtletap.HashSet
use turtletap.Protocol.{SessionId, EventSequence, u64_max}
use turtletap.Application.{Application}
use turtletap.Host.{
  HostState, HostedSession, HostLogEvent, HostError, log_sequence_exhausted, disk_failed,
  Surroundings,
}
use turtletap.Host.Journals.{append_log, open_journal, next_log, next_fault, records_of}

faults-cases :
    {D : Type 0} (faults : List (Option D))
    → (faults ≡ [])
      ⊎ ((rest : List (Option D)) × (faults ≡ none ∷ rest))
      ⊎ ((e : D) × (rest : List (Option D)) × (faults ≡ some e ∷ rest))
faults-cases [] = inl refl
faults-cases (none ∷ rest) = inr (inl (rest, refl))
faults-cases (some e ∷ rest) = inr (inr (e, rest, refl))

module _ {A : Application} where
  pub open_journal-around :
      (session : SessionId) (h : HostState A)
      → ((open_journal session h).1.around.tasks ≡ h.around.tasks)
        × ((open_journal session h).1.around.records ≡ h.around.records)
  unfolding open_journal
  open_journal-around session h = (ground arith, ground arith)

  open_journal-sessions :
      (session : SessionId) (h : HostState A) → (open_journal session h).1.sessions ≡ h.sessions
  unfolding open_journal
  open_journal-sessions session h = ground arith

  -- A record that `append_log` acknowledges is the last one of the session's journal, and has the
  -- sequence after that of the session's log, which is the log's sequence from then on.
  pub record Appended (session : SessionId) (e : HostLogEvent A) (hosted : HostedSession A)
      (h h' : HostState A) : Type 0 where
    pub recorded :
        Dict.get session h'.around.records
        ≡ some (records_of (Dict.get session h.around.records) ++ (hosted.log_sequence + 1, e) ∷ [])
    pub advanced :
        Dict.get session h'.sessions
        ≡ some (record hosted { log_sequence = hosted.log_sequence + 1 })

  -- Why `append_log` refuses a record: the sequence of the log has come to the end of u64, or the
  -- disk fails, at the first write or, behind the opening of the writer, at the second.
  pub data Refused (session : SessionId) (hosted : HostedSession A) (h : HostState A)
      : HostError A → Type 0 where
    full : u64_max ≤ hosted.log_sequence → Refused session hosted h log_sequence_exhausted
    first_write :
        (e : A.DiskError) (rest : List (Option A.DiskError))
        → h.around.faults ≡ some e ∷ rest
        → Refused session hosted h (disk_failed e)
    second_write :
        (e : A.DiskError) (rest : List (Option A.DiskError))
        → HashSet.contains session h.journals ≡ false
        → h.around.faults ≡ none ∷ some e ∷ rest
        → Refused session hosted h (disk_failed e)

  next_log-some :
      (hosted : HostedSession A) (sequence : EventSequence)
      → next_log hosted ≡ some sequence
      → sequence ≡ hosted.log_sequence + 1
  unfolding next_log
  next_log-some hosted sequence h = ground arith

  next_log-none :
      (hosted : HostedSession A) → next_log hosted ≡ none → u64_max ≤ hosted.log_sequence
  unfolding next_log
  next_log-none hosted h = ground arith

  pub append_log-Appended :
      (session : SessionId) (e : HostLogEvent A) (h : HostState A) (hosted : HostedSession A)
      → Dict.get session h.sessions ≡ some hosted
      → (append_log session e h).0 ≡ ok tt
      → Appended session e hosted h (append_log session e h).1
  unfolding append_log
  append_log-Appended session e h hosted at done = elim (Option-cases (next_log hosted)) [
    | inl none_left ↦ absurd (ground arith)
    | inr (sequence, room) ↦
        let is = next_log-some hosted sequence room in
        elim (Result-cases (open_journal session h).0) [
          | inl (x, failed) ↦ absurd (ground arith)
          | inr (_, opened) ↦ elim (Option-cases (next_fault (open_journal session h).1.around).0) [
            | inr (x, failed) ↦ absurd (ground arith)
            | inl fine ↦
                let same = open_journal-sessions session h in
                record {
                  recorded = grind (arith, dict_laws, open_journal-around session h);
                  advanced = grind (arith, dict_laws);
                }
          ]
        ]
  ]

  -- The fault of the first write, if that fails.
  next_fault-some :
      (w : Surroundings A) (e : A.DiskError)
      → (next_fault w).0 ≡ some e
      → (rest : List (Option A.DiskError)) × (w.faults ≡ some e ∷ rest)
  unfolding next_fault
  next_fault-some w e failed = elim (faults-cases w.faults) [
    | inl empty ↦ absurd (ground arith)
    | inr (inl (rest, fine)) ↦ absurd (ground arith)
    | inr (inr (f, rest, is)) ↦ (rest, ground arith)
  ]

  open_journal-err :
      (session : SessionId) (h : HostState A) (x : HostError A)
      → (open_journal session h).0 ≡ err x
      → (e : A.DiskError) × (rest : List (Option A.DiskError)) × (x ≡ disk_failed e)
        × (h.around.faults ≡ some e ∷ rest)
  unfolding open_journal
  open_journal-err session h x failed = elim (Bool-cases (HashSet.contains session h.journals)) [
    | inl open_already ↦ absurd (ground arith)
    | inr closed ↦ elim (Option-cases (next_fault h.around).0) [
      | inl fine ↦ absurd (ground arith)
      | inr (e, bad) ↦
          let (rest, is) = next_fault-some h.around e bad in (e, rest, ground arith, is)
    ]
  ]

  -- With the writer open, the fault that the record meets.
  opened_fault :
      (session : SessionId) (hosted : HostedSession A) (h : HostState A) (e : A.DiskError)
      → (open_journal session h).0 ≡ ok tt
      → (next_fault (open_journal session h).1.around).0 ≡ some e
      → Refused session hosted h (disk_failed e)
  unfolding open_journal
  opened_fault session hosted h e opened bad =
      elim (Bool-cases (HashSet.contains session h.journals)) [
        | inl open_already ↦
            let (rest, is) = next_fault-some h.around e (ground arith) in first_write e rest is
        | inr closed ↦
            let (rest, is) = next_fault-some (next_fault h.around).1 e (ground arith) in
            elim (faults-cases h.around.faults) [
              | inl empty ↦ absurd (unfold next_fault in ground arith)
              | inr (inl (more, fine)) ↦
                  second_write e rest closed (unfold next_fault in ground arith)
              | inr (inr (f, more, first)) ↦ absurd (unfold next_fault in ground arith)
            ]
      ]

  pub append_log-Refused :
      (session : SessionId) (e : HostLogEvent A) (h : HostState A) (hosted : HostedSession A)
      (x : HostError A)
      → Dict.get session h.sessions ≡ some hosted
      → (append_log session e h).0 ≡ err x
      → Refused session hosted h x
  unfolding append_log
  append_log-Refused session e h hosted x at failed = elim (Option-cases (next_log hosted)) [
    | inl none_left ↦
        let is : x ≡ log_sequence_exhausted = ground arith in
        subst (Refused session hosted h) (sym is) (full (next_log-none hosted none_left))
    | inr (sequence, room) ↦ elim (Result-cases (open_journal session h).0) [
      | inl (y, bad) ↦
          let (f, rest, is, faults) = open_journal-err session h y bad in
          let same : x ≡ disk_failed f = ground arith in
          subst (Refused session hosted h) (sym same) (first_write f rest faults)
      | inr (_, opened) ↦ elim (Option-cases (next_fault (open_journal session h).1.around).0) [
        | inl fine ↦ absurd (ground arith)
        | inr (f, bad) ↦
            let same : x ≡ disk_failed f = ground arith in
            subst (Refused session hosted h) (sym same) (opened_fault session hosted h f opened bad)
      ]
    ]
  ]

  -- A record that is refused is not in the journal.
  pub append_log-records :
      (session : SessionId) (e : HostLogEvent A) (h : HostState A) (x : HostError A)
      → (append_log session e h).0 ≡ err x
      → (append_log session e h).1.around.records ≡ h.around.records
  unfolding append_log
  append_log-records session e h x failed = ground (arith, open_journal-around session h)
