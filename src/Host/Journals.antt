-- ===== src/Host/Journals.antt =====
-- src/resident/host.rs: `append_log`, and the writers that are kept open.
use turtletap.Prelude.{
  ℕ, ◌+◌, Option, none, some, List, [], ◌∷◌, ◌++◌, ◌==◌, ltb, leb, if◌then◌else◌, ok, err, Op,
  ok_or, modify, ◌>>=◌, ◌>>◌, ℕ_key,
}
use turtletap.Dict
use turtletap.HashSet
use turtletap.HashSet.{HashSet}
use turtletap.Protocol.{SessionId, EventSequence, u64_max}
use turtletap.Application.{Application}
use turtletap.Host.{
  HostState, HostedSession, HostLogEvent, HostError, disk_failed, unknown_resident_session,
  log_sequence_exhausted, Surroundings,
}

-- `OPEN_JOURNAL_LIMIT`
abbrev pub open_journal_limit : ℕ
open_journal_limit = 64

-- `journal_order.retain(|recent| *recent != session)`
unfoldable pub retain_other : SessionId → List SessionId → List SessionId
retain_other session [] = []
retain_other session (j ∷ js) =
    let rest = retain_other session js in if j == session then rest else j ∷ rest

-- `while self.journals.len() >= OPEN_JOURNAL_LIMIT`: `none` is a loop that does not end, the order
-- being empty.
unfoldable pub close_oldest :
    List SessionId → HashSet SessionId → Option (List SessionId × HashSet SessionId)
close_oldest [] journals =
    if leb open_journal_limit (HashSet.len journals) then none else some ([], journals)
close_oldest (oldest ∷ order) journals =
    let rest = close_oldest order (HashSet.remove oldest journals) in
    if leb open_journal_limit (HashSet.len journals) then rest else some (oldest ∷ order, journals)

module _ {A : Application} where
  -- A write to the disk, that may fail.
  unfoldable pub next_fault : Surroundings A → Option A.DiskError × Surroundings A
  next_fault w = elim w.faults [
    | [] ↦ (none, w)
    | fault ∷ faults ↦ (fault, record w { faults = faults })
  ]

  unfoldable pub write :
      (Surroundings A → Surroundings A) → Op (HostState A) (HostError A) (Unit {0})
  unfolding next_fault
  write change h =
      let next = next_fault h.around in
      elim next.0 [
        | none ↦ (ok tt, record h { around = change next.1 })
        | some e ↦ (err (disk_failed e), record h { around = next.1 })
      ]

  find_hosted : SessionId → Op (HostState A) (HostError A) (HostedSession A)
  find_hosted session h = ok_or unknown_resident_session (Dict.get session h.sessions) h

  -- `log_sequence.checked_add(1)`
  unfoldable pub next_log : HostedSession A → Option EventSequence
  next_log hosted = if ltb hosted.log_sequence u64_max then some (hosted.log_sequence + 1) else none

  evict : Option (List SessionId × HashSet SessionId) → HostState A → HostState A
  evict none h = h
  evict (some (order, journals)) h = record h { journal_order = order; journals = journals }

  -- Opens the writer of a session, where it is not open; opening it may fail.
  unfoldable pub open_journal : SessionId → Op (HostState A) (HostError A) (Unit {0})
  unfolding write evict
  open_journal session h =
      if HashSet.contains session h.journals
      then (ok tt, h)
      else (do
        write (λ w. w)
        modify (λ h. evict (close_oldest h.journal_order h.journals) h)
        modify (λ h. record h { journals = HashSet.insert session h.journals }))
          h

  unfoldable pub records_of :
      Option (List (EventSequence × HostLogEvent A)) → List (EventSequence × HostLogEvent A)
  records_of none = []
  records_of (some records) = records

  unfoldable pub add_record :
      SessionId → EventSequence → HostLogEvent A → Surroundings A → Surroundings A
  unfolding records_of
  add_record session sequence event w = record w {
    records =
        Dict.insert session (records_of (Dict.get session w.records) ++ (sequence, event) ∷ [])
          w.records;
  }

  set_log : EventSequence → Option (HostedSession A) → SessionId → HostState A → HostState A
  set_log sequence none session h = h
  set_log sequence (some hosted) session h = record h {
    sessions = Dict.insert session (record hosted { log_sequence = sequence }) h.sessions;
  }

  unfoldable pub append_log : SessionId → HostLogEvent A → Op (HostState A) (HostError A) (Unit {0})
  unfolding find_hosted next_log add_record set_log write
  append_log session event = do
    hosted ← find_hosted session
    sequence ← ok_or log_sequence_exhausted (next_log hosted)
    open_journal session
    modify (λ h. record h { journal_order = retain_other session h.journal_order ++ session ∷ [] })
    write (add_record session sequence event)
    modify (λ h. set_log sequence (Dict.get session h.sessions) session h)
