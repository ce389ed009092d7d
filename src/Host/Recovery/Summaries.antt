-- ===== src/Host/Recovery/Summaries.antt =====
-- src/resident/host.rs: the summary of a session that the host reads from its core.
use turtletap.Prelude.{
  ◌≡◌, refl, ap, subst, sym, ◌∙◌, Bool-cases, some, List, [], ◌∷◌, ◌==◌, arith, ℕ_key, Every, inl,
  inr, map,
}
use turtletap.Dict
use turtletap.Dict.{values-Every}
use turtletap.Protocol.{SessionId, SessionSummary, request_key}
use turtletap.Core.Session.{SessionState, summary}
use turtletap.Core.Ops.{LeaderCore}
use turtletap.Core.Lookup.{sessions, sort_by_name, insert_by_name, name_le}
use turtletap.Core.Naming.{Named}
use turtletap.Host.Emit.{find_summary}

-- A summary is that of the session of its identity.
abbrev Listed : LeaderCore → SessionSummary → Type 0
Listed c x = (s : SessionState) × (Dict.get x.id c.sessions ≡ some s) × (x ≡ summary s)

module _ (P : SessionSummary → Type 0) where
  insert_by_name-Every :
      (x : SessionSummary) (xs : List SessionSummary)
      → P x
      → Every P xs
      → Every P (insert_by_name x xs)
  unfolding insert_by_name
  insert_by_name-Every x [] p all = (p, tt)
  insert_by_name-Every x (y ∷ ys) p all = elim (Bool-cases (name_le x.name y.name)) [
    | inl before ↦ rw before (p, all)
    | inr after ↦ rw after (all.0, insert_by_name-Every x ys p all.1)
  ]

  sort_by_name-Every : (xs : List SessionSummary) → Every P xs → Every P (sort_by_name xs)
  unfolding sort_by_name
  sort_by_name-Every [] all = tt
  sort_by_name-Every (x ∷ xs) all =
      insert_by_name-Every x (sort_by_name xs) all.0 (sort_by_name-Every xs all.1)

  map-summary-Every :
      (ss : List SessionState) → Every (λ s. P (summary s)) ss → Every P (map summary ss)
  map-summary-Every [] all = tt
  map-summary-Every (s ∷ ss) all = (all.0, map-summary-Every ss all.1)

  find_summary-Every :
      (id : SessionId) (x : SessionSummary) (xs : List SessionSummary)
      → Every P xs
      → find_summary id xs ≡ some x
      → P x × (x.id ≡ id)
  unfolding find_summary
  find_summary-Every id x [] all h = cc
  find_summary-Every id x (y ∷ ys) all h = elim (Bool-cases (y.id == id)) [
    | inl here ↦
        let same : y ≡ x = ground arith in
        (subst P same all.0, subst (λ z. z.id ≡ id) same (ground arith))
    | inr other ↦ find_summary-Every id x ys all.1 (ground arith)
  ]

-- The summary that the host reads has the sequence of the session.
pub find_summary-sequence :
    (c : LeaderCore) (id : SessionId) (s : SessionState) (x : SessionSummary)
    → Named c
    → Dict.get id c.sessions ≡ some s
    → find_summary id (sessions c) ≡ some x
    → x.sequence ≡ s.sequence
unfolding sessions summary
find_summary-sequence c id s x named at h =
    let values = Dict.values c.sessions in
    let own : (q : SessionId) (v : SessionState)
        → Dict.get q c.sessions ≡ some v
        → Listed c (summary v) =
      λ q v e.
        (v, subst (λ k. Dict.get k c.sessions ≡ some v) (sym (named.identity q v e)) e, refl) in
    let all = sort_by_name-Every (Listed c) (map summary values) (
      map-summary-Every (Listed c) values
        (values-Every (λ v. Listed c (summary v)) c.sessions own)) in
    let ((t, found, same), here) =
      find_summary-Every (Listed c) id x (sort_by_name (map summary values)) all h in
    let alike : t ≡ s = cc (found, here, at) in
    ap (λ y. y.sequence) same ∙ ap (λ v. v.sequence) alike
