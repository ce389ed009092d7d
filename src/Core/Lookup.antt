-- ===== src/Core/Lookup.antt =====
-- src/resident/core.rs: sessions found by name, activity times, and the listing.
use mathlib.Core.List.{Perm}
use mathlib.Core.List.Perm
use turtletap.Prelude.{
  ◌≡◌, refl, ite, Bool, true, false, none, some, List, [], ◌∷◌, map, arith, ℕ_key, text_key, ok,
  inl, inr, if◌then◌else◌, ltb, ◌==◌, Bool-cases,
}
use turtletap.Dict
use turtletap.Dict.{dict_laws}
use turtletap.Protocol.{SessionId, SessionSummary, Text}
use turtletap.Core.Names.{normalize_name}
use turtletap.Core.Session.{SessionState, summary}
use turtletap.Core.Ops.{LeaderCore, create_session, rename_session, session_named}
use turtletap.Core.Naming.{Named}

-- A session that was created is found under the name that was given, whatever white space stood
-- around it; a name that is in use is refused.
pub session_named-create_session :
    (id : SessionId) (given : Text) (c d : LeaderCore) (answer : SessionSummary)
    → create_session id given c ≡ (ok answer, d)
    → (session_named d given ≡ some id) × (session_named c given ≡ none)
unfolding create_session session_named
session_named-create_session id given c d answer h =
    (grind (arith, dict_laws), grind (arith, dict_laws))

-- After a rename the new name finds the session, and the old one finds nothing unless it is the
-- same; every other name finds what it found before.
pub names-rename_session :
    (id : SessionId) (given : Text) (c d : LeaderCore) (answer : SessionSummary) (s : SessionState)
    → Named c
    → Dict.get id c.sessions ≡ some s
    → rename_session id given c ≡ (ok answer, d)
    → (n : Text)
    → Dict.get n d.names
      ≡ ite
          (text_key.dec (normalize_name given) n)
          (some id)
          (ite (text_key.dec s.name n) none (Dict.get n c.names))
unfolding rename_session
names-rename_session id given c d answer s h at done n = grind (arith, dict_laws)

-- `Ord` on names: the order of their UTF-8 bytes is that of their code points.
unfoldable pub name_le : Text → Text → Bool
name_le [] n = true
name_le (x ∷ xs) [] = false
name_le (x ∷ xs) (y ∷ ys) =
    let rest = name_le xs ys in if ltb x y then true else (if x == y then rest else false)

unfoldable pub insert_by_name : SessionSummary → List SessionSummary → List SessionSummary
insert_by_name s [] = s ∷ []
insert_by_name s (t ∷ ts) =
    let rest = insert_by_name s ts in if name_le s.name t.name then s ∷ t ∷ ts else t ∷ rest

-- `sessions.sort_by(...)`, a stable sort.
unfoldable pub sort_by_name : List SessionSummary → List SessionSummary
unfolding insert_by_name
sort_by_name [] = []
sort_by_name (s ∷ ss) = insert_by_name s (sort_by_name ss)

unfoldable pub sessions : LeaderCore → List SessionSummary
unfolding sort_by_name
sessions c = sort_by_name (map summary (Dict.values c.sessions))

abbrev pub IsSorted : List SessionSummary → Type 0
IsSorted [] = Unit {0}
IsSorted (s ∷ []) = Unit {0}
IsSorted (s ∷ t ∷ ts) = (name_le s.name t.name ≡ true) × IsSorted (t ∷ ts)

name_le_total : (m n : Text) → name_le m n ≡ false → name_le n m ≡ true
unfolding name_le
name_le_total [] n h = cc
name_le_total (x ∷ xs) [] h = refl
name_le_total (x ∷ xs) (y ∷ ys) h = ground (arith, name_le_total xs ys)

insert_by_name-IsSorted :
    (s : SessionSummary) (ts : List SessionSummary) → IsSorted ts → IsSorted (insert_by_name s ts)
unfolding insert_by_name
insert_by_name-IsSorted s [] h = tt
insert_by_name-IsSorted s (t ∷ []) h = ground (arith, name_le_total s.name t.name)
insert_by_name-IsSorted s (t ∷ u ∷ us) h =
    ground (arith, name_le_total s.name t.name, insert_by_name-IsSorted s (u ∷ us) h.1)

insert_by_name-perm :
    (s : SessionSummary) (ts : List SessionSummary) → Perm (insert_by_name s ts) (s ∷ ts)
unfolding insert_by_name
insert_by_name-perm s [] = Perm.refl (s ∷ [])
insert_by_name-perm s (t ∷ ts) = elim (Bool-cases (name_le s.name t.name)) [
  | inl before ↦ rw before (Perm.refl (s ∷ t ∷ ts))
  | inr after ↦ rw after (Perm.trans (Perm.cons t (insert_by_name-perm s ts)) (Perm.swap s t ts))
]

sort_by_name-IsSorted : (ss : List SessionSummary) → IsSorted (sort_by_name ss)
unfolding sort_by_name
sort_by_name-IsSorted [] = tt
sort_by_name-IsSorted (s ∷ ss) =
    insert_by_name-IsSorted s (sort_by_name ss) (sort_by_name-IsSorted ss)

sort_by_name-perm : (ss : List SessionSummary) → Perm (sort_by_name ss) ss
unfolding sort_by_name
sort_by_name-perm [] = Perm.nil
sort_by_name-perm (s ∷ ss) =
    Perm.trans (insert_by_name-perm s (sort_by_name ss)) (Perm.cons s (sort_by_name-perm ss))

-- The listing is in the order of the names, and a permutation of the summaries of the map's values.
pub sessions_lem :
    (c : LeaderCore)
    → IsSorted (sessions c) × Perm (sessions c) (map summary (Dict.values c.sessions))
unfolding sessions
sessions_lem c =
    let all = map summary (Dict.values c.sessions) in
    (sort_by_name-IsSorted all, sort_by_name-perm all)
