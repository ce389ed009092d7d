-- ===== src/Core/Window.antt =====
-- src/resident/core.rs: the loop that cuts the deduplication window, and what it forgets.
use turtletap.Prelude.{
  ℕ, suc, ◌-◌, ◌≤◌, ◌≡◌, refl, true, false, none, List, [], ◌∷◌, arith, if◌then◌else◌, length, drop,
  ltb, Bool-cases, inl, inr,
}
use turtletap.Dict
use turtletap.Dict.{Dict, dict_laws, get-remove}
use turtletap.HashSet.{mem}
use turtletap.Protocol.{RequestId, EventSequence, request_key}
use turtletap.Core.Session.{expire}

-- No request stands twice.
abbrev pub Distinct : List RequestId → Type 0
Distinct [] = Unit {0}
Distinct (r ∷ rs) = (mem r rs ≡ false) × Distinct rs

-- The loop keeps the newest `window` requests.
pub expire-drop :
    (window : ℕ) (order : List RequestId) (m : Dict RequestId EventSequence)
    → (expire window order m).0 ≡ drop (length order - window) order
unfolding expire
expire-drop window [] m = grind arith
expire-drop window (r ∷ rs) m = elim (Bool-cases (ltb window (suc (length rs)))) [
  | inl full ↦
      let e : suc (length rs) - window ≡ suc (length rs - window) = ground arith in
      rw (full, e) (expire-drop window rs (Dict.remove r m))
  | inr fits ↦ let e : suc (length rs) - window ≡ 0 = ground arith in rw (fits, e)
]

pub expire-length :
    (window : ℕ) (order : List RequestId) (m : Dict RequestId EventSequence)
    → length (expire window order m).0 ≤ window
unfolding expire
expire-length window [] m = omega arith
expire-length window (r ∷ rs) m = ground (arith, expire-length window rs (Dict.remove r m))

pub expire-mem :
    (window : ℕ) (order : List RequestId) (m : Dict RequestId EventSequence) (q : RequestId)
    → mem q (expire window order m).0 ≡ true
    → mem q order ≡ true
unfolding expire mem
expire-mem window [] m q h = h
expire-mem window (r ∷ rs) m q h = ground (arith, expire-mem window rs (Dict.remove r m) q)

pub expire-Distinct :
    (window : ℕ) (order : List RequestId) (m : Dict RequestId EventSequence)
    → Distinct order
    → Distinct (expire window order m).0
unfolding expire
expire-Distinct window [] m d = tt
expire-Distinct window (r ∷ rs) m d =
    ground (arith, expire-Distinct window rs (Dict.remove r m) d.1)

-- A request that stays in the order keeps its entry, and so does one that was never in it. A
-- request that leaves the order leaves the map.
pub expire-get :
    (window : ℕ) (order : List RequestId) (m : Dict RequestId EventSequence) (q : RequestId)
    → Distinct order
    → Dict.get q (expire window order m).1 ≡ (
        if mem q order
        then (if mem q (expire window order m).0 then Dict.get q m else none)
        else Dict.get q m)
unfolding expire mem
expire-get window [] m q d = refl
expire-get window (r ∷ rs) m q d = ground (
  arith,
  expire-get window rs (Dict.remove r m) q d.1,
  get-remove r q m,
  expire-mem window rs (Dict.remove r m) q,
)
