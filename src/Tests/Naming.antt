-- ===== src/Tests/Naming.antt =====
-- src/resident/core.rs and src/resident/protocol.rs: the theorems on names, times, the window and
-- versions at concrete values.
use mathlib.Core.List.{Perm}
use turtletap.Prelude.{ℕ, ◌≡◌, ◌≤◌, refl, List, [], ◌∷◌, map, ℕ_key, text_key}
use turtletap.Dict
use turtletap.Dict.{Dict}
use turtletap.Protocol.{RequestId, request_key, VersionRange, negotiate, Text, EventSequence}
use turtletap.Protocol.Negotiation.{Supports, negotiate_newest, negotiate_comm}
use turtletap.Core.Session.{expire, summary}
use turtletap.Core.Window.{expire-drop}
use turtletap.Core.Lookup.{sessions, sessions_lem, IsSorted}
use turtletap.Tests.Core.{taken, request}

-- " log "
abbrev padded : Text
padded = b' ' ∷ b'l' ∷ b'o' ∷ b'g' ∷ b' ' ∷ []

abbrev log : Text
log = b'l' ∷ b'o' ∷ b'g' ∷ []

sessions_lem_example :
    IsSorted (sessions taken) × Perm (sessions taken) (map summary (Dict.values taken.sessions))
sessions_lem_example = sessions_lem taken

abbrev three : List RequestId
three = request 1 ∷ request 2 ∷ request 3 ∷ []

abbrev entries : Dict RequestId EventSequence
entries =
    Dict.insert (request 3) 3 (Dict.insert (request 2) 2 (Dict.insert (request 1) 1 Dict.empty))

expire-drop_example : (expire 2 three entries).0 ≡ request 2 ∷ request 3 ∷ []
expire-drop_example = expire-drop 2 three entries

abbrev old : VersionRange
old = record { minimum = 1; maximum = 3 }

abbrev young : VersionRange
young = record { minimum = 2; maximum = 5 }

negotiate_newest_example :
    Supports old 3 × Supports young 3 × ((w : ℕ) → Supports old w → Supports young w → w ≤ 3)
unfolding negotiate
negotiate_newest_example = negotiate_newest old young 3 refl

negotiate_comm_example : negotiate old young ≡ negotiate young old
negotiate_comm_example = negotiate_comm old young
