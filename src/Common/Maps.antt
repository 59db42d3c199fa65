-- ===== src/Common/Maps.antt =====
-- Go's `map[string]string` as an association list; a missing key reads as the empty string.
use mathlib.Core.Path.{◌≡◌, refl}
use mathlib.Core.List.{List, [], ◌∷◌}
use mathlib.Core.Option.{Option, none, some}
use native.Mathlib.Omega.{arith}
use linode_blockstorage_csi.Common.Tests.{if◌then◌else◌}
use linode_blockstorage_csi.Common.Strings.{Text, text_eq, text_eq_iff}

abbrev pub Dict : Type 0
Dict = List (Text × Text)

-- `v, ok := m[k]`
unfoldable pub lookup : Text → Dict → Option Text
lookup k [] = none
lookup k ((j, v) ∷ m) = if text_eq j k then some v else lookup k m

-- `m[k]`
unfoldable pub get : Text → Dict → Text
unfolding lookup
get k m = elim (lookup k m) [ none ↦ [] | some v ↦ v ]

-- `m[k] = v`
unfoldable pub insert : Text → Text → Dict → Dict
insert k v [] = (k, v) ∷ []
insert k v ((j, w) ∷ m) = if text_eq j k then (k, v) ∷ m else (j, w) ∷ insert k v m

pub lookup-insert :
    (k j v : Text) (m : Dict)
    → lookup j (insert k v m) ≡ (if text_eq k j then some v else lookup j m)
unfolding lookup insert
lookup-insert k j v [] = refl
lookup-insert k j v ((i, w) ∷ m) =
    ground (arith, text_eq_iff k j, text_eq_iff i k, text_eq_iff i j, lookup-insert k j v m)
