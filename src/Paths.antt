-- ===== src/Paths.antt =====
-- Go's path.Clean, path.Join and filepath.Dir for slash-separated paths.
pub mod Laws
use linode_blockstorage_csi.Common.{
  Text, codes, text_eq, split, is_empty, List, [], ◌∷◌, ◌++◌, Bool, true, false, if◌then◌else◌,
}

-- A ".." behind the elements that were kept, the last first; a rooted path stops at its root.
up : Bool → List Text → List Text
up true [] = []
up false [] = codes ".." ∷ []
up rooted (e ∷ es) = if text_eq e (codes "..") then codes ".." ∷ e ∷ es else es

keep : Bool → List Text → List Text → List Text
unfolding up
keep rooted [] kept = kept
keep rooted (e ∷ es) kept = keep rooted es (
    if is_empty e
    then kept
    else if text_eq e (codes ".")
    then kept
    else if text_eq e (codes "..")
    then up rooted kept
    else e ∷ kept)

-- The elements in order, with slashes between them.
join_reversed : List Text → Text → Text
join_reversed [] out = out
join_reversed (e ∷ es) out = join_reversed es (e ++ (if is_empty out then [] else b'/' ∷ out))

is_rooted : Text → Bool
is_rooted [] = false
is_rooted (c ∷ s) = text_eq (c ∷ []) (codes "/")

unfoldable pub clean : Text → Text
unfolding keep join_reversed is_rooted
clean path =
    let rest = join_reversed (keep (is_rooted path) (split b'/' path) []) [] in
    if is_rooted path then b'/' ∷ rest else if is_empty rest then codes "." else rest

-- Two elements that are not empty.
unfoldable pub join : Text → Text → Text
unfolding clean
join a b = clean (a ++ b'/' ∷ b)

-- The path up to its last slash, that slash included.
up_to_slash : Text → Text → Text → Text
up_to_slash [] seen cut = cut
up_to_slash (c ∷ s) seen cut =
    let seen' = seen ++ c ∷ [] in
    up_to_slash s seen' (if text_eq (c ∷ []) (codes "/") then seen' else cut)

unfoldable pub dir : Text → Text
unfolding clean up_to_slash
dir path = clean (up_to_slash path [] [])
