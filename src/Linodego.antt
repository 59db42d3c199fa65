-- ===== src/Linodego.antt =====
-- pkg/linode-client/linode_client.go: the client of the Linode API is made from a token and a URL.
-- The linodego library and the standard library's URL parser are parameters.
use linode_blockstorage_csi.Common.{
  ℕ, ◌==◌, ==_iff, Text, codes, is_empty, List, [], ◌∷◌, ◌++◌, append_assoc, append-nil, split,
  split_from, Bool-cases, All, ◌≡◌, ◌≢◌, ◌⊎◌, inl, inr, refl, sym, ap, ◌∙◌, if◌then◌else◌,
}
use linode_blockstorage_csi.Effect.{Result, ok, err}

-- The fields of url.URL that are read.
pub record Url : Type 0 where
  pub scheme : Text
  pub host : Text
  pub path : Text

-- linodego.Client and its setters.
pub record Linodego (C : Type 0) : Type 0 where
  pub new_client : C
  pub set_user_agent : Text → C → C
  pub set_token : Text → C → C
  pub set_base_url : Text → C → C
  pub set_api_version : Text → C → C

-- `strings.TrimPrefix(path, "/")`
trim_slash : Text → Text
trim_slash [] = []
trim_slash (c ∷ s) = if c == b'/' then s else c ∷ s

first_or_empty : List Text → Text
first_or_empty [] = []
first_or_empty (s ∷ ss) = s

-- The first segment of the path.
unfoldable pub version_of : Text → Text
unfolding trim_slash first_or_empty
version_of path =
    if is_empty (trim_slash path) then [] else first_or_empty (split b'/' (trim_slash path))

-- The base URL and the version of the API.
unfoldable pub get_api_url_components : (Text → Result Url) → Text → Result (Text × Text)
unfolding version_of
get_api_url_components parse_url api_url = elim (parse_url api_url) [
  | err e ↦ err e
  | ok u ↦ ok (u.scheme ++ codes "://" ++ u.host, version_of u.path)
]

module _ {C : Type 0} (lib : Linodego C) where
  with_version : Text → C → C
  with_version version c = if is_empty version then c else lib.set_api_version version c

  with_components : Result (Text × Text) → C → Result C
  unfolding with_version
  with_components (err e) c = err e
  with_components (ok (host, version)) c = ok (with_version version (lib.set_base_url host c))

  unfoldable pub new_linode_client : (Text → Result Url) → Text → Text → Text → Result C
  unfolding with_components
  new_linode_client parse_url token ua api_url =
      let c = lib.set_token token (lib.set_user_agent ua lib.new_client) in
      if is_empty api_url
      then ok c
      else with_components (get_api_url_components parse_url api_url) c

split_from_first :
    (sep : ℕ) (v rest cur : Text)
    → All (λ c. c ≢ sep) v
    → (rest ≡ []) ⊎ ((r : Text) × (rest ≡ sep ∷ r))
    → first_or_empty (split_from sep (v ++ rest) cur) ≡ cur ++ v
unfolding first_or_empty split_from
split_from_first sep [] rest cur free (inl e) = rw e (sym (append-nil cur))
split_from_first sep [] rest cur free (inr (r, e)) =
    rw (e, split_from, (==_iff sep sep).1 refl) (sym (append-nil cur))
split_from_first sep (c ∷ v) rest cur (hc, hv) h = elim (Bool-cases (c == sep)) [
  | inl same ↦ absurd (hc ((==_iff c sep).0 same))
  | inr differ ↦
      rw (split_from, differ)
        (split_from_first sep v rest (cur ++ c ∷ []) hv h ∙ append_assoc cur (c ∷ []) v)
]

version_of_lem :
    (v rest : Text)
    → All (λ c. c ≢ b'/') v
    → (rest ≡ []) ⊎ ((r : Text) × (rest ≡ b'/' ∷ r))
    → version_of (b'/' ∷ (v ++ rest)) ≡ v
unfolding version_of trim_slash split
version_of_lem [] rest free (inl e) = rw e refl
version_of_lem [] rest free (inr (r, e)) =
    rw e (split_from_first b'/' [] (b'/' ∷ r) [] free (inr (r, refl)))
version_of_lem (c ∷ v) rest free h = split_from_first b'/' (c ∷ v) rest [] free h

-- The base URL that is set is the scheme and the host, and the version of the API is the first
-- segment of the path of the URL, whatever follows it.
pub get_api_url_components_lem :
    (parse_url : Text → Result Url) (api_url : Text) (u : Url) (v rest : Text)
    → parse_url api_url ≡ ok u
    → u.path ≡ b'/' ∷ (v ++ rest)
    → All (λ c. c ≢ b'/') v
    → (rest ≡ []) ⊎ ((r : Text) × (rest ≡ b'/' ∷ r))
    → get_api_url_components parse_url api_url ≡ ok (u.scheme ++ codes "://" ++ u.host, v)
unfolding get_api_url_components
get_api_url_components_lem parse_url api_url u v rest parsed path free h =
    rw (get_api_url_components, parsed, path)
      (ap (λ s. ok (u.scheme ++ codes "://" ++ u.host, s)) (version_of_lem v rest free h))
