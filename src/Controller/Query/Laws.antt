-- ===== src/Controller/Query/Laws.antt =====
-- Pagination and the entries of `ListVolumes`.
use mathlib.Core.Path.{subst}
use linode_blockstorage_csi.Common.{
  ℤ, pos, ◌+ℤ◌, wrap, wrap-InInt64, itoa, itoa-ne-nil, atoi, atoi-itoa, Text, some, [], ◌∷◌, ◌≡◌,
  ◌≢◌, refl, arith,
}
use linode_blockstorage_csi.Effect.{Result, ok, err, done, State}
use linode_blockstorage_csi.Api.{LinodeClient}
use linode_blockstorage_csi.Csi.{ListVolumesRequest, ListVolumesResponse}
use linode_blockstorage_csi.Controller.Query.{page_of_token, list_volumes}

page_of_token-some :
    (t : Text) (n : ℤ)
    → t ≢ []
    → atoi t ≡ some n
    → page_of_token t ≡ ok (n, itoa (wrap (n +ℤ pos 1)))
unfolding page_of_token
page_of_token-some [] n h e = absurd (h refl)
page_of_token-some (c ∷ t) n h e = ground arith

page_of_token_inv :
    (t next : Text) (n : ℤ)
    → t ≢ []
    → page_of_token t ≡ ok (n, next)
    → (atoi t ≡ some n) × (next ≡ itoa (wrap (n +ℤ pos 1)))
unfolding page_of_token
page_of_token_inv [] next n h e = absurd (h refl)
page_of_token_inv (c ∷ t) next n h e = ground arith

-- A token that names a page is followed by the token of the next page, which is accepted again: the
-- page is the int64 after it, and the token behind that is again not empty.
pub page_of_token_next :
    (t next : Text) (page : ℤ)
    → t ≢ []
    → page_of_token t ≡ ok (page, next)
    → (next ≢ [])
      × ((more : Text) × (more ≢ []) × (page_of_token next ≡ ok (wrap (page +ℤ pos 1), more)))
page_of_token_next t next page h e =
    let (_, q) = page_of_token_inv t next page h e in
    let n = wrap (page +ℤ pos 1) in
    let more = itoa (wrap (n +ℤ pos 1)) in
    rw q (
      itoa-ne-nil n,
      (
        more,
        itoa-ne-nil _,
        page_of_token-some (itoa n) n (itoa-ne-nil n) (atoi-itoa n (wrap-InInt64 (page +ℤ pos 1))),
      ),
    )

page_of_token-nil : (page : ℤ) (next : Text) → page_of_token [] ≡ ok (page, next) → next ≡ []
unfolding page_of_token
page_of_token-nil page next e = cc

module _ {W : Type 0} (client : LinodeClient W) (s s' : State W) where
  page_of_response :
      (req : ListVolumesRequest) (r : ListVolumesResponse)
      → list_volumes client req s ≡ (done r, s')
      → (page : ℤ) × (page_of_token req.starting_token ≡ ok (page, r.next_token))
  unfolding list_volumes
  page_of_response req r h = at (page_of_token req.starting_token) refl
    where
      at :
          (p : Result (ℤ × Text))
          → page_of_token req.starting_token ≡ p
          → (page : ℤ) × (page_of_token req.starting_token ≡ ok (page, r.next_token))
      at (ok (page, next)) e = (page, ground arith)
      at (err x) e = absurd (ground arith)

  -- Whatever the API returns, a response to a request with no starting token has no next token, and
  -- a response to a request with one has one: the listing by pages is never begun by the driver and
  -- never ended by it, also where no volume is left.
  pub next_token-list_volumes :
      (req : ListVolumesRequest) (r : ListVolumesResponse)
      → list_volumes client req s ≡ (done r, s')
      → (req.starting_token ≡ [] → r.next_token ≡ [])
        × (req.starting_token ≢ [] → r.next_token ≢ [])
  next_token-list_volumes req r h =
      let (page, e) = page_of_response req r h in
      (
        λ empty.
            page_of_token-nil page r.next_token
              (subst (λ t. page_of_token t ≡ ok (page, r.next_token)) empty e),
        λ filled. (page_of_token_next req.starting_token r.next_token page filled e).0,
      )
